-- ===== src/Contract/Written/Fitting.antt =====
-- What src/lib.rs reads through registers, the input, the account names and everything in storage,
-- fits there; and code that then only moves what fits.
use aurora_engine.Prelude.{Bool, true, false, Option, some, Bytes, if◌then◌else◌}
use aurora_engine.Platform.{Platform}
use aurora_engine.Sdk.Held.{Short, ShortIfAny}
use aurora_engine.Sdk.Programs.{FitsAll}
use aurora_engine.Contract.Written.Codes.{Code}

module _ (p : Platform) where
  open p use {World, context, storage_read}

  pub record IsShort (w : World) : Type 0 where
    pub input : Short (context w).input
    pub predecessor : Short (context w).predecessor_account_id
    pub account : Short (context w).current_account_id
    pub stored : (key : Bytes) → ShortIfAny (storage_read w key)

  -- Code that fits in every world in which all is short.
  abbrev pub FitsIfShort : Code → Type 0
  FitsIfShort c = (w : World) → IsShort w → FitsAll p c w

  pub written_short :
      (b : Bool) (v : Bytes) (o : Option Bytes)
      → Short v
      → ShortIfAny o
      → ShortIfAny (if b then some v else o)
  written_short true v o h k = h
  written_short false v o h k = k

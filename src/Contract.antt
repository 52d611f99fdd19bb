-- ===== src/Contract.antt =====
-- The contract's exported functions, src/lib.rs: their shared steps. A function maps the world at
-- the start of a call to the world at its end, or panics, and then the runtime drops all changes.
pub mod Admin
pub mod Views
pub mod Meta
pub mod Raw
pub mod Users
pub mod Authority
pub mod Liveness
pub mod Written
pub mod Machine
pub mod Replay
use aurora_engine.Prelude.{
  ℕ, ◌+◌, Bool, [], ◌∷◌, Option, Panic, Outcome, ok, panic, panic_utf8, abort, ◌>>=◌, Bytes,
  bytes_eq, codes, leb, if◌then◌else◌,
}
use aurora_engine.Packages.{u64_mod}
use aurora_engine.Types.{near_account_to_evm_address}
use aurora_engine.Parameters.{EngineState}
use aurora_engine.Evm.{ExitReason, succeed, revert, error, fatal}
use aurora_engine.Platform.{Platform}
use aurora_engine.Sdk.{predecessor_account_id, return_output, panic_hex}

-- `a + b` on `u64`: the release profile has overflow checks, so a sum that does not fit panics.
abbrev pub add_u64 : ℕ → ℕ → Outcome ℕ
add_u64 a b = if leb u64_mod (a + b) then panic abort else ok (a + b)

abbrev pub not_allowed : Panic
not_allowed = panic_utf8 (codes "ERR_NOT_ALLOWED")

module _ (p : Platform) where
  open p use {World}

  unfoldable pub require_owner_only : EngineState → World → Outcome (Unit {0})
  require_owner_only state w =
      if bytes_eq state.owner_id (predecessor_account_id p w) then ok tt else panic not_allowed

  abbrev pub predecessor_address : World → Outcome Bytes
  predecessor_address w =
      near_account_to_evm_address p.primitives p.crypto (predecessor_account_id p w)

  unfoldable pub process_exit_reason : ExitReason → Bytes → World → Outcome World
  process_exit_reason succeed result w = ok (return_output p result w)
  process_exit_reason revert result w = panic_hex result
  process_exit_reason error result w = panic (panic_utf8 (codes "error"))
  process_exit_reason fatal result w = panic (panic_utf8 (codes "fatal error"))

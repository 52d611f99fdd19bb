-- ===== src/Contract/Written/Apply/Safe.antt =====
-- Code that moves only what is short through registers, and leaves only what is short in storage: how
-- it is put together for the functions of src/engine.rs.
use mathlib.Core.Path.{subst}
use aurora_engine.Prelude.{
  ◌≡◌, sym, ◌∙◌, ap, Bool, true, false, Option, none, Outcome, ok, err, panic, >>=-ok, ok_inj,
  Bytes, bytes_eq, if◌then◌else◌,
}
use aurora_engine.Host.{Context}
use aurora_engine.Platform.{Platform}
use aurora_engine.Sdk.Held.{Short, ShortIfAny}
use aurora_engine.Sdk.Programs.{
  done, call, attempt, read_storage, log_utf8, run_described, run_described-and_then,
  FitsAll-and_then,
}
use aurora_engine.Contract.Written.Codes.{Code}
use aurora_engine.Contract.Written.Fitting.{IsShort, FitsIfShort, written_short}
use aurora_engine.Contract.Written.Apply.{writing, removing, then_code}

module _ (p : Platform) where
  open p use {World, context, storage_read, storage_write, storage_remove}

  -- Code that fits where all is short, and leaves all short.
  pub record IsSafe (c : Code) : Type 0 where
    pub fits : FitsIfShort p c
    stays :
        (w : World) (u : Unit {0}) (w' : World)
        → IsShort p w
        → run_described p c w ≡ ok (u, w')
        → IsShort p w'

  same_context :
      {w v : World}
      → context v ≡ context w
      → ((key : Bytes) → ShortIfAny (storage_read v key))
      → IsShort p w
      → IsShort p v
  same_context e stored short = record {
    input = subst (λ (c : Context). Short c.input) (sym e) short.input;
    predecessor = subst (λ (c : Context). Short c.predecessor_account_id) (sym e) short.predecessor;
    account = subst (λ (c : Context). Short c.current_account_id) (sym e) short.account;
    stored = stored;
  }

  removed_short : (b : Bool) (o : Option Bytes) → ShortIfAny o → ShortIfAny (if b then none else o)
  removed_short true o h = tt
  removed_short false o h = h

  last_world :
      {v w : World} {u t : Unit {0}}
      → (let o : Outcome (Unit {0} × World) = ok (u, v) in o) ≡ ok (t, w)
      → v ≡ w
  last_world e = ap (λ t. t.1) (ok_inj e)

  pub writing-IsSafe : (key value : Bytes) → Short value → IsSafe (writing key value)
  writing-IsSafe key value h = record {
    fits = λ w short. (short.stored key, λ _ _ _. tt);
    stays = λ w u w' short e. subst (IsShort p) (last_world e) (
        same_context (p.context-write w key value)
          (λ j.
            rw (p.read-write w key value j)
              (written_short p (bytes_eq key j) value (storage_read w j) h (short.stored j)))
          short);
  }

  pub removing-IsSafe : (key : Bytes) → IsSafe (removing key)
  removing-IsSafe key = record {
    fits = λ w short. (short.stored key, λ _ _ _. tt);
    stays = λ w u w' short e. subst (IsShort p) (last_world e) (
        same_context (p.context-remove w key)
          (λ j.
            rw (p.read-remove w key j)
              (removed_short (bytes_eq key j) (storage_read w j) (short.stored j)))
          short);
  }

  pub done-IsSafe : IsSafe (done tt)
  done-IsSafe = record {
    fits = λ w short. tt;
    stays = λ w u w' short e. subst (IsShort p) (last_world e) short;
  }

  pub then-IsSafe : (c d : Code) → IsSafe c → IsSafe d → IsSafe (then_code c d)
  then-IsSafe c d h k = record {
    fits = λ w short.
        FitsAll-and_then p c (λ _. d) w (h.fits w short)
          (λ u w' e. k.fits w' (h.stays w u w' short e));
    stays = λ w u w' short e.
        let ((t, v), first, second) =
          >>=-ok (run_described p c w) _ (sym (run_described-and_then p c (λ _. d) w) ∙ e) in
        k.stays v u w' (h.stays w t v short first) second;
  }

  pub attempt-IsSafe :
      {A : Type 0} (o : Outcome A) (next : A → Code)
      → ((a : A) → IsSafe (next a))
      → IsSafe (attempt o next)
  attempt-IsSafe (ok a) next h = h a
  attempt-IsSafe (err e) next h = record { fits = λ w s. tt; stays = λ w u w' s e. cc e }
  attempt-IsSafe (panic e) next h = record { fits = λ w s. tt; stays = λ w u w' s e. cc e }

  pub read-IsSafe :
      (key : Bytes) (next : Option Bytes → Code)
      → ((stored : Option Bytes) → IsSafe (next stored))
      → IsSafe (call (read_storage key) next)
  read-IsSafe key next h = record {
    fits = λ w short. (
      short.stored key,
      λ stored w' e. (h stored).fits w' (subst (IsShort p) (ap (λ t. t.1) (ok_inj e)) short),
    );
    stays = λ w u w' short e. (h (storage_read w key)).stays w u w' short e;
  }

  pub log-IsSafe :
      (text : Bytes) (next : Code) → IsSafe next → IsSafe (call (log_utf8 text) (λ _. next))
  log-IsSafe text next h = record {
    fits = λ w short. (tt, λ _ w' e. h.fits w' (subst (IsShort p) (last_world e) (logged w short)));
    stays = λ w u w' short e. h.stays (p.log_utf8 w text) u w' (logged w short) e;
  }
    where
      logged : (w : World) → IsShort p w → IsShort p (p.log_utf8 w text)
      logged w short =
          same_context (p.context-log w text) (λ j. rw (p.read-log w text j) (short.stored j)) short

  pub if-IsSafe : (b : Bool) (c d : Code) → IsSafe c → IsSafe d → IsSafe (if b then c else d)
  if-IsSafe true c d h k = h
  if-IsSafe false c d h k = k

-- ===== src/Contract/Written/Calls/Exits.antt =====
-- The exit of a call of the EVM, call by call, and the writing of an executor's changes before it.
use aurora_engine.Prelude.{
  slice, refl, true, List, Outcome, ok, err, panic, ◌>>=◌, panic_utf8, Bytes, All,
}
use aurora_engine.Types.{Log, bytes_to_hex, near_account_to_evm_address}
use aurora_engine.Evm.{Apply, IsApply, ExitReason, succeed, revert, error, fatal}
use aurora_engine.Platform.{Platform}
use aurora_engine.Sdk.Programs.{
  done, call, and_then, predecessor_account_id, keccak, panics, FitsAll, FitsAll-and_then,
}
use aurora_engine.Sdk
use aurora_engine.Engine.ApplyBackend.{apply}
use aurora_engine.Contract.{process_exit_reason, predecessor_address}
use aurora_engine.Contract.Written.Codes.{step}
use aurora_engine.Contract.Written.Fitting.{IsShort}
use aurora_engine.Contract.Written.Apply.{apply_written}
use aurora_engine.Contract.Written.Apply.Described.{apply-Ends, then-Ends}
use aurora_engine.Contract.Written.Apply.Fitting.{HasShortCode, apply_written-FitsIfShort}
use aurora_engine.Contract.Written.Does.{
  Reads, Ends, read-Reads, read-Ends, attempt-Reads, call-Reads,
}
use aurora_engine.Contract.Written.Calls.{exit_code, read_caller}

module _ (p : Platform) (w : p.World) where
  open p use {World}

  pub read_caller-Reads : Reads p (read_caller p) w (predecessor_address p w)
  unfolding near_account_to_evm_address
  read_caller-Reads =
      let name = Sdk.predecessor_account_id p w in
      read-Reads p w (call predecessor_account_id done) _ (ok name)
        (near_account_to_evm_address p.primitives p.crypto)
        (call-Reads p predecessor_account_id w _ refl (λ short. short.predecessor))
        (λ name e.
          read-Reads p w (call (keccak name) done) _ (ok (p.keccak name))
            (λ digest. slice digest 12 32 >>= p.h160_from_slice)
            (call-Reads p (keccak name) w (p.keccak name) refl (λ short. tt))
            (λ digest e.
              read-Reads p w (step (slice digest 12 32)) _ (slice digest 12 32) p.h160_from_slice
                (attempt-Reads p w (slice digest 12 32))
                (λ tail e. attempt-Reads p w (p.h160_from_slice tail))))

  pub exit_code-Ends :
      (status : ExitReason) (result : Bytes)
      → Ends p (exit_code status result) w (process_exit_reason p status result w)
  unfolding exit_code process_exit_reason
  exit_code-Ends succeed result = record { runs = refl; fits = λ short. (tt, λ _ _ _. tt) }
  exit_code-Ends revert result =
      read-Ends p w (step (bytes_to_hex result)) _ (bytes_to_hex result) _
        (attempt-Reads p w (bytes_to_hex result))
        (λ message e. record { runs = refl; fits = λ short. tt })
  exit_code-Ends error result = record { runs = refl; fits = λ short. tt }
  exit_code-Ends fatal result = record { runs = refl; fits = λ short. tt }

module _ (p : Platform) where
  open p use {World}

  exit_fits :
      (status : ExitReason) (result : Bytes) (v : World) → FitsAll p (exit_code status result) v
  unfolding exit_code and_then
  exit_fits succeed result v = (tt, λ _ _ _. tt)
  exit_fits revert result v = reverted (bytes_to_hex result)
    where
      reverted :
          (o : Outcome Bytes)
          → FitsAll p {A = Unit {0}} (and_then (step o) (λ message. panics (panic_utf8 message))) v
      reverted (ok message) = tt
      reverted (err e) = tt
      reverted (panic e) = tt
  exit_fits error result v = tt
  exit_fits fatal result v = tt

  -- An executor's changes, and the exit.
  pub applied-Ends :
      (values : List Apply) (logs : List Log) (status : ExitReason) (result : Bytes) (w : World)
      → All IsApply values
      → (IsShort p w → All HasShortCode values)
      → Ends p
          (and_then (apply_written p values logs true) (λ _. exit_code status result))
          w
          (apply p values logs true w >>= process_exit_reason p status result)
  applied-Ends values logs status result w h k = record {
    runs =
        then-Ends p (apply_written p values logs true) (exit_code status result) w
          (apply p values logs true w) (process_exit_reason p status result)
          (apply-Ends p true values logs w) (λ v. (exit_code-Ends p v status result).runs);
    fits = λ short.
        FitsAll-and_then p (apply_written p values logs true) _ w
          (apply_written-FitsIfShort p values logs true h (k short) w short)
          (λ a v e. exit_fits status result v);
  }

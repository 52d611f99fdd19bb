-- ===== src/Engine/Calls/Refines.antt =====
-- A call into the EVM returns, and writes exactly what its executor changed.
use aurora_engine.Prelude.{ℕ, ◌≡◌, refl, true, Outcome, ok, Bytes}
use aurora_engine.Evm.{Execution}
use aurora_engine.Platform.{Platform}
use aurora_engine.Engine.{Engine, backend}
use aurora_engine.Engine.Abstract.{Accounts, apply_all, Represents}
use aurora_engine.Engine.ApplyBackend.Total.{apply-Yields}
use aurora_engine.Engine.Calls.{call, precompiles, max_gas}

module _ (p : Platform) (engine : Engine) (accounts : Accounts) (w : p.World)
    (r : Represents p w accounts) where
  open p use {World}

  -- What the executor makes of a call.
  abbrev pub executed : Bytes → Bytes → ℕ → Bytes → Outcome Execution
  executed origin contract value input =
      p.executor.transact_call (precompiles p) (backend p engine w) origin contract value input
        max_gas

  -- Where the executor returns, `call` returns its status and result, and the accounts that storage
  -- then reads as are those before with the executor's changes made in order, also where the status
  -- is an error.
  pub call-apply_all :
      (origin contract : Bytes) (value : ℕ) (input : Bytes) (e : Execution)
      → executed origin contract value input ≡ ok e
      → (w' : World) × (call p engine origin contract value input w ≡ ok (e.status, e.result, w'))
        × Represents p w' (apply_all e.values accounts)
  unfolding call
  call-apply_all origin contract value input e ran =
      let valid = p.executor.transact_call-IsExecution _ _ _ _ _ _ _ ran in
      let (w', applied, r') =
        apply-Yields p accounts e.values e.logs true w r valid.values_valid valid.logs_valid in
      (w', rw (ran, applied) refl, r')

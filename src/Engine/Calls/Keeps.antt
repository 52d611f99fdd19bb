-- ===== src/Engine/Calls/Keeps.antt =====
-- A call into the EVM leaves the contract's own storage alone.
use aurora_engine.Prelude.{ℕ, ◌≡◌, true, ok, >>=-ok, Bytes}
use aurora_engine.Evm.{ExitReason}
use aurora_engine.Platform.{Platform}
use aurora_engine.Engine.{Engine, backend}
use aurora_engine.Engine.ApplyBackend.{apply}
use aurora_engine.Engine.ApplyBackend.Frame.{Keeps, apply-Keeps}
use aurora_engine.Engine.Calls.{call, deploy_code, precompiles, max_gas}
use mathlib.Core.Path.{subst}

module _ (p : Platform) (engine : Engine) where
  open p use {World}

  -- A call, whatever its status, changes neither the engine's state nor a staged upgrade.
  pub call-Keeps :
      (origin contract : Bytes) (value : ℕ) (input : Bytes) (w : World)
      {r : ExitReason × Bytes × World}
      → call p engine origin contract value input w ≡ ok r
      → Keeps p w r.2
  unfolding call
  call-Keeps origin contract value input w {r} h =
      let (e, ran, h1) =
        >>=-ok
          (p.executor.transact_call (precompiles p) (backend p engine w) origin contract value input
            max_gas)
          _ h in
      let (w', applied, done) = >>=-ok (apply p e.values e.logs true w) _ h1 in
      let valid = p.executor.transact_call-IsExecution _ _ _ _ _ _ _ ran in
      subst (Keeps p w) (cc done) (apply-Keeps p e.values e.logs true w valid.values_valid applied)

  pub deploy_code-Keeps :
      (origin : Bytes) (value : ℕ) (input : Bytes) (w : World) {r : ExitReason × Bytes × World}
      → deploy_code p engine origin value input w ≡ ok r
      → Keeps p w r.2
  unfolding deploy_code
  deploy_code-Keeps origin value input w {r} h =
      let (address, made, h0) =
        >>=-ok (p.executor.create_address (backend p engine w) origin) _ h in
      let (e, ran, h1) =
        >>=-ok
          (p.executor.transact_create (precompiles p) (backend p engine w) origin value input
            max_gas)
          _ h0 in
      let (w', applied, done) = >>=-ok (apply p e.values e.logs true w) _ h1 in
      let valid = p.executor.transact_create-IsExecution _ _ _ _ _ _ ran in
      subst (Keeps p w) (cc done) (apply-Keeps p e.values e.logs true w valid.values_valid applied)

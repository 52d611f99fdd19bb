-- ===== src/Engine/Calls.antt =====
-- The calls of `impl Engine` in src/engine.rs. The executor is the platform's; `&mut self` is the
-- world, which a call hands back.
pub mod Keeps
pub mod Refines
use aurora_engine.Prelude.{ℕ, ◌-◌, true, Outcome, ok, ◌>>=◌, Bytes}
use aurora_engine.Packages.{u64_mod}
use aurora_engine.Parameters.{FunctionCallArgs, ViewCallArgs}
use aurora_engine.Evm.{ExitReason, fatal, Precompiles}
use aurora_engine.Platform.{Platform}
use aurora_engine.Precompiles.{istanbul_precompiles}
use aurora_engine.Engine.{Engine, backend}
use aurora_engine.Engine.ApplyBackend.{apply}

-- `u64::max_value()`
abbrev pub max_gas : ℕ
max_gas = u64_mod - 1

module _ (p : Platform) where
  open p use {World}

  -- `make_executor` gives the executor the engine as backend and these precompiles.
  abbrev pub precompiles : Precompiles
  precompiles = istanbul_precompiles p.primitives p.crypto

  -- `ExitReason::Fatal(ExitFatal::NotSupported)`; balance transfers are not implemented.
  abbrev pub transfer : Engine → Bytes → Bytes → ℕ → World → ExitReason × World
  transfer engine sender receiver value w = (fatal, w)

  unfoldable pub deploy_code :
      Engine → Bytes → ℕ → Bytes → World → Outcome (ExitReason × Bytes × World)
  deploy_code engine origin value input w = do
    address ← p.executor.create_address (backend p engine w) origin
    e ← p.executor.transact_create precompiles (backend p engine w) origin value input max_gas
    w' ← apply p e.values e.logs true w
    ok (e.status, address, w')

  abbrev pub deploy_code_with_input : Engine → Bytes → World → Outcome (ExitReason × Bytes × World)
  deploy_code_with_input engine input w = deploy_code engine engine.origin 0 input w

  unfoldable pub call :
      Engine → Bytes → Bytes → ℕ → Bytes → World → Outcome (ExitReason × Bytes × World)
  call engine origin contract value input w = do
    e ←
        p.executor.transact_call precompiles (backend p engine w) origin contract value input
          max_gas
    w' ← apply p e.values e.logs true w
    ok (e.status, e.result, w')

  abbrev pub call_with_args :
      Engine → FunctionCallArgs → World → Outcome (ExitReason × Bytes × World)
  call_with_args engine args w = call engine engine.origin args.contract 0 args.input w

  -- The executor's changes are dropped.
  unfoldable pub view : Engine → Bytes → Bytes → ℕ → Bytes → World → Outcome (ExitReason × Bytes)
  view engine origin contract value input w = do
    e ←
        p.executor.transact_call precompiles (backend p engine w) origin contract value input
          max_gas
    ok (e.status, e.result)

  abbrev pub view_with_args : Engine → ViewCallArgs → World → Outcome (ExitReason × Bytes)
  view_with_args engine args w = do
    origin ← p.h160_from_slice args.sender
    contract ← p.h160_from_slice args.address
    value ← p.from_big_endian args.amount
    view engine origin contract value args.input w

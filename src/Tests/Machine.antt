-- ===== src/Tests/Machine.antt =====
-- Lifetimes of the contract at concrete inputs.
use aurora_engine.Prelude.{◌≡◌, refl, arith, none, [], ok, codes, bytes_eq, le_bytes, le_value}
use aurora_engine.Storage.{code_key}
use aurora_engine.Parameters.{NewCallArgs, from_new_call_args}
use aurora_engine.Engine.{set_state, get_state}
use aurora_engine.Contract.{require_owner_only}
use aurora_engine.Contract.Admin.{new, stage_upgrade, deploy_upgrade}
use aurora_engine.Contract.Liveness.{staged_world}
use aurora_engine.Contract.Machine.{Machine, task, to_new, to_stage_upgrade, to_call, serve}
use aurora_engine.Contract.Machine.Models.{Models, blank_machine, empty-Models}
use aurora_engine.Contract.Machine.Globals.{Simulates}
use aurora_engine.Contract.Machine.Manages.{run_task}
use aurora_engine.Contract.Machine.Executes.{answers}
use aurora_engine.Contract.Machine.Serves.{run, run-serve}
use aurora_engine.Contract.Machine.Lifetimes.{
  Lifetime, just_begun, called_then, Reaches, Lifetime-Reaches,
}
use aurora_engine.Contract.Machine.Provenance.{IsLate, deploy_upgrade-IsLate}
use aurora_engine.Demo.{World, platform, word_of, address_of}
use aurora_engine.Tests.Admin.{called}

-- Storage is empty, and alice configures the contract.
abbrev settings : NewCallArgs
settings = record {
  chain_id = word_of 2;
  owner_id = codes "alice";
  bridge_prover_id = [];
  upgrade_delay_blocks = 3;
}

abbrev deployed_contract : World
deployed_contract = record (called "alice" 100 (platform.new_call_args.to_vec settings)) {
  store = λ k. none;
}

abbrev configured : World
configured = set_state platform (from_new_call_args settings) deployed_contract

new-configured : run platform (task to_new) deployed_contract ≡ ok configured
unfolding run run_task new get_state
new-configured = refl

-- She stages code.
abbrev staging : World
staging = record configured { context = (called "alice" 101 (codes "wasm")).context }

stage_upgrade-staged :
    run platform (task to_stage_upgrade) staging ≡ ok (staged_world platform staging)
unfolding run run_task stage_upgrade get_state set_state bytes_eq require_owner_only
stage_upgrade-staged = refl

abbrev life : Lifetime platform deployed_contract (staged_world platform staging)
life =
    called_then (task to_stage_upgrade)
      (called_then (task to_new) just_begun (λ s. refl) (omega arith) new-configured) (λ s. refl)
      (omega arith) stage_upgrade-staged

-- Mallory deploys it.
abbrev deploying : World
deploying = record (staged_world platform staging) { context = (called "mallory" 105 []).context }

abbrev deployed : World
deployed =
    platform.deploy_contract (platform.storage_remove deploying code_key) (codes "aurora")
      (codes "wasm")

deploy_upgrade-deployed : deploy_upgrade platform deploying ≡ ok deployed
unfolding deploy_upgrade get_state set_state bytes_eq le_bytes le_value
deploy_upgrade-deployed = refl

deploy_upgrade-IsLate_example : IsLate platform life deploying deployed
deploy_upgrade-IsLate_example =
    deploy_upgrade-IsLate platform life (λ s. refl) (λ s. refl) (omega arith)
      deploy_upgrade-deployed

Lifetime-Reaches_example :
    (m : Machine) × Reaches platform (blank_machine platform) m
    × Models platform (staged_world platform staging) m
Lifetime-Reaches_example =
    Lifetime-Reaches platform (empty-Models platform deployed_contract (λ s. refl)) life

-- A call that anyone makes on empty storage.
abbrev calling : World
calling =
    record (called "bob" 100 (
      platform.function_call_args.to_vec (record { contract = address_of 1; input = codes "x" }))) {
        store = λ k. none;
      }

run-serve_example : Simulates platform calling (run platform to_call calling) (
    serve platform
      (platform.context calling)
      (answers platform calling)
      to_call
      (blank_machine platform))
run-serve_example =
    run-serve platform to_call calling (blank_machine platform)
      (empty-Models platform calling (λ s. refl)) (omega arith)

-- ===== src/Tests/Registers.antt =====
-- The functions of src/sdk.rs on the demonstration registers.
use aurora_engine.Prelude.{some, none, [], arith, Bytes, codes, ◌==◌, if◌then◌else◌}
use mathlib.Core.Path.{subst}
use aurora_engine.Sdk.Held.{ShortIfAny}
use aurora_engine.Sdk.{deploy_removed}
use aurora_engine.Sdk.Wasm.{self_deploy}
use aurora_engine.Sdk.Programs.{
  Program, done, call, read_input, write_storage, return_output, keccak, run_described, FitsAll,
}
use aurora_engine.Sdk.Refines.{Simulates, run_written, run_written-run_described}
use aurora_engine.Sdk.Deploys.{SameWorld, stored_or_held, self_deploy-deploy_removed}
use aurora_engine.Demo.{World, CallState, platform, runtime}

abbrev bare : CallState
bare = record {
  world = record {
    context = record {
      input = codes "key";
      predecessor_account_id = codes "alice";
      current_account_id = codes "aurora";
      block_index = 100;
      block_timestamp = 7;
    };
    store = λ k. none;
    output = none;
    logs = [];
    deployed = [];
  };
  held = λ r. none;
  batches = λ i. none;
  count = 0;
}

-- The input is hashed, and stored under its hash.
abbrev store_hash : Program Bytes
store_hash = call read_input (λ input.
    call (keccak input)
      (λ hash. call (write_storage hash input) (λ _. call (return_output hash) (λ _. done hash))))

store_hash-FitsAll : FitsAll platform store_hash bare.world
store_hash-FitsAll = (
  omega arith,
  λ input w e. (
    tt,
    λ hash w' e'. (
      subst {A = World} (λ w. ShortIfAny (w.store hash)) {x = bare.world} {y = w'} (cc (e, e')) tt,
      λ _ w'' _. (tt, λ _ w''' _. tt),
    ),
  ),
)

run_written-run_described_example :
    Simulates platform runtime
      (run_written platform runtime store_hash bare)
      (run_described platform store_hash bare.world)
run_written-run_described_example =
    run_written-run_described platform runtime store_hash bare store_hash-FitsAll

-- Nothing is stored, and a function has left the caller's name in register 1.
abbrev stale : CallState
stale = record bare { held = λ r. if r == 1 then some (codes "alice") else none }

self_deploy-deploy_removed_example :
    SameWorld platform runtime (self_deploy runtime (codes "CODE") stale) (
      deploy_removed platform
        (stored_or_held none (some (codes "alice")))
        (codes "CODE")
        stale.world)
self_deploy-deploy_removed_example =
    self_deploy-deploy_removed platform runtime (codes "CODE") stale (omega arith) tt

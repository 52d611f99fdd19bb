-- ===== src/Tests/Admin.antt =====
-- Administration and upgrades at concrete inputs.
use aurora_engine.Prelude.{
  ℕ, ◌≡◌, refl, some, none, List, [], ◌∷◌, Outcome, ok, panic, Bytes, codes, bytes_eq,
  if◌then◌else◌, le_bytes, le_value, String,
}
use aurora_engine.Storage.{state_key, code_key, code_stage_key}
use aurora_engine.Parameters.{EngineState, NewCallArgs, from_new_call_args}
use aurora_engine.Engine.{get_state, set_state}
use aurora_engine.Contract.{require_owner_only, not_allowed}
use aurora_engine.Contract.Admin.{new, stage_upgrade, deploy_upgrade}
use aurora_engine.Demo.{World, platform, word_of}

abbrev pub owned : EngineState
owned = record {
  chain_id = word_of 1;
  owner_id = codes "alice";
  bridge_prover_id = codes "prover";
  upgrade_delay_blocks = 5;
}

abbrev settings : NewCallArgs
settings = record {
  chain_id = word_of 2;
  owner_id = codes "bob";
  bridge_prover_id = [];
  upgrade_delay_blocks = 3;
}

-- A call by an account in a block, on storage that holds the state above.
abbrev pub called : String → ℕ → Bytes → World
called who block input = record {
  context = record {
    input = input;
    predecessor_account_id = codes who;
    current_account_id = codes "aurora";
    block_index = block;
    block_timestamp = 7;
  };
  store = λ k. if bytes_eq state_key k then some (platform.states.to_vec owned) else none;
  output = none;
  logs = [];
  deployed = [];
}

abbrev by_mallory : World
by_mallory = called "mallory" 100 (codes "code")

-- Mallory is not the owner.
refused : stage_upgrade platform by_mallory ≡ panic not_allowed
unfolding stage_upgrade get_state require_owner_only bytes_eq
refused = refl

abbrev configured : World
configured = called "alice" 100 (platform.new_call_args.to_vec settings)

new-configured :
    new platform configured ≡ ok (set_state platform (from_new_call_args settings) configured)
unfolding new get_state require_owner_only bytes_eq
new-configured = refl

abbrev pub staging : World
staging = called "alice" 100 (codes "wasm")

abbrev stored : World
stored = record staging {
  store = λ k.
      if bytes_eq code_stage_key k
      then some (le_bytes 8 100)
      else if bytes_eq code_key k
      then some (codes "wasm")
      else staging.store k;
}

staged : stage_upgrade platform staging ≡ ok stored
unfolding stage_upgrade get_state require_owner_only bytes_eq
staged = refl

-- Any account may deploy, six blocks later.
abbrev deploying : World
deploying = record stored { context = (called "mallory" 106 []).context }

found : get_state platform deploying ≡ ok owned
unfolding get_state bytes_eq
found = refl

abbrev deployed_code : Outcome World → List (Bytes × Bytes)
deployed_code (ok w) = w.deployed
deployed_code _ = []

deploys : deployed_code (deploy_upgrade platform deploying) ≡ (codes "aurora", codes "wasm") ∷ []
unfolding deploy_upgrade get_state bytes_eq le_bytes le_value
deploys = refl

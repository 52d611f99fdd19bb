-- ===== src/Demo/Registers.antt =====
-- A runtime with registers as a function, over the demonstration world.
use aurora_engine.Prelude.{
  ℕ, ◌+◌, refl, Option, some, ok, expect, ◌>>=◌, Bytes, replicate, ◌==◌, if◌then◌else◌,
}
use aurora_engine.Sdk.Runtime.{Registers, Runtime, hold, hold_found, source_bytes, is_there, len_of}
use aurora_engine.Sdk.Held.{eq_refl}
use aurora_engine.Demo.Words.{crypto}
use aurora_engine.Demo.Runtime.{World, host}

pub record CallState : Type 0 where
  pub world : World
  pub held : ℕ → Option Bytes
  pub batches : ℕ → Option Bytes
  pub count : ℕ

abbrev pub registers : Registers host
registers = record {
  State = CallState;
  world = λ s. s.world;
  set_world = λ w s. record s { world = w };
  content = λ s r. s.held r;
  put = λ r v s. record s { held = λ j. if r == j then some v else s.held j };
  content-put = λ r v s j. refl;
  content-set_world = λ w s j. refl;
  world-put = λ r v s. refl;
  world-set_world = λ w s. refl;
}

abbrev add_batch : Bytes → CallState → ℕ × CallState
add_batch a s = (
  s.count,
  record s { batches = λ j. if s.count == j then some a else s.batches j; count = s.count + 1 },
)

abbrev pub runtime : Runtime host crypto
runtime = record {
  registers = registers;
  register_len = λ r s. len_of (s.held r);
  register_len_lem = λ r s. refl;
  read_register = λ r s. expect (s.held r);
  read_register_lem = λ r s. refl;
  input = λ r s. hold registers r s.world.context.input s;
  input_lem = λ r s. refl;
  current_account_id = λ r s. hold registers r s.world.context.current_account_id s;
  current_account_id_lem = λ r s. refl;
  predecessor_account_id = λ r s. hold registers r s.world.context.predecessor_account_id s;
  predecessor_account_id_lem = λ r s. refl;
  block_index = λ s. s.world.context.block_index;
  block_index_lem = λ s. refl;
  block_timestamp = λ s. s.world.context.block_timestamp;
  block_timestamp_lem = λ s. refl;
  storage_usage = λ s. 0;
  attached_deposit = λ s. replicate 16 0;
  length-attached_deposit = λ s. refl;
  prepaid_gas = λ s. 300;
  sha256 = λ v r s. hold registers r (crypto.sha256 v) s;
  sha256_lem = λ v r s. refl;
  keccak256 = λ v r s. hold registers r (crypto.keccak v) s;
  keccak256_lem = λ v r s. refl;
  value_return = λ v s. registers.set_world (host.value_return s.world v) s;
  value_return_lem = λ v s. refl;
  log_utf8 = λ v s. registers.set_world (host.log_utf8 s.world v) s;
  log_utf8_lem = λ v s. refl;
  storage_write = λ key value r s. source_bytes registers value s >>= λ v.
      hold_found registers r (s.world.store key)
        (registers.set_world (host.storage_write s.world key v) s);
  storage_write_lem = λ key value r s. refl;
  storage_read = λ key r s. hold_found registers r (s.world.store key) s;
  storage_read_lem = λ key r s. refl;
  storage_remove = λ key r s.
      hold_found registers r (s.world.store key)
        (registers.set_world (host.storage_remove s.world key) s);
  storage_remove_lem = λ key r s. refl;
  storage_has_key = λ key s. is_there registers (s.world.store key);
  storage_has_key_lem = λ key s. refl;
  promise_create = λ account method arguments amount gas s. (0, s);
  promise_then = λ i account method arguments amount gas s. (0, s);
  promise_return = λ i s. s;
  promise_results_count = λ s. 0;
  promise_batch_action_transfer = λ i amount s. s;
  batch_account = λ s i. s.batches i;
  new_batch = add_batch;
  batch-new_batch = λ a s. rw (eq_refl s.count) refl;
  world-new_batch = λ a s. refl;
  content-new_batch = λ a s r. refl;
  batch-put = λ r v s i. refl;
  batch-set_world = λ w s i. refl;
  promise_batch_create = λ account s. source_bytes registers account s >>= λ a. ok (add_batch a s);
  promise_batch_create_lem = λ account s. refl;
  promise_batch_action_deploy_contract = λ i code s. source_bytes registers code s >>= λ b.
      expect (s.batches i) >>= λ a. ok (registers.set_world (host.deploy_contract s.world a b) s);
  promise_batch_action_deploy_contract_lem = λ i code s. refl;
}

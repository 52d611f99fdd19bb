-- ===== src/Contract/Written/Codes.antt =====
-- The functions of src/lib.rs that do not run the EVM, call by call of src/sdk.rs. `deploy_upgrade`
-- is in the parent, since what it deploys depends on a register.
use aurora_engine.Prelude.{
  ℕ, [], ◌∷◌, Option, Outcome, expect, Bytes, bytes_eq, le_bytes, if◌then◌else◌,
}
use aurora_engine.Storage.{
  KeyPrefix, nonce, balance, code, address_to_key, storage_to_key, state_key, code_key,
  code_stage_key,
}
use aurora_engine.Parameters.{EngineState, from_new_call_args}
use aurora_engine.Types.{u256_to_arr}
use aurora_engine.Platform.{Platform}
use aurora_engine.Sdk.Programs.{
  Program, done, call, panics, attempt, and_then, read_input, read_input_arr20,
  read_input_and_store, return_output, read_storage, read_u64, write_storage, block_index,
  predecessor_account_id,
}
use aurora_engine.Engine.{value_or, or_empty, zero_word, default_state}
use aurora_engine.Contract.{add_u64, not_allowed}

abbrev pub Code : Type 0
Code = Program (Unit {0})

-- A step without the runtime.
abbrev pub step : {A : Type 0} → Outcome A → Program A
step o = attempt o done

abbrev pub read_all_input : Program Bytes
read_all_input = call read_input done

abbrev pub returning_code : Bytes → Code
returning_code result = call (return_output result) done

module _ (p : Platform) where
  abbrev pub decoded_state : Option Bytes → Outcome EngineState
  decoded_state stored = value_or (λ bytes. expect (p.states.from_slice bytes)) default_state stored

  -- `Engine::get_state()` and `Engine::set_state(state)`
  abbrev pub read_state : Program EngineState
  read_state = and_then (call (read_storage state_key) done) (λ stored. step (decoded_state stored))

  abbrev pub set_state_code : EngineState → Code
  set_state_code state = call (write_storage state_key (p.states.to_vec state)) done

  -- `Engine::get_nonce` and `Engine::get_balance`, `Engine::get_code`, and `Engine::get_storage`
  abbrev pub read_number : KeyPrefix → Bytes → Program ℕ
  read_number prefix address =
      and_then (call (read_storage (address_to_key prefix address)) done)
        (λ stored. step (value_or p.from_big_endian 0 stored))

  abbrev pub read_code : Bytes → Program Bytes
  read_code address =
      and_then (call (read_storage (address_to_key code address)) done)
        (λ stored. done (or_empty p stored))

  abbrev pub read_cell : Bytes → Bytes → Program Bytes
  read_cell address index =
      and_then (call (read_storage (storage_to_key address index)) done)
        (λ stored. step (value_or p.h256_from_slice zero_word stored))

  -- `require_owner_only(state)`
  abbrev pub require_owner_then : EngineState → Code → Code
  require_owner_then state next =
      and_then (call predecessor_account_id done)
        (λ caller. if bytes_eq state.owner_id caller then next else panics not_allowed)

  abbrev pub require_owner_if_any_then : Bytes → EngineState → Code → Code
  require_owner_if_any_then [] state next = next
  require_owner_if_any_then (c ∷ cs) state next = require_owner_then state next

  unfoldable pub new_code : Code
  new_code = and_then read_state (λ state. require_owner_if_any_then state.owner_id state (
      and_then read_all_input (λ input.
        and_then (step (expect (p.new_call_args.from_slice input)))
          (λ args. set_state_code (from_new_call_args args)))))

  unfoldable pub get_owner_code : Code
  get_owner_code = and_then read_state (λ state. returning_code state.owner_id)

  unfoldable pub get_bridge_provider_code : Code
  get_bridge_provider_code = and_then read_state (λ state. returning_code state.bridge_prover_id)

  unfoldable pub get_chain_id_code : Code
  get_chain_id_code = and_then read_state (λ state. returning_code state.chain_id)

  unfoldable pub get_upgrade_index_code : Code
  get_upgrade_index_code = and_then read_state (λ state.
      and_then (call (read_u64 code_stage_key) done) (λ staged.
        and_then (step (expect staged)) (λ index.
          and_then (step (add_u64 index state.upgrade_delay_blocks))
            (λ sum. returning_code (le_bytes 8 sum)))))

  -- `sdk::read_input_and_store(CODE_KEY)` and the writing of the block's number
  abbrev pub stage_code : Code
  stage_code =
      call (read_input_and_store code_key) (λ _.
        call block_index (λ index. call (write_storage code_stage_key (le_bytes 8 index)) done))

  unfoldable pub stage_upgrade_code : Code
  stage_upgrade_code = and_then read_state (λ state. require_owner_then state stage_code)

  unfoldable pub begin_chain_code : Code
  begin_chain_code = and_then read_state (λ state. require_owner_then state (
      and_then read_all_input (λ input.
        and_then (step (expect (p.begin_chain_args.from_slice input)))
          (λ args. set_state_code (record state { chain_id = args.chain_id })))))

  unfoldable pub begin_block_code : Code
  begin_block_code = and_then read_state (λ state. require_owner_then state (
      and_then read_all_input (λ input.
        and_then (step (expect (p.begin_block_args.from_slice input))) (λ args. done tt))))

  unfoldable pub get_code_code : Code
  get_code_code =
      and_then (call read_input_arr20 done) (λ address. and_then (read_code address) returning_code)

  abbrev pub returning_number : ℕ → Code
  returning_number n = returning_code (u256_to_arr p.primitives n)

  unfoldable pub get_balance_code : Code
  get_balance_code =
      and_then (call read_input_arr20 done)
        (λ address. and_then (read_number balance address) returning_number)

  unfoldable pub get_nonce_code : Code
  get_nonce_code =
      and_then (call read_input_arr20 done)
        (λ address. and_then (read_number nonce address) returning_number)

  unfoldable pub get_storage_at_code : Code
  get_storage_at_code = and_then read_all_input (λ input.
      and_then (step (expect (p.get_storage_at_args.from_slice input)))
        (λ args. and_then (read_cell args.address args.key) returning_code))

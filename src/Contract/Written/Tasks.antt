-- ===== src/Contract/Written/Tasks.antt =====
-- Call by call, the functions of src/lib.rs that do not run the EVM change the world as
-- Contract.Admin and Contract.Views say.
use mathlib.Core.Path.{subst}
use aurora_engine.Prelude.{
  ◌≡◌, refl, ◌∙◌, ap, Bool, true, false, [], ◌∷◌, Outcome, ok, panic, ◌>>◌, ◌>>=◌, ok_inj, expect,
  Bytes, bytes_eq, if◌then◌else◌,
}
use aurora_engine.Storage.{code_key, code_stage_key}
use aurora_engine.Parameters.{EngineState, from_new_call_args}
use aurora_engine.Types.{u256_to_arr}
use aurora_engine.Platform.{Platform}
use aurora_engine.Sdk
use aurora_engine.Sdk.Held.{ShortIfAny}
use aurora_engine.Sdk.Programs
use aurora_engine.Sdk.Programs.{
  done, call, panics, predecessor_account_id, read_u64, read_input_arr20, write_storage,
}
use aurora_engine.Engine.{get_state, set_state}
use aurora_engine.Engine
use aurora_engine.Contract.{add_u64, not_allowed, require_owner_only}
use aurora_engine.Contract.Admin.{
  require_owner_if_any, new, get_owner, get_bridge_provider, get_chain_id, get_upgrade_index,
  stage_upgrade, begin_chain, begin_block,
}
use aurora_engine.Contract.Views.{get_code, get_balance, get_nonce, get_storage_at}
use aurora_engine.Contract.Written.Codes.{
  Code, read_all_input, returning_code, read_state, set_state_code, require_owner_then,
  require_owner_if_any_then, stage_code, new_code, get_owner_code, get_bridge_provider_code,
  get_chain_id_code, get_upgrade_index_code, stage_upgrade_code, begin_chain_code, begin_block_code,
  get_code_code, get_balance_code, get_nonce_code, get_storage_at_code,
}
use aurora_engine.Contract.Written.Fitting.{IsShort, written_short}
use aurora_engine.Contract.Written.Does.{
  Ends, read-Ends, known-Ends, step-Ends, asks-Reads, call-Reads,
}
use aurora_engine.Contract.Written.Reads.{
  read_all_input-Reads, read_state-Reads, read_nonce-Reads, read_balance-Reads, read_code-Reads,
  read_cell-Reads,
}

module _ (p : Platform) (w : p.World) where
  open p use {World, context, storage_read}

  pub returning_code-Ends :
      (result : Bytes) → Ends p (returning_code result) w (ok (Sdk.return_output p result w))
  returning_code-Ends result = record { runs = refl; fits = λ short. (tt, λ _ _ _. tt) }

  set_state_code-Ends :
      (state : EngineState) → Ends p (set_state_code p state) w (ok (set_state p state w))
  unfolding set_state
  set_state_code-Ends state = record { runs = refl; fits = λ short. (short.stored _, λ _ _ _. tt) }

  require_owner_then-Ends :
      (state : EngineState) (next : Code) (end : Outcome World)
      → Ends p next w end
      → Ends p (require_owner_then p state next) w (require_owner_only p state w >> end)
  unfolding require_owner_only
  require_owner_then-Ends state next end h =
      known-Ends p w (call predecessor_account_id done) _ (Sdk.predecessor_account_id p w) _
        (call-Reads p predecessor_account_id w _ refl (λ short. short.predecessor))
        (guarded (bytes_eq state.owner_id (Sdk.predecessor_account_id p w)))
    where
      guarded :
          (same : Bool)
          → Ends p (if same then next else panics not_allowed) w (
              let guard : Outcome (Unit {0}) = if same then ok tt else panic not_allowed in
              guard >> end)
      guarded true = h
      guarded false = record { runs = refl; fits = λ short. tt }

  require_owner_if_any_then-Ends :
      (owner : Bytes) (state : EngineState) (next : Code) (end : Outcome World)
      → Ends p next w end
      → Ends p
          (require_owner_if_any_then p owner state next)
          w
          (require_owner_if_any p owner state w >> end)
  require_owner_if_any_then-Ends [] state next end h = h
  require_owner_if_any_then-Ends (c ∷ cs) state next end h =
      require_owner_then-Ends state next end h

  -- Code that starts with the engine's state, the input, or an address in the input.
  state_then :
      (next : EngineState → Code) (end : EngineState → Outcome World)
      → ((state : EngineState) → Ends p (next state) w (end state))
      → Ends p (Programs.and_then (read_state p) next) w (get_state p w >>= end)
  state_then next end h =
      read-Ends p w (read_state p) next (get_state p w) end (read_state-Reads p w)
        (λ state e. h state)

  input_then :
      (next : Bytes → Code) (end : Outcome World)
      → Ends p (next (Sdk.read_input p w)) w end
      → Ends p (Programs.and_then read_all_input next) w end
  input_then next end h =
      known-Ends p w read_all_input next (Sdk.read_input p w) end (read_all_input-Reads p w) h

  address_then :
      (next : Bytes → Code) (end : Bytes → Outcome World)
      → ((a : Bytes) → Ends p (next a) w (end a))
      → Ends p
          (Programs.and_then (call read_input_arr20 done) next)
          w
          (Sdk.read_input_arr20 p w >>= end)
  address_then next end h =
      read-Ends p w _ next (Sdk.read_input_arr20 p w) end
        (asks-Reads p read_input_arr20 w (Sdk.read_input_arr20 p w) refl (λ short. short.input))
        (λ a e. h a)

  pub new_code-Ends : Ends p (new_code p) w (new p w)
  unfolding new_code new
  new_code-Ends = state_then _ _ (λ state. require_owner_if_any_then-Ends state.owner_id state _ _ (
      input_then _ _ (
        step-Ends p w (expect (p.new_call_args.from_slice (Sdk.read_input p w))) _ _
          (λ args. set_state_code-Ends (from_new_call_args args)))))

  pub get_owner_code-Ends : Ends p (get_owner_code p) w (get_owner p w)
  unfolding get_owner_code get_owner
  get_owner_code-Ends = state_then _ _ (λ state. returning_code-Ends state.owner_id)

  pub get_bridge_provider_code-Ends :
      Ends p (get_bridge_provider_code p) w (get_bridge_provider p w)
  unfolding get_bridge_provider_code get_bridge_provider
  get_bridge_provider_code-Ends =
      state_then _ _ (λ state. returning_code-Ends state.bridge_prover_id)

  pub get_chain_id_code-Ends : Ends p (get_chain_id_code p) w (get_chain_id p w)
  unfolding get_chain_id_code get_chain_id
  get_chain_id_code-Ends = state_then _ _ (λ state. returning_code-Ends state.chain_id)

  pub get_upgrade_index_code-Ends : Ends p (get_upgrade_index_code p) w (get_upgrade_index p w)
  unfolding get_upgrade_index_code get_upgrade_index
  get_upgrade_index_code-Ends = state_then _ _ (λ state.
      read-Ends p w _ _ (Sdk.read_u64 p code_stage_key w) _
        (asks-Reads p (read_u64 code_stage_key) w (Sdk.read_u64 p code_stage_key w) refl
          (λ short. short.stored code_stage_key))
        (λ staged e. step-Ends p w (expect staged) _ _ (λ index.
          step-Ends p w (add_u64 index state.upgrade_delay_blocks) _ _
            (λ sum. returning_code-Ends _))))

  -- After the input is stored, the block's number is.
  number_stored :
      (w' : World)
      → IsShort p w
      → Sdk.read_input_and_store p code_key w ≡ w'
      → ShortIfAny (storage_read w' code_stage_key)
  number_stored w' short e =
      subst (λ v. ShortIfAny (storage_read v code_stage_key)) e
        (rw (p.read-write w code_key (context w).input code_stage_key) (
          written_short p (bytes_eq code_key code_stage_key) (context w).input
            (storage_read w code_stage_key) short.input (short.stored code_stage_key)))

  pub stage_upgrade_code-Ends : Ends p (stage_upgrade_code p) w (stage_upgrade p w)
  unfolding stage_upgrade_code stage_upgrade
  stage_upgrade_code-Ends = state_then _ _ (λ state.
      require_owner_then-Ends state (stage_code p) (ok _) (record {
        runs = refl;
        fits = λ short. (
          (short.input, short.stored code_key),
          λ _ w' e. (
            tt,
            λ index w'' d. (
              number_stored w'' short (ap (λ t. t.1) (ok_inj e) ∙ ap (λ t. t.1) (ok_inj d)),
              λ _ _ _. tt,
            ),
          ),
        );
      }))

  pub begin_chain_code-Ends : Ends p (begin_chain_code p) w (begin_chain p w)
  unfolding begin_chain_code begin_chain
  begin_chain_code-Ends = state_then _ _ (λ state. require_owner_then-Ends state _ _ (
      input_then _ _ (
        step-Ends p w (expect (p.begin_chain_args.from_slice (Sdk.read_input p w))) _ _
          (λ args. set_state_code-Ends (record state { chain_id = args.chain_id })))))

  pub begin_block_code-Ends : Ends p (begin_block_code p) w (begin_block p w)
  unfolding begin_block_code begin_block
  begin_block_code-Ends = state_then _ _ (λ state. require_owner_then-Ends state _ _ (
      input_then _ _ (
        step-Ends p w (expect (p.begin_block_args.from_slice (Sdk.read_input p w))) _ _
          (λ args. record { runs = refl; fits = λ short. tt }))))

  pub get_code_code-Ends : Ends p (get_code_code p) w (get_code p w)
  unfolding get_code_code get_code
  get_code_code-Ends = address_then _ _ (λ a.
      known-Ends p w _ returning_code (Engine.get_code p a w)
        (ok (Sdk.return_output p (Engine.get_code p a w) w)) (read_code-Reads p w a)
        (returning_code-Ends (Engine.get_code p a w)))

  pub get_balance_code-Ends : Ends p (get_balance_code p) w (get_balance p w)
  unfolding get_balance_code get_balance
  get_balance_code-Ends = address_then _ _ (λ a.
      read-Ends p w _ _ (Engine.get_balance p a w) _ (read_balance-Reads p w a)
        (λ n e. returning_code-Ends (u256_to_arr p.primitives n)))

  pub get_nonce_code-Ends : Ends p (get_nonce_code p) w (get_nonce p w)
  unfolding get_nonce_code get_nonce
  get_nonce_code-Ends = address_then _ _ (λ a.
      read-Ends p w _ _ (Engine.get_nonce p a w) _ (read_nonce-Reads p w a)
        (λ n e. returning_code-Ends (u256_to_arr p.primitives n)))

  pub get_storage_at_code-Ends : Ends p (get_storage_at_code p) w (get_storage_at p w)
  unfolding get_storage_at_code get_storage_at
  get_storage_at_code-Ends = input_then _ _ (
      step-Ends p w (expect (p.get_storage_at_args.from_slice (Sdk.read_input p w))) _ _ (λ args.
        read-Ends p w _ _ (Engine.get_storage p args.address args.key w) _
          (read_cell-Reads p w args.address args.key) (λ value e. returning_code-Ends value)))

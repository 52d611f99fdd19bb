-- ===== src/Contract/Written/Calls/Ends.antt =====
-- Call by call, the functions of src/lib.rs that run the EVM end as Contract.Views, Contract.Raw and
-- Contract.Meta say.
use mathlib.Core.Path.{subst}
use aurora_engine.Prelude.{
  ℕ, ◌≡◌, refl, sym, ◌∙◌, true, [], ◌∷◌, Option, none, some, Outcome, ok, err, panic, ◌>>=◌,
  >>=_assoc, Bytes, arith,
}
use aurora_engine.Storage.{code, address_to_key}
use aurora_engine.Evm.{fatal, Execution}
use aurora_engine.Platform.{Platform}
use aurora_engine.Sdk.Held.{Short, ShortIfAny}
use aurora_engine.Sdk.Programs.{and_then}
use aurora_engine.Engine.{Engine, backend, or_empty, get_code}
use aurora_engine.Engine.ApplyBackend.{apply}
use aurora_engine.Engine.Calls.{precompiles, max_gas}
use aurora_engine.Engine.Calls
use aurora_engine.Contract.{process_exit_reason}
use aurora_engine.Contract.Raw.{execute}
use aurora_engine.Contract.Written.Codes.{Code}
use aurora_engine.Contract.Written.Fitting.{IsShort}
use aurora_engine.Contract.Written.Apply.{apply_written}
use aurora_engine.Contract.Written.Does.{Ends, read-Ends}
use aurora_engine.Contract.Written.Asking.{Interpreter, evaluate}
use aurora_engine.Contract.Written.Asked.{asked, asked-Reads}
use aurora_engine.Contract.Written.Calls.{
  exit_code, call_written, deploy_code_written, view_written, execute_written,
}
use aurora_engine.Contract.Written.Calls.Exits.{exit_code-Ends, applied-Ends}

module _ (p : Platform) where
  open p use {World}

  code-Short :
      (engine : Engine) (w : World)
      → IsShort p w
      → (a : Bytes) → Short ((backend p engine w).code a)
  unfolding backend get_code
  code-Short engine w short a =
      empty_short (p.storage_read w (address_to_key code a)) (short.stored (address_to_key code a))
    where
      empty_short : (o : Option Bytes) → ShortIfAny o → Short (or_empty p o)
      empty_short none h = omega arith
      empty_short (some v) h = h

  -- Three steps, the last two together.
  in_turn :
      (o : Outcome Execution) (next : Execution → Outcome World) (result : Execution → Bytes)
      → (o >>= λ e. next e >>= process_exit_reason p e.status (result e)) ≡ (
          o >>= (λ e. next e >>= λ v. ok (e.status, result e, v)) >>= λ (status, r, v).
          process_exit_reason p status r v)
  in_turn (ok e) next result = sym (>>=_assoc (next e) _ _)
  in_turn (err e) next result = refl
  in_turn (panic e) next result = refl

  module _ (evm : Interpreter p.executor) (engine : Engine) (w : World) where
    pub call_written-Ends :
        (origin contract : Bytes) (value : ℕ) (input : Bytes)
        → Ends p (call_written p evm engine origin contract value input) w (
            Calls.call p engine origin contract value input w >>= λ (status, result, v).
            process_exit_reason p status result v)
    unfolding call_written Calls.call
    call_written-Ends origin contract value input =
        let same =
          evm.transact_call-evaluate (precompiles p) (backend p engine w) origin contract value
            input max_gas in
        subst (Ends p (call_written p evm engine origin contract value input) w)
          (in_turn _ (λ e. apply p e.values e.logs true w) (λ e. e.result))
          (rw same (
            read-Ends p w _ _
              (evaluate (backend p engine w)
                (evm.transact_call (precompiles p) origin contract value input max_gas))
              _ (asked-Reads p w engine _)
              (λ e found.
                applied-Ends p e.values e.logs e.status e.result w
                  (p.executor.transact_call-IsExecution _ _ _ _ _ _ _ (same ∙ found)).values_valid
                  (λ short.
                    evm.call-HasShortCode _ _ _ _ _ _ _ (code-Short engine w short)
                      (same ∙ found)))))

    pub view_written-Ends :
        (origin contract : Bytes) (value : ℕ) (input : Bytes)
        → Ends p (view_written p evm engine origin contract value input) w (
            Calls.view p engine origin contract value input w >>= λ (status, result).
            process_exit_reason p status result w)
    unfolding view_written Calls.view
    view_written-Ends origin contract value input =
        rw
          (
            evm.transact_call-evaluate (precompiles p) (backend p engine w) origin contract value
                input max_gas,
            >>=_assoc (
                evaluate (backend p engine w)
                  (evm.transact_call (precompiles p) origin contract value input max_gas)),
          )
          (read-Ends p w _ _
            (evaluate (backend p engine w)
              (evm.transact_call (precompiles p) origin contract value input max_gas))
            _ (asked-Reads p w engine _) (λ e found. exit_code-Ends p w e.status e.result))

    abbrev created_code : Bytes → ℕ → Bytes → Bytes → Code
    created_code origin value input address =
        and_then (asked p engine (evm.transact_create (precompiles p) origin value input max_gas))
          (λ e. and_then (apply_written p e.values e.logs true) (λ _. exit_code e.status address))

    created-Ends :
        (origin : Bytes) (value : ℕ) (input address : Bytes)
        → Ends p (created_code origin value input address) w (
            p.executor.transact_create
              (precompiles p)
              (backend p engine w)
              origin
              value
              input
              max_gas
            >>= (λ e. apply p e.values e.logs true w >>= λ v. ok (e.status, address, v))
            >>= λ (status, result, v). process_exit_reason p status result v)
    created-Ends origin value input address =
        let same =
          evm.transact_create-evaluate (precompiles p) (backend p engine w) origin value input
            max_gas in
        subst (Ends p (created_code origin value input address) w)
          (in_turn _ (λ e. apply p e.values e.logs true w) (λ e. address))
          (rw same (
            read-Ends p w _ _
              (evaluate (backend p engine w)
                (evm.transact_create (precompiles p) origin value input max_gas))
              _ (asked-Reads p w engine _)
              (λ e found.
                applied-Ends p e.values e.logs e.status address w
                  (p.executor.transact_create-IsExecution _ _ _ _ _ _ (same ∙ found)).values_valid
                  (λ short.
                    evm.create-HasShortCode _ _ _ _ _ _ (code-Short engine w short)
                      (same ∙ found)))))

    pub deploy_code_written-Ends :
        (origin : Bytes) (value : ℕ) (input : Bytes)
        → Ends p (deploy_code_written p evm engine origin value input) w (
            Calls.deploy_code p engine origin value input w >>= λ (status, address, v).
            process_exit_reason p status address v)
    unfolding deploy_code_written Calls.deploy_code
    deploy_code_written-Ends origin value input =
        rw
          (
            evm.create_address-evaluate (backend p engine w) origin,
            >>=_assoc (evaluate (backend p engine w) (evm.create_address origin)),
          )
          (read-Ends p w _ _ (evaluate (backend p engine w) (evm.create_address origin)) _
            (asked-Reads p w engine _) (λ address found. created-Ends origin value input address))

    pub execute_written-Ends :
        (origin : Bytes) (to : Option Bytes) (value : ℕ) (input : Bytes)
        → Ends p (execute_written p evm engine origin to value input) w (
            execute p engine origin to value input w >>= λ (status, result, v).
            process_exit_reason p status result v)
    unfolding execute_written execute
    execute_written-Ends origin none value input = deploy_code_written-Ends origin value input
    execute_written-Ends origin (some receiver) value [] = exit_code-Ends p w fatal []
    execute_written-Ends origin (some receiver) value (b ∷ bs) =
        call_written-Ends origin receiver value (b ∷ bs)

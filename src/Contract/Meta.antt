-- ===== src/Contract/Meta.antt =====
-- `meta_call` of src/lib.rs: a call that its signer has others send.
use aurora_engine.Prelude.{
  ℕ, ◌≡◌, ◌∙◌, ap, codes, Outcome, ok, err, panic, panic_utf8, ◌>>=◌, >>=-ok, ok_inj, Bytes, refl,
}
use aurora_engine.Parameters.{EngineState}
use aurora_engine.Types.{InternalMetaCallArgs, bytes_to_hex}
use aurora_engine.Evm.{ExitReason, succeed, revert, error, fatal}
use aurora_engine.Platform.{Platform}
use aurora_engine.Sdk.{read_input, current_account_id, return_output}
use aurora_engine.Engine
use aurora_engine.Engine.Calls.{call}
use aurora_engine.Contract.{process_exit_reason}
use aurora_engine.MetaParsing.Hashing.{near_erc712_domain}
use aurora_engine.MetaParsing.MetaCall.{parse_meta_call}
use aurora_engine.MetaParsing.MetaCall.Recovers.{IsSignedCall, parse_meta_call-IsSignedCall}

-- `Err(_error_kind) => sdk::panic_utf8(b"ERR_META_TX_PARSE")`
abbrev pub or_panic {ℓ} : {A : Type ℓ} → Outcome A → Outcome A
or_panic (ok a) = ok a
or_panic (err e) = panic (panic_utf8 (codes "ERR_META_TX_PARSE"))
or_panic (panic e) = panic e

or_panic-ok {ℓ} : {A : Type ℓ} (o : Outcome A) {a : A} → or_panic o ≡ ok a → o ≡ ok a
or_panic-ok (ok b) e = e
or_panic-ok (err k) e = cc e
or_panic-ok (panic k) e = cc e

module _ (p : Platform) where
  open p use {World}

  unfoldable pub meta_call : World → Outcome World
  unfolding near_erc712_domain parse_meta_call
  meta_call w = do
    let input = read_input p w
    state ← Engine.get_state p w
    chain_id ← p.from_big_endian state.chain_id
    let domain_separator = near_erc712_domain p.primitives p.crypto chain_id
    args ← or_panic (
        parse_meta_call p.primitives p.crypto p.meta p.meta_call_args domain_separator
          (current_account_id p w) input)
    let engine = Engine.new_with_state p state args.sender
    (status, result, w') ← call p engine args.sender args.contract_address args.value args.input w
    process_exit_reason p status result w'

  -- The exit of a call that is handed back: it has succeeded, and its result is returned.
  pub process_exit_reason-ok :
      (status : ExitReason) (result : Bytes) (w : World) {w' : World}
      → process_exit_reason p status result w ≡ ok w'
      → (status ≡ succeed) × (return_output p result w ≡ w')
  unfolding process_exit_reason
  process_exit_reason-ok succeed result w e = (refl, ok_inj e)
  process_exit_reason-ok revert result w e = cc (>>=-ok (bytes_to_hex result) _ e).2
  process_exit_reason-ok error result w e = cc e
  process_exit_reason-ok fatal result w e = cc e

  pub record HasRunSigned (w w' : World) : Type 0 where
    pub state : EngineState
    pub chain_id : ℕ
    pub args : InternalMetaCallArgs
    pub result : Bytes
    pub after : World
    pub state_read : Engine.get_state p w ≡ ok state
    pub chain_id_read : p.from_big_endian state.chain_id ≡ ok chain_id
    pub signed :
        IsSignedCall p.primitives p.crypto p.meta p.meta_call_args
          (near_erc712_domain p.primitives p.crypto chain_id)
          (current_account_id p w)
          (read_input p w)
          args
    pub run :
        call p
          (Engine.new_with_state p state args.sender)
          args.sender
          args.contract_address
          args.value
          args.input
          w
        ≡ ok (succeed, result, after)
    pub returned : return_output p result after ≡ w'

  -- The last step of `meta_call`.
  abbrev pub signed_end : EngineState → InternalMetaCallArgs → World → Outcome World
  signed_end state args w =
      call p (Engine.new_with_state p state args.sender) args.sender args.contract_address
        args.value args.input w
      >>= λ (status, result, w'). process_exit_reason p status result w'

  -- What its steps have read, and a last step that has returned.
  pub signed_run :
      (w : World) {w' : World} (state : EngineState) (chain_id : ℕ) (args : InternalMetaCallArgs)
      → Engine.get_state p w ≡ ok state
      → p.from_big_endian state.chain_id ≡ ok chain_id
      → or_panic (
          parse_meta_call p.primitives p.crypto p.meta p.meta_call_args
            (near_erc712_domain p.primitives p.crypto chain_id)
            (current_account_id p w)
            (read_input p w))
        ≡ ok args
      → signed_end state args w ≡ ok w'
      → (run : HasRunSigned w w') × (run.state ≡ state) × (run.args ≡ args)
  signed_run w state chain_id args e1 e2 e3 r3 =
      let ((status, result, after), e4, r4) =
        >>=-ok
          (call p (Engine.new_with_state p state args.sender) args.sender args.contract_address
            args.value args.input w)
          _ r3 in
      let (success, returned) = process_exit_reason-ok status result after r4 in
      (
        record {
          state = state;
          chain_id = chain_id;
          args = args;
          result = result;
          after = after;
          state_read = e1;
          chain_id_read = e2;
          signed =
              parse_meta_call-IsSignedCall p.primitives p.crypto p.meta p.meta_call_args
                (near_erc712_domain p.primitives p.crypto chain_id) (current_account_id p w)
                (read_input p w) (or_panic-ok _ e3);
          run = e4 ∙ ap (λ (s : ExitReason). ok (s, result, after)) success;
          returned = returned;
        },
        refl,
        refl,
      )

  -- A `meta_call` that does not panic has run a call that its signer has signed, for the chain in
  -- the engine's state and for this contract's account: the signer is the EVM's caller, whoever
  -- has sent the transaction, and the result of the call, which has succeeded, is returned.
  pub meta_call-HasRunSigned : (w : World) {w' : World} → meta_call w ≡ ok w' → HasRunSigned w w'
  unfolding meta_call
  meta_call-HasRunSigned w e =
      let (state, e1, r1) = >>=-ok (Engine.get_state p w) _ e in
      let (chain_id, e2, r2) = >>=-ok (p.from_big_endian state.chain_id) _ r1 in
      let (args, e3, r3) =
        >>=-ok
          (or_panic (
            parse_meta_call p.primitives p.crypto p.meta p.meta_call_args
              (near_erc712_domain p.primitives p.crypto chain_id) (current_account_id p w)
              (read_input p w)))
          _ r2 in
      (signed_run w state chain_id args e1 e2 e3 r3).0

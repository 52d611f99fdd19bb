-- ===== src/Contract/Replay.antt =====
-- What `raw_call` and `meta_call` of src/lib.rs accept once, they accept again.
use aurora_engine.Parameters.{EngineState}
use aurora_engine.Types.{InternalMetaCallArgs}
use aurora_engine.Prelude.{ℕ, ◌≡◌, refl, ok, ◌>>=◌, >>=-ok}
use aurora_engine.Platform.{Platform}
use aurora_engine.Sdk.{read_input, current_account_id}
use aurora_engine.Engine
use aurora_engine.Transaction.{chain_id}
use aurora_engine.MetaParsing.Hashing.{near_erc712_domain}
use aurora_engine.MetaParsing.MetaCall.{parse_meta_call}
use aurora_engine.Contract.{process_exit_reason}
use aurora_engine.Contract.Meta.{meta_call, or_panic, HasRunSigned, signed_end, signed_run}
use aurora_engine.Contract.Raw.{raw_call, execute}
use aurora_engine.Contract.Raw.Signer.{
  HasRunTransaction, raw_call-HasRunTransaction, IsForChain-check_chain,
}

module _ (p : Platform) where
  open p use {World}

  -- Two calls with the same input, on the same engine and account.
  pub record SameRequest (w v : World) : Type 0 where
    pub input : read_input p v ≡ read_input p w
    pub account : current_account_id p v ≡ current_account_id p w
    pub state : Engine.get_state p v ≡ Engine.get_state p w

  signed_again :
      (w v : World) (state : EngineState) (chain : ℕ) (args : InternalMetaCallArgs)
      → SameRequest w v
      → Engine.get_state p w ≡ ok state
      → p.from_big_endian state.chain_id ≡ ok chain
      → or_panic (
          parse_meta_call p.primitives p.crypto p.meta p.meta_call_args
            (near_erc712_domain p.primitives p.crypto chain)
            (current_account_id p w)
            (read_input p w))
        ≡ ok args
      → meta_call p v ≡ signed_end p state args v
  unfolding meta_call
  signed_again w v state chain args same e1 e2 e3 =
      rw (same.input, same.account, same.state, e1, e2, e3) refl

  same_end :
      (v : World) {state state' : EngineState} {args args' : InternalMetaCallArgs}
      → state' ≡ state
      → args' ≡ args
      → meta_call p v ≡ signed_end p state args v
      → meta_call p v ≡ signed_end p state' args' v
  same_end v e d h = rw (e, d) h

  -- What `meta_call` has run once it runs again: a call in `w` that has returned has run the
  -- arguments that its input's signer has signed, and a later call with the same input, for the same
  -- account and engine state, hands the same arguments to the EVM in the name of the same signer,
  -- whatever has become of the accounts, and ends as that run does.
  pub meta_call_again :
      (w v : World) {w' : World}
      → meta_call p w ≡ ok w'
      → SameRequest w v
      → (run : HasRunSigned p w w') × (meta_call p v ≡ signed_end p run.state run.args v)
  unfolding meta_call
  meta_call_again w v e same =
      let (state, e1, r1) = >>=-ok (Engine.get_state p w) _ e in
      let (chain, e2, r2) = >>=-ok (p.from_big_endian state.chain_id) _ r1 in
      let (args, e3, r3) =
        >>=-ok
          (or_panic (
            parse_meta_call p.primitives p.crypto p.meta p.meta_call_args
              (near_erc712_domain p.primitives p.crypto chain) (current_account_id p w)
              (read_input p w)))
          _ r2 in
      let (run, same_state, same_args) = signed_run p w state chain args e1 e2 e3 r3 in
      (run, same_end v same_state same_args (signed_again w v state chain args same e1 e2 e3))

  -- What `raw_call` has run once it runs again: a call in `w` that has returned has run the
  -- transaction that its input encodes in the name of the account that signed it, and a later call
  -- with the same input, for the same engine state, executes the same transaction in the name of the
  -- same signer, whatever has become of the accounts, the signer's nonce among them, and ends as
  -- that run does.
  pub raw_call_again :
      (w v : World) {w' : World}
      → raw_call p w ≡ ok w'
      → SameRequest w v
      → (run : HasRunTransaction p w w') × (raw_call p v ≡ (
          execute p
            (Engine.new_with_state p run.state run.signer)
            run.signer
            run.t.transaction.to
            run.t.transaction.value
            run.t.transaction.input
            v
          >>= λ (status, result, after). process_exit_reason p status result after))
  unfolding raw_call
  raw_call_again w v e same =
      let run = raw_call-HasRunTransaction p w e in
      (
        run,
        rw
            (
              same.input,
              same.state,
              run.decoded,
              run.state_read,
              IsForChain-check_chain p (chain_id run.t) run.state run.for_chain,
              run.signed,
            )
            refl,
      )

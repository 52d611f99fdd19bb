-- ===== src/Contract/Raw/Signer.antt =====
-- Which transactions `raw_call` of src/lib.rs runs, and in whose name.
use aurora_engine.Prelude.{
  ℕ, ◌≡◌, ◌≢◌, ◌⊎◌, inl, inr, refl, ◌∙◌, ap, arith, true, false, Option, none, some, ok, panic,
  panic_utf8, >>=-ok, expect, expect-ok, Bytes, codes, ◌==◌,
}
use aurora_engine.Parameters.{EngineState}
use aurora_engine.Evm.{ExitReason, succeed}
use aurora_engine.Platform.{Platform}
use aurora_engine.Sdk.{read_input, return_output}
use aurora_engine.Engine
use aurora_engine.Transaction.{EthSignedTransaction, chain_id, sender}
use aurora_engine.Transaction.Decoding.{decode}
use aurora_engine.Contract.Meta.{process_exit_reason-ok}
use aurora_engine.Contract.Raw.{check_chain, signer_of, execute, raw_call}

module _ (p : Platform) where
  open p use {World}

  -- Without a chain, or for the engine's chain.
  abbrev pub IsForChain : EngineState → Option ℕ → Type 0
  IsForChain state chain =
      (chain ≡ none)
      ⊎ ((own : ℕ) × (chain ≡ some own) × (p.from_big_endian state.chain_id ≡ ok own))

  check_chain-IsForChain :
      (chain : Option ℕ) (state : EngineState)
      → check_chain p chain state ≡ ok tt
      → IsForChain state chain
  check_chain-IsForChain none state e = inl refl
  check_chain-IsForChain (some chain) state e =
      let (own, read, tested) = >>=-ok (p.from_big_endian state.chain_id) _ e in
      let same : chain ≡ own = ground arith in inr (own, ap some same, read)

  pub IsForChain-check_chain :
      (chain : Option ℕ) (state : EngineState)
      → IsForChain state chain
      → check_chain p chain state ≡ ok tt
  IsForChain-check_chain chain state (inl e) = rw e refl
  IsForChain-check_chain chain state (inr (own, e, read)) =
      let same : (own == own) ≡ true = ground arith in rw (e, read, same) refl

  signer_of-ok :
      (found : Option Bytes) {signer : Bytes} → signer_of found ≡ ok signer → found ≡ some signer
  signer_of-ok none e = cc e
  signer_of-ok (some s) e = cc e

  pub record HasRunTransaction (w w' : World) : Type 0 where
    pub t : EthSignedTransaction
    pub state : EngineState
    pub signer : Bytes
    pub result : Bytes
    pub after : World
    pub decoded : decode p.rlp (read_input p w) ≡ some t
    pub state_read : Engine.get_state p w ≡ ok state
    pub for_chain : IsForChain state (chain_id t)
    pub signed : sender p.primitives p.crypto p.rlp t ≡ ok (some signer)
    pub run :
        execute p
          (Engine.new_with_state p state signer)
          signer
          t.transaction.to
          t.transaction.value
          t.transaction.input
          w
        ≡ ok (succeed, result, after)
    pub returned : return_output p result after ≡ w'

  -- A `raw_call` that does not panic has run the transaction that its input encodes, in the name of
  -- the account that signed it, and the run has succeeded; the transaction names no chain, or the
  -- chain of the engine's state.
  pub raw_call-HasRunTransaction :
      (w : World) {w' : World} → raw_call p w ≡ ok w' → HasRunTransaction w w'
  unfolding raw_call
  raw_call-HasRunTransaction w e =
      let (t, e1, r1) = >>=-ok (expect (decode p.rlp (read_input p w))) _ e in
      let (state, e2, r2) = >>=-ok (Engine.get_state p w) _ r1 in
      let (_, e3, r3) = >>=-ok (check_chain p (chain_id t) state) _ r2 in
      let (found, e4, r4) = >>=-ok (sender p.primitives p.crypto p.rlp t) _ r3 in
      let (signer, e5, r5) = >>=-ok (signer_of found) _ r4 in
      let ((status, result, after), e6, r6) =
        >>=-ok
          (execute p (Engine.new_with_state p state signer) signer t.transaction.to
            t.transaction.value t.transaction.input w)
          _ r5 in
      let (success, returned) = process_exit_reason-ok p status result after r6 in
      record {
        t = t;
        state = state;
        signer = signer;
        result = result;
        after = after;
        decoded = expect-ok (decode p.rlp (read_input p w)) e1;
        state_read = e2;
        for_chain = check_chain-IsForChain (chain_id t) state e3;
        signed = e4 ∙ ap ok (signer_of-ok found e5);
        run = e6 ∙ ap (λ (s : ExitReason). ok (s, result, after)) success;
        returned = returned;
      }

  -- A transaction that names another chain than the engine's is refused as such, before its
  -- signature is looked at, whoever has signed it.
  pub raw_call_wrong_chain :
      (w : World) (t : EthSignedTransaction) (state : EngineState) (chain own : ℕ)
      → decode p.rlp (read_input p w) ≡ some t
      → Engine.get_state p w ≡ ok state
      → chain_id t ≡ some chain
      → p.from_big_endian state.chain_id ≡ ok own
      → chain ≢ own
      → raw_call p w ≡ panic (panic_utf8 (codes "ERR_INVALID_CHAIN_ID"))
  unfolding raw_call
  raw_call_wrong_chain w t state chain own decoded read named own_read other =
      let differs : (chain == own) ≡ false = ground arith in
      rw (decoded, read, named, own_read, differs) refl

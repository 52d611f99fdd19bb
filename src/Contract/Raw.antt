-- ===== src/Contract/Raw.antt =====
-- `raw_call` of src/lib.rs: an Ethereum transaction.
pub mod Signer
use aurora_engine.Prelude.{
  ℕ, ◌≡◌, ◌≢◌, refl, ◌∙◌, ap, arith, true, false, [], ◌∷◌, Option, none, some, Outcome, ok, panic,
  panic_utf8, ◌>>=◌, ◌>>◌, >>=-ok, expect, expect-ok, Bytes, codes, ◌==◌, if◌then◌else◌,
}
use aurora_engine.Parameters.{EngineState}
use aurora_engine.Evm.{ExitReason, succeed}
use aurora_engine.Platform.{Platform}
use aurora_engine.Sdk.{read_input, return_output}
use aurora_engine.Engine
use aurora_engine.Engine.Calls.{transfer, call, deploy_code}
use aurora_engine.Transaction.{EthTransaction, EthSignedTransaction, chain_id, sender}
use aurora_engine.Transaction.Decoding.{decode}
use aurora_engine.Contract.{process_exit_reason}

abbrev pub signer_of : Option Bytes → Outcome Bytes
signer_of none = panic (panic_utf8 (codes "ERR_INVALID_ECDSA_SIGNATURE"))
signer_of (some signer) = ok signer

module _ (p : Platform) where
  open p use {World}

  -- The chain ID, if provided inside the signature, must be the engine's.
  abbrev pub check_chain : Option ℕ → EngineState → Outcome (Unit {0})
  check_chain none state = ok tt
  check_chain (some chain) state = do
    own ← p.from_big_endian state.chain_id
    if chain == own then ok tt else panic (panic_utf8 (codes "ERR_INVALID_CHAIN_ID"))

  abbrev pub call_or_transfer :
      Engine.Engine → Bytes → Bytes → ℕ → Bytes → World → Outcome (ExitReason × Bytes × World)
  call_or_transfer engine sender receiver value [] w =
      let (status, w') = transfer p engine sender receiver value w in ok (status, [], w')
  call_or_transfer engine sender receiver value (b ∷ bs) w =
      call p engine sender receiver value (b ∷ bs) w

  -- What kind of a transaction this is, by its receiver and its data.
  unfoldable pub execute :
      Engine.Engine
      → Bytes
      → Option Bytes
      → ℕ
      → Bytes
      → World
      → Outcome (ExitReason × Bytes × World)
  execute engine sender none value input w = deploy_code p engine sender value input w
  execute engine sender (some receiver) value input w =
      call_or_transfer engine sender receiver value input w

  unfoldable pub raw_call : World → Outcome World
  raw_call w = do
    signed_transaction ← expect (decode p.rlp (read_input p w))
    state ← Engine.get_state p w
    check_chain (chain_id signed_transaction) state
    found ← sender p.primitives p.crypto p.rlp signed_transaction
    signer ← signer_of found
    let engine = Engine.new_with_state p state signer
    let t = signed_transaction.transaction
    (status, result, w') ← execute engine signer t.to t.value t.input w
    process_exit_reason p status result w'

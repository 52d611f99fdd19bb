-- ===== src/Tests/Transactions.antt =====
-- Ethereum transactions at concrete inputs.
use aurora_engine.Prelude.{
  ◌≡◌, refl, arith, none, some, [], ◌∷◌, ◌++◌, ok, slice, be_value, >>=-next, Bytes, codes,
  replicate,
}
use aurora_engine.Evm.{succeed}
use aurora_engine.Precompiles.{ecrecover}
use aurora_engine.Engine.{
  Engine, default_state, get_state, get_nonce, get_balance, get_code, get_storage,
}
use aurora_engine.Engine.Abstract.{apply_all, Represents}
use aurora_engine.Engine.Calls.{call}
use aurora_engine.Engine.Calls.Refines.{call-apply_all}
use aurora_engine.Transaction.Rlp.{integer}
use aurora_engine.Transaction.{
  EthSignedTransaction, fields, rlp_append, rlp_append_unsigned, chain_id, chain_and_rec_id, sender,
  vrs_to_arr,
}
use aurora_engine.Transaction.Decoding.{decode, decode-rlp_append}
use aurora_engine.Transaction.Replay.{sender_of_chain}
use aurora_engine.LogEntry
use aurora_engine.Contract.{process_exit_reason}
use aurora_engine.Contract.Raw.{raw_call, execute}
use aurora_engine.Contract.Raw.Signer.{HasRunTransaction, raw_call-HasRunTransaction}
use aurora_engine.Sdk.{return_output}
use aurora_engine.Tests.Calls.{no_accounts}
use aurora_engine.Demo.{World, platform, execution, address_of, be_bytes}

-- A call with `v` 37, which is for chain 1.
abbrev for_chain_1 : EthSignedTransaction
for_chain_1 = record {
  transaction = record {
    nonce = 3;
    gas_price = 10;
    gas = 21000;
    to = some (address_of 4);
    value = 5;
    input = codes "hello";
  };
  v = 37;
  r = 8;
  s = 9;
}

decode-rlp_append_example :
    decode platform.rlp (platform.rlp.as_raw (rlp_append for_chain_1)) ≡ some for_chain_1
decode-rlp_append_example = decode-rlp_append platform.rlp for_chain_1 (record {
  nonce_u256 = omega arith;
  gas_price_u256 = omega arith;
  gas_u256 = omega arith;
  to_address = refl;
  value_u256 = omega arith;
  v_u64 = omega arith;
  r_u256 = omega arith;
  s_u256 = omega arith;
})

sender_of_chain_example :
    (chain_id for_chain_1 ≡ some 1)
    × (sender platform.primitives platform.crypto platform.rlp for_chain_1
        ≡ ecrecover platform.primitives platform.crypto
            (platform.crypto.keccak (
              platform.rlp.as_raw (record {
                announced = 9;
                items = fields for_chain_1.transaction ++ integer 1 ∷ integer 0 ∷ integer 0 ∷ [];
              })))
            (platform.primitives.to_big_endian 8
              ++ (platform.primitives.to_big_endian 9 ++ 0 ∷ [])))
sender_of_chain_example =
    sender_of_chain platform.primitives platform.crypto platform.rlp for_chain_1 1 0 (omega arith)
      refl

-- On empty storage, where the engine's chain is 0.
abbrev pub sending : EthSignedTransaction → World
sending t = record {
  context = record {
    input = platform.rlp.as_raw (rlp_append t);
    predecessor_account_id = codes "relayer";
    current_account_id = codes "aurora";
    block_index = 100;
    block_timestamp = 7;
  };
  store = λ k. none;
  output = none;
  logs = [];
  deployed = [];
}

abbrev pub for_any_chain : EthSignedTransaction
for_any_chain = record for_chain_1 { v = 28 }

pub sending-Represents : Represents platform (sending for_any_chain) no_accounts
unfolding get_nonce get_balance get_code get_storage
sending-Represents = record {
  nonces = λ a h. refl;
  balances = λ a h. refl;
  codes = λ a h. refl;
  cells = λ a k h hk. refl;
}

-- The demonstration recovers a key of bytes that are the identifier, and its hash takes the front.
abbrev pub signer : Bytes
signer = address_of 1

abbrev pub engine : Engine
engine = record { state = default_state; origin = signer }

abbrev pub run :
    (w : World) × (call platform engine signer
        (address_of 4)
        5
        (codes "hello")
        (sending for_any_chain)
      ≡ ok (succeed, codes "hello", w))
    × Represents platform w (apply_all (execution (codes "hello")).values no_accounts)
run =
    call-apply_all platform engine no_accounts (sending for_any_chain) sending-Represents signer
      (address_of 4) 5 (codes "hello") (execution (codes "hello")) refl

abbrev pub after : World
after = return_output platform (codes "hello") run.0

pub raw_call-ok : raw_call platform (sending for_any_chain) ≡ ok after
unfolding be_bytes raw_call decode rlp_append get_state chain_id chain_and_rec_id sender vrs_to_arr
    ecrecover slice be_value execute process_exit_reason rlp_append_unsigned
raw_call-ok =
    >>=-next (call platform engine signer (address_of 4) 5 (codes "hello") (sending for_any_chain))
      (λ (status, result, w'). process_exit_reason platform status result w') run.1

raw_call-HasRunTransaction_example : HasRunTransaction platform (sending for_any_chain) after
raw_call-HasRunTransaction_example =
    raw_call-HasRunTransaction platform (sending for_any_chain) raw_call-ok

-- One topic, and a fourth item after the entry.
abbrev transfer_log : LogEntry.LogEntry
transfer_log = record { address = replicate 20 1; topics = replicate 32 2 ∷ []; payload = 3 ∷ [] }

decode-rlp_append_items_example :
    (LogEntry.decode platform.rlp (platform.rlp.as_raw (LogEntry.rlp_append transfer_log))
      ≡ some transfer_log)
    × (LogEntry.decode platform.rlp (
          platform.rlp.as_raw
            (record { announced = 4; items = LogEntry.items transfer_log ++ integer 9 ∷ [] }))
        ≡ some transfer_log)
decode-rlp_append_items_example =
    LogEntry.decode-rlp_append_items platform.rlp transfer_log (integer 9 ∷ [])
      (record { address_address = refl; topics_words = (refl, tt) })

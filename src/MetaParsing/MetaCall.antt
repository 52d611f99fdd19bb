-- ===== src/MetaParsing/MetaCall.antt =====
-- `prepare_meta_call_args` and `parse_meta_call` of src/meta_parsing.rs.
pub mod Binding
pub mod Signed
pub mod Recovers
pub mod Accepts
use aurora_engine.Prelude.{
  ℕ, ◌+◌, Option, some, none, List, [], ◌∷◌, ◌++◌, Outcome, ok, err, ok_or, ◌>>=◌, expect, Bytes,
  codes, drop, replicate, splice, argument_parse_error, invalid_meta_transaction_method_name,
  invalid_meta_transaction_function_arg, invalid_ec_recover_signature,
}
use aurora_engine.Packages.{Primitives, Crypto, Codec}
use aurora_engine.Parameters.{MetaCallArgs, IsMetaCallArgs}
use aurora_engine.Types.{InternalMetaCallArgs, u256_to_arr}
use aurora_engine.Precompiles.{ecrecover}
use aurora_engine.MetaParsing.Syntax.{MethodAndTypes, RlpValues, MetaPackages}
use aurora_engine.MetaParsing.Decoding.{rlp_decode}
use aurora_engine.MetaParsing.Methods.{find, parse_method_and_types, method_signature}
use aurora_engine.MetaParsing.Hashing.{concat, encode_address, method_sig_to_abi, hash_fields}
use aurora_engine.MetaParsing.Abi.{eth_abi_encode_args}

-- `"Arguments".to_string() + &method_def[method_arg_start..]`
abbrev pub arguments_of : Bytes → Outcome Bytes
arguments_of method_def = do
  method_arg_start ← ok_or (find b'(' method_def) invalid_meta_transaction_method_name
  ok (codes "Arguments" ++ drop method_arg_start method_def)

abbrev pub near_tx : Bytes
near_tx =
    codes
      "NearTx(string evmId,uint256 nonce,uint256 feeAmount,address feeAddress,address contractAddress,uint256 value,string contractMethod,Arguments arguments)"

abbrev pub signed_call : InternalMetaCallArgs → Bytes → Option Bytes → Outcome InternalMetaCallArgs
signed_call result input none = err invalid_ec_recover_signature
signed_call result input (some sender) = ok (record result { sender = sender; input = input })

abbrev pub signature_of : MetaCallArgs → Bytes
signature_of meta_tx = splice (splice (replicate 65 0) 64 (meta_tx.v ∷ [])) 0 meta_tx.signature

module _ (p : Primitives) (c : Crypto) where
  -- What is hashed for the message.
  unfoldable pub message_parts : Bytes → Bytes → InternalMetaCallArgs → Bytes → Bytes → List Bytes
  message_parts arguments account_id input method_sig arg_bytes =
      c.keccak (near_tx ++ arguments)
      ∷ c.keccak account_id
      ∷ u256_to_arr p input.nonce
      ∷ u256_to_arr p input.fee_amount
      ∷ encode_address input.fee_address
      ∷ encode_address input.contract_address
      ∷ u256_to_arr p input.value
      ∷ c.keccak method_sig
      ∷ c.keccak arg_bytes
      ∷ []

  -- What is hashed for the digest that the sender signs.
  unfoldable pub digest_of : Bytes → List Bytes → Bytes
  digest_of domain_separator parts =
      c.keccak (0x19 ∷ 0x01 ∷ domain_separator ++ c.keccak (concat parts))

module _ (p : Primitives) (c : Crypto) (m : MetaPackages) where
  unfoldable pub prepare_meta_call_args :
      Bytes → Bytes → Bytes → InternalMetaCallArgs → Outcome (Bytes × Bytes)
  prepare_meta_call_args domain_separator account_id method_def input = do
    arguments ← arguments_of method_def
    methods ← parse_method_and_types m method_def
    let method_sig = method_signature methods
    args_decoded ← rlp_decode m input.input
    hashes ← hash_fields p c methods.types methods.method.args 0 args_decoded
    let arg_bytes = c.keccak arguments ++ hashes
    args_eth_abi ← eth_abi_encode_args p methods m args_decoded
    let parts = message_parts p c arguments account_id input method_sig arg_bytes
    ok (digest_of p c domain_separator parts, method_sig_to_abi p c method_sig ++ args_eth_abi)

  -- The arguments before the sender and the input are known.
  abbrev pub unsigned_call : MetaCallArgs → Outcome InternalMetaCallArgs
  unsigned_call meta_tx = do
    nonce ← p.from_big_endian meta_tx.nonce
    fee_amount ← p.from_big_endian meta_tx.fee_amount
    value ← p.from_big_endian meta_tx.value
    ok (record {
      sender = replicate 20 0;
      nonce = nonce;
      fee_amount = fee_amount;
      fee_address = meta_tx.fee_address;
      contract_address = meta_tx.contract_address;
      value = value;
      input = meta_tx.args;
    })

  unfoldable pub parse_meta_call :
      Codec MetaCallArgs IsMetaCallArgs → Bytes → Bytes → Bytes → Outcome InternalMetaCallArgs
  unfolding prepare_meta_call_args ecrecover
  parse_meta_call codec domain_separator account_id args = do
    meta_tx ← ok_or (codec.from_slice args) argument_parse_error
    result ← unsigned_call meta_tx
    (msg, input) ← prepare_meta_call_args domain_separator account_id meta_tx.method_def result
    hash ← p.h256_from_slice msg
    sender ← ecrecover p c hash (signature_of meta_tx)
    signed_call result input sender

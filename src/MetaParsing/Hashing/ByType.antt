-- ===== src/MetaParsing/Hashing/ByType.antt =====
-- `eip_712_hash_argument` of src/meta_parsing.rs with its two guards, which match on the value after
-- the type has been matched. Hashing matches on both at once, so that its recursion is structural.
use aurora_engine.Prelude.{
  ◌≡◌, refl, List, ◌++◌, Outcome, ok, ok_or, ◌>>=◌, Bytes, invalid_meta_transaction_function_arg,
}
use aurora_engine.Packages.{Primitives, Crypto}
use aurora_engine.Types.{u256_to_arr}
use aurora_engine.MetaParsing.Syntax.{
  ArgType, array, address, uint, int, string, bool, byte, custom, Method, RlpValue, RlpValues, list,
}
use aurora_engine.MetaParsing.Methods.{find_type}
use aurora_engine.MetaParsing.Hashing.{
  bad_arg, encode_address, hash_argument, hash_elements, hash_fields,
}

abbrev pub eip_712_rlp_list : RlpValue → (RlpValues → Outcome Bytes) → Outcome Bytes
eip_712_rlp_list (RlpValue.bytes b) f = bad_arg
eip_712_rlp_list (list l) f = f l

abbrev pub eip_712_rlp_value : RlpValue → (Bytes → Outcome Bytes) → Outcome Bytes
eip_712_rlp_value (list l) f = bad_arg
eip_712_rlp_value (RlpValue.bytes b) f = f b

module _ (p : Primitives) (c : Crypto) (types : List (Bytes × Method)) where
  abbrev pub hash_by_type : ArgType → RlpValue → Outcome Bytes
  hash_by_type string value = eip_712_rlp_value value (λ b. ok (c.keccak b))
  hash_by_type ArgType.bytes value = eip_712_rlp_value value (λ b. ok (c.keccak b))
  hash_by_type (byte n) value = eip_712_rlp_value value (λ b. ok b)
  hash_by_type uint value =
      eip_712_rlp_value value (λ b. p.from_big_endian b >>= λ n. ok (u256_to_arr p n))
  hash_by_type int value =
      eip_712_rlp_value value (λ b. p.from_big_endian b >>= λ n. ok (u256_to_arr p n))
  hash_by_type bool value =
      eip_712_rlp_value value (λ b. p.from_big_endian b >>= λ n. ok (u256_to_arr p n))
  hash_by_type address value =
      eip_712_rlp_value value (λ b. p.h160_from_slice b >>= λ a. ok (encode_address a))
  hash_by_type (array n inner) value =
      eip_712_rlp_list value (λ l. hash_elements p c types inner l >>= λ r. ok (c.keccak r))
  hash_by_type (custom name) value = eip_712_rlp_list value (λ l. do
    struct_type ← ok_or (find_type types name) invalid_meta_transaction_function_arg
    r ← hash_fields p c types struct_type.args 0 l
    ok (c.keccak (c.keccak struct_type.raw ++ r)))

  pub hash_argument-hash_by_type :
      (ty : ArgType) (value : RlpValue) → hash_argument p c types ty value ≡ hash_by_type ty value
  unfolding hash_argument
  hash_argument-hash_by_type string (RlpValue.bytes b) = refl
  hash_argument-hash_by_type ArgType.bytes (RlpValue.bytes b) = refl
  hash_argument-hash_by_type (byte n) (RlpValue.bytes b) = refl
  hash_argument-hash_by_type uint (RlpValue.bytes b) = refl
  hash_argument-hash_by_type int (RlpValue.bytes b) = refl
  hash_argument-hash_by_type bool (RlpValue.bytes b) = refl
  hash_argument-hash_by_type address (RlpValue.bytes b) = refl
  hash_argument-hash_by_type (array n inner) (RlpValue.bytes b) = refl
  hash_argument-hash_by_type (custom name) (RlpValue.bytes b) = refl
  hash_argument-hash_by_type string (list l) = refl
  hash_argument-hash_by_type ArgType.bytes (list l) = refl
  hash_argument-hash_by_type (byte n) (list l) = refl
  hash_argument-hash_by_type uint (list l) = refl
  hash_argument-hash_by_type int (list l) = refl
  hash_argument-hash_by_type bool (list l) = refl
  hash_argument-hash_by_type address (list l) = refl
  hash_argument-hash_by_type (array n inner) (list l) = refl
  hash_argument-hash_by_type (custom name) (list l) = refl

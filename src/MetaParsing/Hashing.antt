-- ===== src/MetaParsing/Hashing.antt =====
-- The EIP-712 hashes of src/meta_parsing.rs.
pub mod Widths
pub mod Typing
pub mod ByType
use aurora_engine.Prelude.{
  ℕ, ◌+◌, List, [], ◌∷◌, ◌++◌, Outcome, ok, err, ok_or, ◌>>=◌, expect, Bytes, codes, get_elem?,
  take, replicate, invalid_meta_transaction_function_arg,
}
use aurora_engine.Packages.{Primitives, Crypto}
use aurora_engine.Types.{u256_to_arr}
use aurora_engine.MetaParsing.Syntax.{
  ArgType, array, address, uint, int, string, bool, byte, custom, Arg, Method, RlpValue, RlpValues,
  list, nil, cons,
}
use aurora_engine.MetaParsing.Methods.{find_type}

abbrev pub bad_arg {ℓ} : {A : Type ℓ} → Outcome A
bad_arg = err invalid_meta_transaction_function_arg

-- The parts that a sequence of `extend_from_slice` calls has put together.
abbrev pub concat : List Bytes → Bytes
concat [] = []
concat (part ∷ parts) = part ++ concat parts

abbrev pub encode_address : Bytes → Bytes
encode_address addr = replicate 12 0 ++ addr

module _ (p : Primitives) (c : Crypto) where
  abbrev pub encode_string : Bytes → Bytes
  encode_string s = c.keccak s

  abbrev pub method_sig_to_abi : Bytes → Bytes
  method_sig_to_abi method_sig = take 4 (c.keccak method_sig)

  unfoldable pub near_erc712_domain : ℕ → Bytes
  near_erc712_domain chain_id = c.keccak (
      concat (
        c.keccak (codes "EIP712Domain(string name,string version,uint256 chainId)")
        ∷ c.keccak (codes "NEAR")
        ∷ c.keccak (codes "1")
        ∷ u256_to_arr p chain_id
        ∷ []))

  -- A value that is no list, by its type; a list goes to `hash_argument`.
  abbrev pub hash_bytes : ArgType → Bytes → Outcome Bytes
  hash_bytes string b = ok (c.keccak b)
  hash_bytes ArgType.bytes b = ok (c.keccak b)
  hash_bytes (byte n) b = ok b
  hash_bytes uint b = do n ← p.from_big_endian b; ok (u256_to_arr p n)
  hash_bytes int b = do n ← p.from_big_endian b; ok (u256_to_arr p n)
  hash_bytes bool b = do n ← p.from_big_endian b; ok (u256_to_arr p n)
  hash_bytes address b = do a ← p.h160_from_slice b; ok (encode_address a)
  hash_bytes (array n inner) b = bad_arg
  hash_bytes (custom name) b = bad_arg

  module _ (types : List (Bytes × Method)) where
    -- `eip_712_hash_argument`, and its two loops.
    unfoldable mutual
      pub hash_argument : ArgType → RlpValue → Outcome Bytes
      hash_argument ty (RlpValue.bytes b) = hash_bytes ty b
      hash_argument (array n inner) (list l) = do r ← hash_elements inner l; ok (c.keccak r)
      hash_argument (custom name) (list l) = do
        struct_type ← ok_or (find_type types name) invalid_meta_transaction_function_arg
        r ← hash_fields struct_type.args 0 l
        ok (c.keccak (c.keccak struct_type.raw ++ r))
      hash_argument _ (list l) = bad_arg

      pub hash_elements : ArgType → RlpValues → Outcome Bytes
      hash_elements inner nil = ok []
      hash_elements inner (cons element l) = do
        h ← hash_argument inner element
        r ← hash_elements inner l
        ok (h ++ r)

      pub hash_fields : List Arg → ℕ → RlpValues → Outcome Bytes
      hash_fields args i nil = ok []
      hash_fields args i (cons element l) = do
        arg ← expect (get_elem? args i)
        h ← hash_argument arg.t element
        r ← hash_fields args (i + 1) l
        ok (h ++ r)

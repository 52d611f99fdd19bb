-- ===== src/MetaParsing/Abi.antt =====
-- The arguments of a meta-transaction as tokens of ethabi, in src/meta_parsing.rs.
pub mod Agrees
pub mod ByType
use aurora_engine.Prelude.{
  ℕ, ◌+◌, Option, some, none, List, Outcome, ok, ok_or, ◌>>=◌, expect, Bytes, get_elem?,
  invalid_meta_transaction_function_arg,
}
use aurora_engine.Packages.{Primitives}
use aurora_engine.MetaParsing.Syntax.{
  ArgType, byte, custom, Arg, MethodAndTypes, RlpValue, RlpValues, AbiToken, AbiTokens, fixed_bytes,
  fixed_array, tuple, MetaPackages,
}
use aurora_engine.MetaParsing.Methods.{find_type}
use aurora_engine.MetaParsing.Hashing.{bad_arg}

abbrev pub array_token : Option ℕ → AbiTokens → AbiToken
array_token none tokens = AbiToken.array tokens
array_token (some n) tokens = fixed_array tokens

module _ (p : Primitives) where
  -- A value that is no list, by its type; a list goes to `arg_to_abi_token`.
  abbrev pub bytes_to_token : ArgType → Bytes → Outcome AbiToken
  bytes_to_token ArgType.string b = ok (AbiToken.bytes b)
  bytes_to_token ArgType.bytes b = ok (AbiToken.bytes b)
  bytes_to_token (byte n) b = ok (fixed_bytes b)
  bytes_to_token ArgType.uint b = do n ← p.from_big_endian b; ok (AbiToken.uint n)
  bytes_to_token ArgType.int b = do n ← p.from_big_endian b; ok (AbiToken.uint n)
  bytes_to_token ArgType.bool b = do n ← p.from_big_endian b; ok (AbiToken.uint n)
  bytes_to_token ArgType.address b = do a ← p.h160_from_slice b; ok (AbiToken.address a)
  bytes_to_token (ArgType.array n inner) b = bad_arg
  bytes_to_token (custom name) b = bad_arg

  module _ (methods : MethodAndTypes) where
    -- `arg_to_abi_token`, and its loops.
    unfoldable mutual
      pub arg_to_abi_token : ArgType → RlpValue → Outcome AbiToken
      arg_to_abi_token ty (RlpValue.bytes b) = bytes_to_token ty b
      arg_to_abi_token (ArgType.array n inner) (RlpValue.list l) = do
        tokens ← element_tokens inner l
        ok (array_token n tokens)
      arg_to_abi_token (custom name) (RlpValue.list l) = do
        struct_type ← ok_or (find_type methods.types name) invalid_meta_transaction_function_arg
        tokens ← field_tokens struct_type.args 0 l
        ok (tuple tokens)
      arg_to_abi_token _ (RlpValue.list l) = bad_arg

      pub element_tokens : ArgType → RlpValues → Outcome AbiTokens
      element_tokens inner RlpValues.nil = ok AbiTokens.nil
      element_tokens inner (RlpValues.cons arg l) = do
        token ← arg_to_abi_token inner arg
        tokens ← element_tokens inner l
        ok (AbiTokens.cons token tokens)

      pub field_tokens : List Arg → ℕ → RlpValues → Outcome AbiTokens
      field_tokens args i RlpValues.nil = ok AbiTokens.nil
      field_tokens args i (RlpValues.cons element l) = do
        arg ← expect (get_elem? args i)
        token ← arg_to_abi_token arg.t element
        tokens ← field_tokens args (i + 1) l
        ok (AbiTokens.cons token tokens)

    unfoldable pub eth_abi_encode_args : MetaPackages → RlpValues → Outcome Bytes
    unfolding field_tokens
    eth_abi_encode_args m args_decoded = do
      tokens ← field_tokens methods.method.args 0 args_decoded
      ok (m.encode tokens)

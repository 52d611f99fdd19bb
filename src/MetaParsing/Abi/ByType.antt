-- ===== src/MetaParsing/Abi/ByType.antt =====
-- `arg_to_abi_token` of src/meta_parsing.rs with its two guards, which match on the value after the
-- type has been matched.
use aurora_engine.Prelude.{
  ◌≡◌, refl, none, some, Outcome, ok, ok_or, ◌>>=◌, Bytes, invalid_meta_transaction_function_arg,
}
use aurora_engine.Packages.{Primitives}
use aurora_engine.MetaParsing.Syntax.{
  ArgType, byte, custom, MethodAndTypes, RlpValue, RlpValues, AbiToken, fixed_bytes, fixed_array,
  tuple,
}
use aurora_engine.MetaParsing.Methods.{find_type}
use aurora_engine.MetaParsing.Hashing.{bad_arg}
use aurora_engine.MetaParsing.Abi.{arg_to_abi_token, element_tokens, field_tokens}

abbrev pub list_to_abi_token : RlpValue → (RlpValues → Outcome AbiToken) → Outcome AbiToken
list_to_abi_token (RlpValue.bytes b) f = bad_arg
list_to_abi_token (RlpValue.list l) f = f l

abbrev pub value_to_abi_token : RlpValue → (Bytes → Outcome AbiToken) → Outcome AbiToken
value_to_abi_token (RlpValue.list l) f = bad_arg
value_to_abi_token (RlpValue.bytes b) f = f b

module _ (p : Primitives) (methods : MethodAndTypes) where
  abbrev pub token_by_type : ArgType → RlpValue → Outcome AbiToken
  token_by_type ArgType.string arg = value_to_abi_token arg (λ b. ok (AbiToken.bytes b))
  token_by_type ArgType.bytes arg = value_to_abi_token arg (λ b. ok (AbiToken.bytes b))
  token_by_type (byte n) arg = value_to_abi_token arg (λ b. ok (fixed_bytes b))
  token_by_type ArgType.uint arg =
      value_to_abi_token arg (λ b. p.from_big_endian b >>= λ n. ok (AbiToken.uint n))
  token_by_type ArgType.int arg =
      value_to_abi_token arg (λ b. p.from_big_endian b >>= λ n. ok (AbiToken.uint n))
  token_by_type ArgType.bool arg =
      value_to_abi_token arg (λ b. p.from_big_endian b >>= λ n. ok (AbiToken.uint n))
  token_by_type ArgType.address arg =
      value_to_abi_token arg (λ b. p.h160_from_slice b >>= λ a. ok (AbiToken.address a))
  token_by_type (ArgType.array none inner) arg =
      list_to_abi_token arg (λ l. element_tokens p methods inner l >>= λ t. ok (AbiToken.array t))
  token_by_type (ArgType.array (some n) inner) arg =
      list_to_abi_token arg (λ l. element_tokens p methods inner l >>= λ t. ok (fixed_array t))
  token_by_type (custom name) arg = list_to_abi_token arg (λ l. do
    struct_type ← ok_or (find_type methods.types name) invalid_meta_transaction_function_arg
    tokens ← field_tokens p methods struct_type.args 0 l
    ok (tuple tokens))

  pub arg_to_abi_token-token_by_type :
      (ty : ArgType) (arg : RlpValue) → arg_to_abi_token p methods ty arg ≡ token_by_type ty arg
  unfolding arg_to_abi_token
  arg_to_abi_token-token_by_type ArgType.string (RlpValue.bytes b) = refl
  arg_to_abi_token-token_by_type ArgType.bytes (RlpValue.bytes b) = refl
  arg_to_abi_token-token_by_type (byte n) (RlpValue.bytes b) = refl
  arg_to_abi_token-token_by_type ArgType.uint (RlpValue.bytes b) = refl
  arg_to_abi_token-token_by_type ArgType.int (RlpValue.bytes b) = refl
  arg_to_abi_token-token_by_type ArgType.bool (RlpValue.bytes b) = refl
  arg_to_abi_token-token_by_type ArgType.address (RlpValue.bytes b) = refl
  arg_to_abi_token-token_by_type (ArgType.array none inner) (RlpValue.bytes b) = refl
  arg_to_abi_token-token_by_type (ArgType.array (some n) inner) (RlpValue.bytes b) = refl
  arg_to_abi_token-token_by_type (custom name) (RlpValue.bytes b) = refl
  arg_to_abi_token-token_by_type ArgType.string (RlpValue.list l) = refl
  arg_to_abi_token-token_by_type ArgType.bytes (RlpValue.list l) = refl
  arg_to_abi_token-token_by_type (byte n) (RlpValue.list l) = refl
  arg_to_abi_token-token_by_type ArgType.uint (RlpValue.list l) = refl
  arg_to_abi_token-token_by_type ArgType.int (RlpValue.list l) = refl
  arg_to_abi_token-token_by_type ArgType.bool (RlpValue.list l) = refl
  arg_to_abi_token-token_by_type ArgType.address (RlpValue.list l) = refl
  arg_to_abi_token-token_by_type (ArgType.array none inner) (RlpValue.list l) = refl
  arg_to_abi_token-token_by_type (ArgType.array (some n) inner) (RlpValue.list l) = refl
  arg_to_abi_token-token_by_type (custom name) (RlpValue.list l) = refl

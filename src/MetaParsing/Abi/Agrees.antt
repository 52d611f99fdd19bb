-- ===== src/MetaParsing/Abi/Agrees.antt =====
-- The two readings of the arguments in src/meta_parsing.rs, as an EIP-712 hash and as tokens of
-- ethabi, fail on the same arguments.
use aurora_engine.Prelude.{
  ℕ, ◌+◌, refl, List, ok, ok_or, expect, Alike, Alike->>=, Alike-then, Alike->>=-right, Bytes,
  get_elem?, invalid_meta_transaction_function_arg,
}
use aurora_engine.Packages.{Primitives, Crypto}
use aurora_engine.MetaParsing.Syntax.{
  ArgType, array, address, uint, int, string, bool, byte, custom, Arg, MethodAndTypes, MetaPackages,
  RlpValue, RlpValues, list, nil, cons,
}
use aurora_engine.MetaParsing.Methods.{find_type}
use aurora_engine.MetaParsing.Hashing.{hash_argument, hash_elements, hash_fields, hash_bytes}
use aurora_engine.MetaParsing.Abi.{
  arg_to_abi_token, element_tokens, field_tokens, bytes_to_token, eth_abi_encode_args,
}

module _ (p : Primitives) (c : Crypto) (methods : MethodAndTypes) where
  hash_bytes-bytes_to_token :
      (ty : ArgType) (b : Bytes) → Alike (hash_bytes p c ty b) (bytes_to_token p ty b)
  hash_bytes-bytes_to_token string b = tt
  hash_bytes-bytes_to_token ArgType.bytes b = tt
  hash_bytes-bytes_to_token (byte n) b = tt
  hash_bytes-bytes_to_token uint b = Alike-then (p.from_big_endian b) _ _ (λ n. tt)
  hash_bytes-bytes_to_token int b = Alike-then (p.from_big_endian b) _ _ (λ n. tt)
  hash_bytes-bytes_to_token bool b = Alike-then (p.from_big_endian b) _ _ (λ n. tt)
  hash_bytes-bytes_to_token address b = Alike-then (p.h160_from_slice b) _ _ (λ a. tt)
  hash_bytes-bytes_to_token (array n inner) b = refl
  hash_bytes-bytes_to_token (custom name) b = refl

  mutual
    unfolding hash_argument arg_to_abi_token

    hash_argument-Alike :
        (ty : ArgType) (v : RlpValue)
        → Alike (hash_argument p c methods.types ty v) (arg_to_abi_token p methods ty v)
    hash_argument-Alike ty (RlpValue.bytes b) = hash_bytes-bytes_to_token ty b
    hash_argument-Alike (array n inner) (list l) =
        Alike->>= (hash_elements p c methods.types inner l) (element_tokens p methods inner l) _ _
          (hash_elements-Alike inner l) (λ r tokens. tt)
    hash_argument-Alike (custom name) (list l) =
        Alike-then (ok_or (find_type methods.types name) invalid_meta_transaction_function_arg) _ _
          (λ struct_type.
            Alike->>= (hash_fields p c methods.types struct_type.args 0 l)
              (field_tokens p methods struct_type.args 0 l) _ _
              (hash_fields-Alike struct_type.args 0 l) (λ r tokens. tt))
    hash_argument-Alike _ (list l) = refl

    hash_elements-Alike :
        (inner : ArgType) (l : RlpValues)
        → Alike (hash_elements p c methods.types inner l) (element_tokens p methods inner l)
    hash_elements-Alike inner nil = tt
    hash_elements-Alike inner (cons v l) =
        Alike->>= (hash_argument p c methods.types inner v) (arg_to_abi_token p methods inner v) _ _
          (hash_argument-Alike inner v)
          (λ h token.
            Alike->>= (hash_elements p c methods.types inner l) (element_tokens p methods inner l) _
              _ (hash_elements-Alike inner l) (λ r tokens. tt))

    hash_fields-Alike :
        (args : List Arg) (i : ℕ) (l : RlpValues)
        → Alike (hash_fields p c methods.types args i l) (field_tokens p methods args i l)
    hash_fields-Alike args i nil = tt
    hash_fields-Alike args i (cons v l) = Alike-then (expect (get_elem? args i)) _ _ (λ arg.
        Alike->>= (hash_argument p c methods.types arg.t v) (arg_to_abi_token p methods arg.t v) _ _
          (hash_argument-Alike arg.t v)
          (λ h token.
            Alike->>= (hash_fields p c methods.types args (i + 1) l)
              (field_tokens p methods args (i + 1) l) _ _ (hash_fields-Alike args (i + 1) l)
              (λ r tokens. tt)))

  -- The arguments of a method are hashed exactly when they are encoded for the contract, and fail
  -- with the same error or panic otherwise, whatever the hash function is and whatever else the
  -- packages do.
  pub hash_fields-eth_abi_encode_args :
      (m : MetaPackages) (l : RlpValues)
      → Alike
          (hash_fields p c methods.types methods.method.args 0 l)
          (eth_abi_encode_args p methods m l)
  unfolding eth_abi_encode_args
  hash_fields-eth_abi_encode_args m l =
      Alike->>=-right (hash_fields p c methods.types methods.method.args 0 l)
        (field_tokens p methods methods.method.args 0 l) (λ tokens. ok (m.encode tokens))
        (hash_fields-Alike methods.method.args 0 l) (λ tokens. (_, refl))

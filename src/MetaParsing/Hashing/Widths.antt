-- ===== src/MetaParsing/Hashing/Widths.antt =====
-- How long the argument hashes of src/meta_parsing.rs are, and what follows where they are short.
use aurora_engine.Prelude.{
  ℕ, ◌≡◌, sym, ◌∙◌, ap, arith, List, [], ◌∷◌, ◌++◌, append_assoc, ok, panic, abort, ok_or, >>=-ok,
  ok_inj, Bytes, length, replicate, length-append, if◌then◌else◌, ◌==◌,
  invalid_meta_transaction_function_arg,
}
use aurora_engine.Packages.{Primitives, Crypto, IsWord}
use aurora_engine.MetaParsing.Syntax.{
  ArgType, array, address, uint, int, string, bool, byte, custom, Arg, Method, RlpValue, list, nil,
  cons,
}
use aurora_engine.MetaParsing.Methods.{find_type}
use aurora_engine.MetaParsing.Hashing.{hash_argument, hash_fields, hash_elements, hash_bytes}

-- No `bytesN`.
abbrev pub IsFullWidth : ArgType → Type 0
IsFullWidth (byte n) = ⊥
IsFullWidth _ = Unit

module _ (p : Primitives) (c : Crypto) (types : List (Bytes × Method)) where
  uint-IsWord : (b : Bytes) {h : Bytes} → hash_bytes p c uint b ≡ ok h → IsWord h
  uint-IsWord b e =
      let (n, _, same) = >>=-ok (p.from_big_endian b) _ e in
      ap length (sym (ok_inj same)) ∙ p.length-to_big_endian n

  from_slice-length : (b : Bytes) {a : Bytes} → p.h160_from_slice b ≡ ok a → length a ≡ 20
  from_slice-length b {a} e =
      let read : (if length b == 20 then ok b else panic abort) ≡ ok a =
        sym (p.h160_from_slice_lem b) ∙ e in
      ground arith

  address-IsWord : (b : Bytes) {h : Bytes} → hash_bytes p c address b ≡ ok h → IsWord h
  address-IsWord b e =
      let (a, read, same) = >>=-ok (p.h160_from_slice b) _ e in
      ap length (sym (ok_inj same))
      ∙ omega (arith, length-append (replicate {A = ℕ} 12 0) a, from_slice-length b read)

  -- The hash of an argument is a word of 32 bytes, whatever its value, unless its type is `bytesN`.
  pub hash_argument-IsWord :
      (ty : ArgType) (value : RlpValue) {h : Bytes}
      → IsFullWidth ty
      → hash_argument p c types ty value ≡ ok h
      → IsWord h
  unfolding hash_argument
  hash_argument-IsWord string (RlpValue.bytes b) f e =
      ap length (sym (ok_inj e)) ∙ c.length-keccak b
  hash_argument-IsWord ArgType.bytes (RlpValue.bytes b) f e =
      ap length (sym (ok_inj e)) ∙ c.length-keccak b
  hash_argument-IsWord (byte n) v f e = absurd f
  hash_argument-IsWord uint (RlpValue.bytes b) f e = uint-IsWord b e
  hash_argument-IsWord int (RlpValue.bytes b) f e = uint-IsWord b e
  hash_argument-IsWord bool (RlpValue.bytes b) f e = uint-IsWord b e
  hash_argument-IsWord address (RlpValue.bytes b) f e = address-IsWord b e
  hash_argument-IsWord (array n inner) (list l) f e =
      let (r, _, same) = >>=-ok (hash_elements p c types inner l) _ e in
      ap length (sym (ok_inj same)) ∙ c.length-keccak r
  hash_argument-IsWord (custom name) (list l) f e =
      let (t, _, rest) =
        >>=-ok (ok_or (find_type types name) invalid_meta_transaction_function_arg) _ e in
      let (r, _, same) = >>=-ok (hash_fields p c types t.args 0 l) _ rest in
      ap length (sym (ok_inj same)) ∙ c.length-keccak _
  hash_argument-IsWord _ _ f e = cc e

  -- Two `bytesN` arguments next to each other are hashed without a gap and without padding: bytes
  -- can move from the second to the first, and the hashes do not change.
  pub hash_fields_shift :
      (first second : Arg) (n k : ℕ) (a moved b : Bytes)
      → first.t ≡ byte n
      → second.t ≡ byte k
      → hash_fields p c types
          (first ∷ second ∷ [])
          0
          (cons (RlpValue.bytes (a ++ moved)) (cons (RlpValue.bytes b) nil))
        ≡ hash_fields p c types
            (first ∷ second ∷ [])
            0
            (cons (RlpValue.bytes a) (cons (RlpValue.bytes (moved ++ b)) nil))
  unfolding hash_fields
  hash_fields_shift first second n k a moved b h h' = rw (h, h') (ap ok (simp (append_assoc)))

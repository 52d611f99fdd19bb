-- ===== src/MetaParsing/MetaCall/Accepts.antt =====
-- When `prepare_meta_call_args` of src/meta_parsing.rs has a result.
use aurora_engine.Prelude.{
  ℕ, ◌+◌, ◌≡◌, ◌∙◌, ap, ◌↔◌, refl, some, [], ◌∷◌, ◌++◌, ok, >>=-ok, >>=-next, Alike-ok, Bytes,
  codes, drop, ◌==◌, arith, inl, inr, Bool-cases,
}
use mathlib.Core.Path.{subst}
use aurora_engine.Packages.{Primitives, Crypto}
use aurora_engine.Types.{InternalMetaCallArgs}
use aurora_engine.MetaParsing.Syntax.{MethodAndTypes, RlpValues, MetaPackages}
use aurora_engine.MetaParsing.Methods.{
  find, consume, parse_ident, parse_args, parse_method, parse_method_and_types,
}
use aurora_engine.MetaParsing.Methods.Consumes.{Consumes, rest_of, parse_ident-Consumes}
use aurora_engine.MetaParsing.Decoding.{rlp_decode}
use aurora_engine.MetaParsing.Hashing.{hash_fields}
use aurora_engine.MetaParsing.Hashing.Typing.{FitsFields, hash_fields-iff_FitsFields}
use aurora_engine.MetaParsing.Abi.{eth_abi_encode_args}
use aurora_engine.MetaParsing.Abi.Agrees.{hash_fields-eth_abi_encode_args}
use aurora_engine.MetaParsing.MetaCall.{arguments_of, prepare_meta_call_args}

-- A character that stands in a text is found.
find_in : (c : ℕ) (front rest : Bytes) → (i : ℕ) × (find c (front ++ c ∷ rest) ≡ some i)
unfolding find
find_in c [] rest = (0, ground arith)
find_in c (d ∷ front) rest =
    let (i, found) = find_in c front rest in
    elim (Bool-cases (d == c)) [ inl e ↦ (0, rw e refl) | inr e ↦ (i + 1, rw (e, found) refl) ]

consume_start : (c : ℕ) (text rest : Bytes) → consume c text ≡ ok rest → text ≡ c ∷ rest
unfolding consume
consume_start c [] rest e = cc e
consume_start c (d ∷ ds) rest e = elim (Bool-cases (d == c)) [
  | inl h ↦ ground arith
  | inr h ↦ ground arith
]

module _ (m : MetaPackages) where
  -- A definition that parses has an opening parenthesis.
  arguments_of-ok :
      (text : Bytes) (methods : MethodAndTypes)
      → parse_method_and_types m text ≡ ok methods
      → (arguments : Bytes) × (arguments_of text ≡ ok arguments)
  unfolding parse_method_and_types parse_method parse_args parse_ident
  arguments_of-ok text methods e =
      let ((method, types), e1, _) = >>=-ok (parse_method m text) _ e in
      let ((name, remains), e2, r2) = >>=-ok (parse_ident text) _ e1 in
      let ((args, left), e3, _) = >>=-ok (parse_args m remains) _ r2 in
      let (inner, e4, _) = >>=-ok (consume b'(' remains) _ e3 in
      let whole : Consumes rest_of 1 text (ok (name, remains)) =
        subst (λ o. Consumes rest_of 1 text o) e2 (parse_ident-Consumes text) in
      let (i, found) = find_in b'(' whole.0 inner in
      let text_is : text ≡ whole.0 ++ b'(' ∷ inner =
        whole.1 ∙ ap (λ r. whole.0 ++ r) (consume_start b'(' remains inner e4) in
      let found_in_text : find b'(' text ≡ some i = ap (λ t. find b'(' t) text_is ∙ found in
      (codes "Arguments" ++ drop i text, rw found_in_text refl)

  -- The definition parses, the arguments are an RLP list, and they have the types of the method.
  abbrev pub IsCall : Bytes → Bytes → Type 0
  IsCall method_def args =
      (methods : MethodAndTypes) × (values : RlpValues) × (parse_method_and_types m method_def
        ≡ ok methods)
      × (rlp_decode m args ≡ ok values)
      × FitsFields methods.types methods.method.args values

module _ (p : Primitives) (c : Crypto) (m : MetaPackages) where
  -- The arguments of a meta-transaction are prepared exactly when its method definition parses, its
  -- input decodes as an RLP list, and the values have the types of the method's first arguments.
  pub prepare_meta_call_args-iff_IsCall :
      (domain_separator account_id method_def : Bytes) (input : InternalMetaCallArgs)
      → ((result : Bytes × Bytes) × (prepare_meta_call_args p c m domain_separator account_id
              method_def input
            ≡ ok result))
        ↔ IsCall m method_def input.input
  unfolding prepare_meta_call_args
  prepare_meta_call_args-iff_IsCall domain_separator account_id method_def input = (
    (λ (result, e).
        let (arguments, e1, r1) = >>=-ok (arguments_of method_def) _ e in
        let (methods, e2, r2) = >>=-ok (parse_method_and_types m method_def) _ r1 in
        let (values, e3, r3) = >>=-ok (rlp_decode m input.input) _ r2 in
        let (hashes, e4, _) =
          >>=-ok (hash_fields p c methods.types methods.method.args 0 values) _ r3 in
        (
          methods,
          values,
          e2,
          e3,
          (hash_fields-iff_FitsFields p c methods.types methods.method.args values).0 (hashes, e4),
        )),
    (λ (methods, values, e2, e3, fits).
        let (arguments, e1) = arguments_of-ok m method_def methods e2 in
        let (hashes, e4) =
          (hash_fields-iff_FitsFields p c methods.types methods.method.args values).1 fits in
        let (encoded, e5) =
          Alike-ok (hash_fields p c methods.types methods.method.args 0 values)
            (eth_abi_encode_args p methods m values)
            (hash_fields-eth_abi_encode_args p c methods m values) e4 in
        (
          _,
          >>=-next (arguments_of method_def) _ e1
              ∙ >>=-next (parse_method_and_types m method_def) _ e2
              ∙ >>=-next (rlp_decode m input.input) _ e3
              ∙ >>=-next (hash_fields p c methods.types methods.method.args 0 values) _ e4
              ∙ >>=-next (eth_abi_encode_args p methods m values) _ e5,
        )),
  )

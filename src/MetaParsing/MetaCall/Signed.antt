-- ===== src/MetaParsing/MetaCall/Signed.antt =====
-- Which meta-transactions share a digest of `prepare_meta_call_args` in src/meta_parsing.rs.
use aurora_engine.Prelude.{
  List, inr, [], ◌∷◌, ◌≡◌, ◌⊎◌, inl, refl, sym, ◌∙◌, ap, ◌++◌, Outcome, ok, ◌>>=◌, >>=-ok, >>=-next,
  Bytes, append_inj, length,
}
use aurora_engine.Packages.{Primitives, Crypto, IsWord}
use aurora_engine.Types.{InternalMetaCallArgs}
use aurora_engine.MetaParsing.Syntax.{MetaPackages}
use aurora_engine.MetaParsing.Methods.{parse_method_and_types, method_signature}
use aurora_engine.MetaParsing.Hashing.{hash_fields, concat}
use aurora_engine.MetaParsing.Abi.{eth_abi_encode_args}
use aurora_engine.MetaParsing.Decoding.{rlp_decode}
use aurora_engine.MetaParsing.MetaCall.{
  arguments_of, near_tx, message_parts, digest_of, prepare_meta_call_args,
}
use aurora_engine.MetaParsing.MetaCall.Binding.{
  Collision, digest_preimage, IsInternalMetaCallArgs, and_then, digest_of-binds,
  message_parts-words, message_parts-binds,
}

module _ (p : Primitives) (c : Crypto) (m : MetaPackages) where
  -- The signature of a definition, and the hashes of its arguments.
  abbrev pub signature_of_def : Bytes → Outcome Bytes
  signature_of_def method_def = do
    methods ← parse_method_and_types m method_def
    ok (method_signature methods)

  abbrev pub argument_hashes : Bytes → InternalMetaCallArgs → Outcome Bytes
  argument_hashes method_def input = do
    methods ← parse_method_and_types m method_def
    args_decoded ← rlp_decode m input.input
    hash_fields p c methods.types methods.method.args 0 args_decoded

  -- The strings that `prepare_meta_call_args` hashes to make the digest: what is hashed last, the
  -- message, the type text, the account, the method signature, and the arguments' hashes behind the
  -- hash of their types.
  abbrev pub hashed_strings :
      Bytes → Bytes → InternalMetaCallArgs → Bytes → Bytes → Bytes → List Bytes
  hashed_strings domain account input arguments sig hashes =
      let arg_bytes = c.keccak arguments ++ hashes in
      let parts = message_parts p c arguments account input sig arg_bytes in
      digest_preimage p c domain parts
      ∷ concat parts
      ∷ (near_tx ++ arguments)
      ∷ account
      ∷ sig
      ∷ arg_bytes
      ∷ []

  abbrev pub hashed_by : Bytes → Bytes → Bytes → InternalMetaCallArgs → Outcome (List Bytes)
  hashed_by domain account method_def input = do
    arguments ← arguments_of method_def
    sig ← signature_of_def method_def
    hashes ← argument_hashes method_def input
    ok (hashed_strings domain account input arguments sig hashes)

  record Prepared (domain account method_def : Bytes) (input : InternalMetaCallArgs)
      (digest : Bytes) : Type 0 where
    arguments : Bytes
    sig : Bytes
    hashes : Bytes
    has_arguments : arguments_of method_def ≡ ok arguments
    has_sig : signature_of_def method_def ≡ ok sig
    has_hashes : argument_hashes method_def input ≡ ok hashes
    is_digest :
        digest
        ≡ digest_of p c domain
            (message_parts p c arguments account input sig (c.keccak arguments ++ hashes))

  prepare_meta_call_args-Prepared :
      (domain account method_def : Bytes) (input : InternalMetaCallArgs) {digest encoded : Bytes}
      → prepare_meta_call_args p c m domain account method_def input ≡ ok (digest, encoded)
      → Prepared domain account method_def input digest
  unfolding prepare_meta_call_args
  prepare_meta_call_args-Prepared domain account method_def input e =
      let (arguments, e1, r1) = >>=-ok (arguments_of method_def) _ e in
      let (methods, e2, r2) = >>=-ok (parse_method_and_types m method_def) _ r1 in
      let (decoded, e3, r3) = >>=-ok (rlp_decode m input.input) _ r2 in
      let (hashes, e4, r4) =
        >>=-ok (hash_fields p c methods.types methods.method.args 0 decoded) _ r3 in
      let (encoded, e5, r5) = >>=-ok (eth_abi_encode_args p methods m decoded) _ r4 in
      record {
        arguments = arguments;
        sig = method_signature methods;
        hashes = hashes;
        has_arguments = e1;
        has_sig = >>=-next (parse_method_and_types m method_def) _ e2;
        has_hashes =
            >>=-next (parse_method_and_types m method_def) _ e2
            ∙ >>=-next (rlp_decode m input.input) _ e3
            ∙ e4;
        is_digest = cc r5;
      }

  pub record SameCall (domain domain' account account' def def' : Bytes)
      (input input' : InternalMetaCallArgs) : Type 0 where
    domain_same : domain ≡ domain'
    account_same : account ≡ account'
    nonce_same : input.nonce ≡ input'.nonce
    fee_amount_same : input.fee_amount ≡ input'.fee_amount
    fee_address_same : input.fee_address ≡ input'.fee_address
    contract_address_same : input.contract_address ≡ input'.contract_address
    value_same : input.value ≡ input'.value
    arguments_same : arguments_of def ≡ arguments_of def'
    signature_same : signature_of_def def ≡ signature_of_def def'
    hashes_same : argument_hashes def input ≡ argument_hashes def' input'

  Prepared-hashed_by :
      (domain account method_def : Bytes) (input : InternalMetaCallArgs) (digest : Bytes)
      (a : Prepared domain account method_def input digest)
      → hashed_by domain account method_def input
        ≡ ok (hashed_strings domain account input a.arguments a.sig a.hashes)
  Prepared-hashed_by domain account method_def input digest a =
      >>=-next (arguments_of method_def) _ a.has_arguments
      ∙ >>=-next (signature_of_def method_def) _ a.has_sig
      ∙ >>=-next (argument_hashes method_def input) _ a.has_hashes

  -- Two strings that the two meta-transactions hash at the same place differ and have one hash.
  pub record HashesCollide (domain domain' account account' def def' : Bytes)
      (input input' : InternalMetaCallArgs) : Type 0 where
    pub first : List Bytes
    pub second : List Bytes
    pub hashed_first : hashed_by domain account def input ≡ ok first
    pub hashed_second : hashed_by domain' account' def' input' ≡ ok second
    pub collision : Collision c first second

  Prepared-binds :
      (domain domain' account account' def def' : Bytes) (input input' : InternalMetaCallArgs)
      (digest : Bytes) (a : Prepared domain account def input digest)
      (b : Prepared domain' account' def' input' digest)
      → IsWord domain
      → IsWord domain'
      → IsInternalMetaCallArgs input
      → IsInternalMetaCallArgs input'
      → SameCall domain domain' account account' def def' input input'
        ⊎ Collision c
            (hashed_strings domain account input a.arguments a.sig a.hashes)
            (hashed_strings domain' account' input' b.arguments b.sig b.hashes)
  unfolding message_parts
  Prepared-binds domain domain' account account' def def' input input' digest a b hd hd' h h' =
      and_then
        (digest_of-binds p c domain domain' _ _ _ _ hd hd'
          (message_parts-words p c a.arguments account input a.sig
            (c.keccak a.arguments ++ a.hashes) h)
          (message_parts-words p c b.arguments account' input' b.sig
            (c.keccak b.arguments ++ b.hashes) h')
          refl (sym a.is_digest ∙ b.is_digest))
        λ (domains, parts).
          and_then
            (message_parts-binds p c a.arguments b.arguments account account' input input' a.sig
              b.sig _ _ _ _ _ _ h h' parts)
            λ s. inl (record {
              domain_same = domains;
              account_same = s.account_same;
              nonce_same = s.nonce_same;
              fee_amount_same = s.fee_amount_same;
              fee_address_same = s.fee_address_same;
              contract_address_same = s.contract_address_same;
              value_same = s.value_same;
              arguments_same = a.has_arguments ∙ ap ok s.arguments_same ∙ sym b.has_arguments;
              signature_same = a.has_sig ∙ ap ok s.sig_same ∙ sym b.has_sig;
              hashes_same =
                  a.has_hashes
                  ∙ ap ok
                      (append_inj (c.keccak a.arguments) (c.keccak b.arguments)
                        (ap length (ap c.keccak s.arguments_same)) s.arg_bytes_same).1
                  ∙ sym b.has_hashes;
            })

  -- Where two meta-transactions have the same digest, they name the same domain, account, nonce,
  -- fee, addresses and value, the texts of their definitions from the parenthesis on are the same,
  -- and so are the method signatures and the hashes of the arguments, unless two different strings
  -- that the two hash at the same place have the same Keccak hash. The fields have the ranges of
  -- their Rust types, and both domains are words.
  pub prepare_meta_call_args-binds :
      (domain domain' account account' def def' : Bytes) (input input' : InternalMetaCallArgs)
      {digest encoded encoded' : Bytes}
      → IsWord domain
      → IsWord domain'
      → IsInternalMetaCallArgs input
      → IsInternalMetaCallArgs input'
      → prepare_meta_call_args p c m domain account def input ≡ ok (digest, encoded)
      → prepare_meta_call_args p c m domain' account' def' input' ≡ ok (digest, encoded')
      → SameCall domain domain' account account' def def' input input'
        ⊎ HashesCollide domain domain' account account' def def' input input'
  prepare_meta_call_args-binds domain domain' account account' def def' input input' {digest} hd hd'
        h h' e e' =
      let a = prepare_meta_call_args-Prepared domain account def input e in
      let b = prepare_meta_call_args-Prepared domain' account' def' input' e' in
      elim (Prepared-binds domain domain' account account' def def' input input' digest a b hd hd' h
        h') [
          | inl same ↦ inl same
          | inr found ↦ inr (record {
            first = hashed_strings domain account input a.arguments a.sig a.hashes;
            second = hashed_strings domain' account' input' b.arguments b.sig b.hashes;
            hashed_first = Prepared-hashed_by domain account def input digest a;
            hashed_second = Prepared-hashed_by domain' account' def' input' digest b;
            collision = found;
          })
        ]

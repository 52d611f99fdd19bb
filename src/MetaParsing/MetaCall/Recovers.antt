-- ===== src/MetaParsing/MetaCall/Recovers.antt =====
-- What a successful `parse_meta_call` of src/meta_parsing.rs has checked.
use mathlib.Core.Path.{subst}
use aurora_engine.Prelude.{
  ◌≡◌, refl, sym, ◌∙◌, ap, arith, Option, some, none, [], ◌∷◌, ◌++◌, ok, panic, abort, ok_or,
  >>=-ok, ok_inj, ok_or-ok, Bytes, length, replicate, ◌==◌, if◌then◌else◌, argument_parse_error,
}
use aurora_engine.Packages.{Primitives, Crypto, Codec}
use aurora_engine.Parameters.{MetaCallArgs, IsMetaCallArgs}
use aurora_engine.Types.{InternalMetaCallArgs}
use aurora_engine.Precompiles.{ecrecover}
use aurora_engine.MetaParsing.Syntax.{MetaPackages}
use aurora_engine.MetaParsing.MetaCall.{
  prepare_meta_call_args, unsigned_call, signed_call, signature_of, parse_meta_call,
}

module _ (p : Primitives) (c : Crypto) (m : MetaPackages)
    (codec : Codec MetaCallArgs IsMetaCallArgs) where
  -- The arguments read from `args` are those of `result`, and `result` names the account whose key
  -- signed their digest.
  pub record IsSignedCall (domain account args : Bytes) (result : InternalMetaCallArgs)
      : Type 0 where
    pub meta_tx : MetaCallArgs
    pub digest : Bytes
    pub reads : codec.from_slice args ≡ some meta_tx
    pub nonce : p.from_big_endian meta_tx.nonce ≡ ok result.nonce
    pub fee_amount : p.from_big_endian meta_tx.fee_amount ≡ ok result.fee_amount
    pub value : p.from_big_endian meta_tx.value ≡ ok result.value
    pub fee_address : meta_tx.fee_address ≡ result.fee_address
    pub contract_address : meta_tx.contract_address ≡ result.contract_address
    pub prepared :
        prepare_meta_call_args p c m domain account meta_tx.method_def
          (record result { sender = replicate 20 0; input = meta_tx.args })
        ≡ ok (digest, result.input)
    pub recovered :
        ecrecover p c digest (meta_tx.signature ++ meta_tx.v ∷ []) ≡ ok (some result.sender)

  from_slice-same : (b : Bytes) {a : Bytes} → p.h256_from_slice b ≡ ok a → b ≡ a
  from_slice-same b {a} e =
      let read : (if length b == 32 then ok b else panic abort) ≡ ok a =
        sym (p.h256_from_slice_lem b) ∙ e in
      ground arith

  signature_of-append :
      (t : MetaCallArgs) → IsMetaCallArgs t → signature_of t ≡ t.signature ++ t.v ∷ []
  signature_of-append t h = rw (h.signature_length) refl

  record IsUnsigned (t : MetaCallArgs) (call : InternalMetaCallArgs) : Type 0 where
    nonce : p.from_big_endian t.nonce ≡ ok call.nonce
    fee_amount : p.from_big_endian t.fee_amount ≡ ok call.fee_amount
    value : p.from_big_endian t.value ≡ ok call.value
    fee_address : t.fee_address ≡ call.fee_address
    contract_address : t.contract_address ≡ call.contract_address
    blank : record call { sender = replicate 20 0; input = t.args } ≡ call

  unsigned_call-IsUnsigned :
      (t : MetaCallArgs) {call : InternalMetaCallArgs}
      → unsigned_call p c m t ≡ ok call
      → IsUnsigned t call
  unsigned_call-IsUnsigned t e =
      let (nonce, e1, r1) = >>=-ok (p.from_big_endian t.nonce) _ e in
      let (fee, e2, r2) = >>=-ok (p.from_big_endian t.fee_amount) _ r1 in
      let (value, e3, r3) = >>=-ok (p.from_big_endian t.value) _ r2 in
      subst (IsUnsigned t) (ok_inj r3) (record {
        nonce = e1;
        fee_amount = e2;
        value = e3;
        fee_address = refl;
        contract_address = refl;
        blank = refl;
      })

  IsSignedCall-unsigned :
      (domain account args : Bytes) (t : MetaCallArgs) (call : InternalMetaCallArgs)
      (digest input sender : Bytes)
      → codec.from_slice args ≡ some t
      → IsUnsigned t call
      → prepare_meta_call_args p c m domain account t.method_def call ≡ ok (digest, input)
      → ecrecover p c digest (signature_of t) ≡ ok (some sender)
      → IsSignedCall domain account args (record call { sender = sender; input = input })
  IsSignedCall-unsigned domain account args t call digest input sender read u prepared recovered =
      record {
        meta_tx = t;
        digest = digest;
        reads = read;
        nonce = u.nonce;
        fee_amount = u.fee_amount;
        value = u.value;
        fee_address = u.fee_address;
        contract_address = u.contract_address;
        prepared = ap (prepare_meta_call_args p c m domain account t.method_def) u.blank ∙ prepared;
        recovered =
            ap (ecrecover p c digest)
              (sym (signature_of-append t (codec.from_slice-IsValue args read)))
            ∙ recovered;
      }

  signed_call-some :
      (result : InternalMetaCallArgs) (input : Bytes) (sender : Option Bytes)
      {r : InternalMetaCallArgs}
      → signed_call result input sender ≡ ok r
      → (s : Bytes) × (sender ≡ some s) × (record result { sender = s; input = input } ≡ r)
  signed_call-some result input none e = cc e
  signed_call-some result input (some s) e = (s, refl, ok_inj e)

  -- Whatever `parse_meta_call` returns has been signed: its fields are those of the arguments read,
  -- and its sender is the one that `ecrecover` finds for their digest in this domain, from the 64
  -- bytes of the signature followed by `v`; its input is the call data prepared with the digest.
  pub parse_meta_call-IsSignedCall :
      (domain account args : Bytes) {result : InternalMetaCallArgs}
      → parse_meta_call p c m codec domain account args ≡ ok result
      → IsSignedCall domain account args result
  unfolding parse_meta_call
  parse_meta_call-IsSignedCall domain account args e =
      let (t, e1, r1) = >>=-ok (ok_or (codec.from_slice args) argument_parse_error) _ e in
      let (call, e2, r2) = >>=-ok (unsigned_call p c m t) _ r1 in
      let ((digest, input), e3, r3) =
        >>=-ok (prepare_meta_call_args p c m domain account t.method_def call) _ r2 in
      let (hash, e4, r4) = >>=-ok (p.h256_from_slice digest) _ r3 in
      let (found, e5, r5) = >>=-ok (ecrecover p c hash (signature_of t)) _ r4 in
      let (sender, e6, same) = signed_call-some call input found r5 in
      let recovered : ecrecover p c digest (signature_of t) ≡ ok (some sender) =
        ap (λ h. ecrecover p c h (signature_of t)) (from_slice-same digest e4) ∙ e5 ∙ ap ok e6 in
      subst (IsSignedCall domain account args) same (
        IsSignedCall-unsigned domain account args t call digest input sender
          (ok_or-ok (codec.from_slice args) argument_parse_error e1) (unsigned_call-IsUnsigned t e2)
          e3 recovered)

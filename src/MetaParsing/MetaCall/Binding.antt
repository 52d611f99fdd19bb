-- ===== src/MetaParsing/MetaCall/Binding.antt =====
-- What a signature binds: the digest of `prepare_meta_call_args` in src/meta_parsing.rs.
use aurora_engine.Prelude.{
  ℕ, ◌<◌, ◌≡◌, ◌≢◌, ◌⊎◌, inl, inr, refl, sym, ◌∙◌, ap, arith, List, [], ◌∷◌, ◌++◌, ok, Bytes, All,
  some, length, get_elem?, replicate, length-append, append_inj, bytes_eq, bytes_eq_iff, Bool-cases,
}
use aurora_engine.Packages.{Primitives, Crypto, IsWord, IsAddress, u256_mod}
use aurora_engine.Types.{InternalMetaCallArgs, u256_to_arr}
use aurora_engine.MetaParsing.Hashing.{concat, encode_address}
use aurora_engine.MetaParsing.MetaCall.{near_tx, message_parts, digest_of}

-- Two different byte strings at the same place of two lists, with one hash.
pub record Collision (c : Crypto) (xs ys : List Bytes) : Type 0 where
  pub place : ℕ
  pub a : Bytes
  pub b : Bytes
  pub in_first : get_elem? xs place ≡ some a
  pub in_second : get_elem? ys place ≡ some b
  pub different : a ≢ b
  pub same_hash : c.keccak a ≡ c.keccak b

-- The ranges of the Rust types.
pub record IsInternalMetaCallArgs (input : InternalMetaCallArgs) : Type 0 where
  pub nonce_u256 : input.nonce < u256_mod
  pub fee_amount_u256 : input.fee_amount < u256_mod
  pub value_u256 : input.value < u256_mod
  pub fee_address_address : IsAddress input.fee_address
  pub contract_address_address : IsAddress input.contract_address

pub and_then : {P Q C : Type 0} → (P ⊎ C) → (P → Q ⊎ C) → Q ⊎ C
and_then (inl p) f = f p
and_then (inr c) f = inr c

concat-words :
    (xs ys : List Bytes)
    → All IsWord xs
    → All IsWord ys
    → length xs ≡ length ys
    → concat xs ≡ concat ys
    → xs ≡ ys
concat-words [] [] hx hy h e = refl
concat-words [] (y ∷ ys) hx hy h e = absurd (omega arith)
concat-words (x ∷ xs) [] hx hy h e = absurd (omega arith)
concat-words (x ∷ xs) (y ∷ ys) (hx, hxs) (hy, hys) h e =
    let (same, rest) = append_inj x y (hx ∙ sym hy) e in
    let tails : xs ≡ ys = concat-words xs ys hxs hys (omega arith) rest in cc (same, tails)

module _ (p : Primitives) (c : Crypto) where
  -- Strings at the same place that have one hash are the same, or collide.
  keccak_inj :
      (xs ys : List Bytes) (i : ℕ) (a b : Bytes)
      → get_elem? xs i ≡ some a
      → get_elem? ys i ≡ some b
      → c.keccak a ≡ c.keccak b
      → (a ≡ b) ⊎ Collision c xs ys
  keccak_inj xs ys i a b ha hb e = elim (Bool-cases (bytes_eq a b)) [
    | inl same ↦ inl ((bytes_eq_iff a b).0 same)
    | inr other ↦ inr (record {
      place = i;
      a = a;
      b = b;
      in_first = ha;
      in_second = hb;
      different = λ same. cc (other, (bytes_eq_iff a b).1 same);
      same_hash = e;
    })
  ]

  abbrev pub digest_preimage : Bytes → List Bytes → Bytes
  digest_preimage domain parts = 0x19 ∷ 0x01 ∷ domain ++ c.keccak (concat parts)

  u256_to_arr_inj :
      (n k : ℕ) → n < u256_mod → k < u256_mod → u256_to_arr p n ≡ u256_to_arr p k → n ≡ k
  u256_to_arr_inj n k hn hk e =
      let read : ok n ≡ ok k =
        sym (p.from-to_big_endian n hn) ∙ ap p.from_big_endian e ∙ p.from-to_big_endian k hk in
      cc read

  encode_address-IsWord : (a : Bytes) → IsAddress a → IsWord (encode_address a)
  encode_address-IsWord a h = omega (arith, length-append (replicate {A = ℕ} 12 0) a)

  encode_address_inj : (a b : Bytes) → encode_address a ≡ encode_address b → a ≡ b
  encode_address_inj a b e = (append_inj (replicate 12 0) (replicate 12 0) refl e).1

  pub digest_of-binds :
      (domain domain' : Bytes) (parts parts' others others' : List Bytes)
      → IsWord domain
      → IsWord domain'
      → All IsWord parts
      → All IsWord parts'
      → length parts ≡ length parts'
      → digest_of p c domain parts ≡ digest_of p c domain' parts'
      → ((domain ≡ domain') × (parts ≡ parts'))
        ⊎ Collision c
            (digest_preimage domain parts ∷ concat parts ∷ others)
            (digest_preimage domain' parts' ∷ concat parts' ∷ others')
  unfolding digest_of
  digest_of-binds domain domain' parts parts' others others' h h' hp hp' l e =
      and_then
        (keccak_inj _ _ 0 (digest_preimage domain parts) (digest_preimage domain' parts') refl refl
          e)
        λ whole.
          let (domains, messages) = append_inj domain domain' (h ∙ sym h') (cc whole) in
          and_then (keccak_inj _ _ 1 (concat parts) (concat parts') refl refl messages)
            λ same. inl (domains, concat-words parts parts' hp hp' l same)

  -- The fields of a meta-transaction, as far as its digest goes.
  pub record SameMessage (arguments arguments' account account' : Bytes)
      (input input' : InternalMetaCallArgs) (sig sig' arg_bytes arg_bytes' : Bytes) : Type 0 where
    pub arguments_same : arguments ≡ arguments'
    pub account_same : account ≡ account'
    pub nonce_same : input.nonce ≡ input'.nonce
    pub fee_amount_same : input.fee_amount ≡ input'.fee_amount
    pub fee_address_same : input.fee_address ≡ input'.fee_address
    pub contract_address_same : input.contract_address ≡ input'.contract_address
    pub value_same : input.value ≡ input'.value
    pub sig_same : sig ≡ sig'
    pub arg_bytes_same : arg_bytes ≡ arg_bytes'

  pub message_parts-words :
      (arguments account : Bytes) (input : InternalMetaCallArgs) (sig arg_bytes : Bytes)
      → IsInternalMetaCallArgs input
      → All IsWord (message_parts p c arguments account input sig arg_bytes)
  unfolding message_parts
  message_parts-words arguments account input sig arg_bytes h = (
    c.length-keccak _,
    (
      c.length-keccak _,
      (
        p.length-to_big_endian _,
        (
          p.length-to_big_endian _,
          (
            encode_address-IsWord input.fee_address h.fee_address_address,
            (
              encode_address-IsWord input.contract_address h.contract_address_address,
              (p.length-to_big_endian _, (c.length-keccak _, (c.length-keccak _, tt))),
            ),
          ),
        ),
      ),
    ),
  )

  pub message_parts-binds :
      (arguments arguments' account account' : Bytes) (input input' : InternalMetaCallArgs)
      (sig sig' arg_bytes arg_bytes' u u' v v' : Bytes)
      → IsInternalMetaCallArgs input
      → IsInternalMetaCallArgs input'
      → message_parts p c arguments account input sig arg_bytes
        ≡ message_parts p c arguments' account' input' sig' arg_bytes'
      → SameMessage arguments arguments' account account' input input' sig sig' arg_bytes arg_bytes'
        ⊎ Collision c
            (u ∷ v ∷ (near_tx ++ arguments) ∷ account ∷ sig ∷ arg_bytes ∷ [])
            (u' ∷ v' ∷ (near_tx ++ arguments') ∷ account' ∷ sig' ∷ arg_bytes' ∷ [])
  unfolding message_parts
  message_parts-binds arguments arguments' account account' input input' sig sig' arg_bytes
        arg_bytes' u u' v v' h h' e =
      and_then (keccak_inj _ _ 2 (near_tx ++ arguments) (near_tx ++ arguments') refl refl (cc e))
        λ types. and_then (keccak_inj _ _ 3 account account' refl refl (cc e)) λ accounts.
          and_then (keccak_inj _ _ 4 sig sig' refl refl (cc e)) λ sigs.
            and_then (keccak_inj _ _ 5 arg_bytes arg_bytes' refl refl (cc e)) λ hashes.
              inl (record {
                arguments_same = (append_inj near_tx near_tx refl types).1;
                account_same = accounts;
                nonce_same =
                    u256_to_arr_inj input.nonce input'.nonce h.nonce_u256 h'.nonce_u256 (cc e);
                fee_amount_same =
                    u256_to_arr_inj input.fee_amount input'.fee_amount h.fee_amount_u256
                      h'.fee_amount_u256 (cc e);
                fee_address_same = encode_address_inj input.fee_address input'.fee_address (cc e);
                contract_address_same =
                    encode_address_inj input.contract_address input'.contract_address (cc e);
                value_same =
                    u256_to_arr_inj input.value input'.value h.value_u256 h'.value_u256 (cc e);
                sig_same = sigs;
                arg_bytes_same = hashes;
              })

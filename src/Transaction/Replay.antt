-- ===== src/Transaction/Replay.antt =====
-- The signature values of src/transaction.rs, and the chain that they are for.
use aurora_engine.Prelude.{
  ℕ, ◌+◌, ◌*◌, ◌-◌, ◌/◌, ◌%◌, ◌≤◌, ◌≡◌, refl, sym, ◌∙◌, arith, some, [], ◌∷◌, ◌++◌, append_assoc,
  splice, splice-append, length, replicate, length-append,
}
use aurora_engine.Packages.{Primitives, Crypto}
use aurora_engine.Precompiles.{ecrecover}
use aurora_engine.Transaction.Rlp.{Rlp, integer}
use aurora_engine.Transaction.{
  EthSignedTransaction, fields, rlp_append_unsigned, chain_id, chain_and_rec_id, vrs_to_arr, sender,
}

-- `r`, `s` and `v`, one behind the other.
vrs_to_arr-append :
    (p : Primitives) (v r s : ℕ)
    → vrs_to_arr p v r s ≡ p.to_big_endian r ++ (p.to_big_endian s ++ v ∷ [])
unfolding vrs_to_arr
vrs_to_arr-append p v r s =
    let R = p.to_big_endian r in
    let S = p.to_big_endian s in
    let first : splice (replicate 65 0) 0 R ≡ R ++ replicate 33 0 =
      splice-append [] (replicate 65 0) R 0 refl ∙ rw (p.length-to_big_endian r) refl in
    let second : splice (R ++ replicate 33 0) 32 S ≡ R ++ (S ++ 0 ∷ []) =
      splice-append R (replicate 33 0) S 32 (sym (p.length-to_big_endian r))
      ∙ rw (p.length-to_big_endian s) refl in
    let both : length (R ++ S) ≡ 64 =
      omega (arith, length-append R S, p.length-to_big_endian r, p.length-to_big_endian s) in
    rw (first, second, ← append_assoc R S (0 ∷ []))
      (splice-append (R ++ S) (0 ∷ []) (v ∷ []) 64 (sym both) ∙ append_assoc R S (v ∷ []))

chain_and_rec_id_of_chain :
    (chain y : ℕ) → y ≤ 1 → chain_and_rec_id (2 * chain + 35 + y) ≡ some (some chain, y)
unfolding chain_and_rec_id
chain_and_rec_id_of_chain chain y h =
    let quotient : (2 * chain + 35 + y - 35) / 2 ≡ chain = omega arith in
    let remainder : (2 * chain + 35 + y - 35) % 2 ≡ y = omega arith in
    ground (arith, quotient, remainder)

chain_of_v :
    (t : EthSignedTransaction) (chain : ℕ)
    → 35 ≤ t.v
    → (t.v - 35) / 2 ≡ chain
    → chain_id t ≡ some chain
unfolding chain_id
chain_of_v t chain h e = ground arith

module _ (p : Primitives) (c : Crypto) (rlp : Rlp) where
  -- A transaction with the `v` of EIP-155 for a chain and a parity says that it is for this chain,
  -- and its sender is the one whose key signed the transaction's fields followed by the chain, 0 and
  -- 0: the signature is `r`, `s` and the parity, and none other is tried.
  pub sender_of_chain :
      (t : EthSignedTransaction) (chain y : ℕ)
      → y ≤ 1
      → t.v ≡ 2 * chain + 35 + y
      → (chain_id t ≡ some chain)
        × (sender p c rlp t
            ≡ ecrecover p c
                (c.keccak (
                  rlp.as_raw (record {
                    announced = 9;
                    items = fields t.transaction ++ integer chain ∷ integer 0 ∷ integer 0 ∷ [];
                  })))
                (p.to_big_endian t.r ++ (p.to_big_endian t.s ++ y ∷ [])))
  unfolding chain_id sender rlp_append_unsigned
  sender_of_chain t chain y h e = (
    chain_of_v t chain (omega arith) (omega arith),
    rw (e, chain_and_rec_id_of_chain chain y h, vrs_to_arr-append p y t.r t.s) refl,
  )

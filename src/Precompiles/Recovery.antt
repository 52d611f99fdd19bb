-- ===== src/Precompiles/Recovery.antt =====
-- `ecrecover` of src/precompiles.rs.
use aurora_engine.Prelude.{
  ℕ, ◌+◌, ◌≡◌, ◌≤◌, refl, ap, Option, none, some, [], ◌∷◌, ◌++◌, Outcome, ok, ◌>>=◌, expect, Bytes,
  length, length-append, slice-ok, slice-append, get_elem?, arith, if◌then◌else◌, ltb,
}
use aurora_engine.Packages.{Primitives, Crypto, IsAddress}
use aurora_engine.Precompiles.{recovery_bit, recovered, address_of_key, ecrecover}

get_elem?-append : (pre : Bytes) (x : ℕ) → get_elem? (pre ++ x ∷ []) (length pre) ≡ some x
get_elem?-append [] x = refl
get_elem?-append (y ∷ pre) x = get_elem?-append pre x

module _ (p : Primitives) (c : Crypto) where
  -- The key that the parsed signature and the identifier recover, as an address.
  abbrev recover_with : Bytes → Bytes → ℕ → Outcome (Option Bytes)
  recover_with hash rs v = do
    parsed ← expect (c.parse_signature rs)
    if ltb v 4 then recovered p c (c.recover hash parsed v) else ok none

  -- On 65 bytes the assertion and the reads succeed.
  ecrecover-split :
      (hash rs : Bytes) (v : ℕ)
      → length rs ≡ 64
      → ecrecover p c hash (rs ++ v ∷ []) ≡ recover_with hash rs (recovery_bit v)
  unfolding ecrecover
  ecrecover-split hash rs v h =
      rw
        (
          length-append rs (v ∷ []),
          h,
          (rw h at (get_elem?-append rs v)),
          slice-append [] rs (v ∷ []) 0 64 refl (omega (arith, h)),
        )
        (simp c.parse_recovery_id_lem)

  -- For a 64-byte `r ‖ s`, a `v` of 27 or more means what the identifier 27 below it means, up to 26:
  -- the result, success or not, is the same.
  pub ecrecover_shift :
      (hash rs : Bytes) (v : ℕ)
      → length rs ≡ 64
      → v ≤ 26
      → ecrecover p c hash (rs ++ (v + 27) ∷ []) ≡ ecrecover p c hash (rs ++ v ∷ [])
  ecrecover_shift hash rs v h small =
      rw (ecrecover-split hash rs (v + 27) h, ecrecover-split hash rs v h)
        (ap (recover_with hash rs) (ground arith))

  address_of_key-IsAddress :
      (key : Bytes)
      → length key ≡ 65
      → (a : Bytes) × (address_of_key p c key ≡ ok (some a)) × IsAddress a
  unfolding address_of_key
  address_of_key-IsAddress key h =
      let (raw, sliced, _) = slice-ok key 1 (length key) (omega arith) (omega arith) in
      let digest = c.keccak raw in
      let (tail, cut, size) =
        slice-ok digest 12 (length digest) (omega (arith, c.length-keccak raw)) (omega arith) in
      let twenty : length tail ≡ 20 = omega (arith, c.length-keccak raw) in
      (tail, rw (sliced, cut, p.h160_from_slice_lem tail, twenty) refl, twenty)

-- ===== src/Precompiles/Dispatch.antt =====
-- `istanbul_precompiles` and `ecrecover_raw` of src/precompiles.rs.
use aurora_engine.Prelude.{
  ◌≡◌, panic, abort, Bytes, length, drop, slice-ok, copy_from_slice-ok, copy_from_slice_mismatch,
  arith, Bool-cases, inl, inr, replicate, ◌==◌,
}
use aurora_engine.Packages.{Primitives, Crypto, IsAddress}
use aurora_engine.Precompiles.{ecrecover_raw, istanbul_precompiles}

module _ (p : Primitives) (c : Crypto) where
  -- The precompile that recovers signers panics on every input: one of another length than 128
  -- fails the assertion, and of 128 bytes the 64 from `r` on are copied into the 32 of `r`.
  pub ecrecover_raw_panics : (input : Bytes) → ecrecover_raw p c input ≡ panic abort
  unfolding ecrecover_raw
  ecrecover_raw_panics input = elim (Bool-cases (length input == 128)) [
    | inr other ↦ rw other
    | inl exact ↦
        let (hash, sliced, size) = slice-ok input 0 32 (omega arith) (ground arith) in
        let (_, copied, _) =
          copy_from_slice-ok (replicate 32 0) 0 32 hash (omega arith) (omega arith) size in
        let (long, rest, size') = slice-ok input 64 (length input) (ground arith) (omega arith) in
        rw (
          exact,
          sliced,
          copied,
          rest,
          copy_from_slice_mismatch (replicate 65 0) 0 32 long (ground arith),
        )
  ]

  -- Only the last 8 bytes of an address choose a precompiled contract: two addresses that agree in
  -- them are answered alike, whatever their first 12 bytes.
  pub istanbul_precompiles_low :
      (a b input : Bytes)
      → IsAddress a
      → IsAddress b
      → drop 12 a ≡ drop 12 b
      → istanbul_precompiles p c a input ≡ istanbul_precompiles p c b input
  unfolding istanbul_precompiles
  istanbul_precompiles_low a b input ha hb e =
      rw (p.to_low_u64_be_lem a ha, p.to_low_u64_be_lem b hb, e)

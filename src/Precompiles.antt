-- ===== src/Precompiles.antt =====
-- src/precompiles.rs: signature recovery and the precompiled contracts.
pub mod Recovery
pub mod Dispatch
pub mod Unfinished
use aurora_engine.Prelude.{
  ℕ, suc, ◌-◌, ◌≡◌, Option, none, some, Bool, true, false, [], ◌∷◌, ◌++◌, Outcome, ok, panic, abort,
  ◌>>=◌, ◌>>◌, expect, Bytes, length, get_elem?, replicate, leb, ltb, ◌==◌, if◌then◌else◌, slice,
  copy_from_slice, bytes_eq, ◌&&◌,
}
use aurora_engine.Packages.{Primitives, Crypto}
use aurora_engine.Evm.{Precompiles}

-- `assert_eq!(a, b)` on numbers.
abbrev pub assert_eq : ℕ → ℕ → Outcome (Unit {0})
assert_eq a b = if a == b then ok tt else panic abort

-- The recovery identifier that a `v` stands for.
abbrev pub recovery_bit : ℕ → ℕ
recovery_bit v = if leb v 26 then v else v - 27

module _ (p : Primitives) (c : Crypto) where
  -- `Address::from_slice(&Keccak256::digest(&key[1..])[12..])`
  address_of_key : Bytes → Outcome (Option Bytes)
  address_of_key key = do
    raw ← slice key 1 (length key)
    tail ← slice (c.keccak raw) 12 (length (c.keccak raw))
    address ← p.h160_from_slice tail
    ok (some address)

  recovered : Option Bytes → Outcome (Option Bytes)
  recovered none = ok none
  recovered (some key) = address_of_key key

  -- `none` is `Err(ExitError::Other("invalid ECDSA signature"))`.
  unfoldable pub ecrecover : Bytes → Bytes → Outcome (Option Bytes)
  unfolding recovered address_of_key
  ecrecover hash signature = do
    assert_eq (length signature) 65
    v ← expect (get_elem? signature 64)
    rs ← slice signature 0 64
    parsed ← expect (c.parse_signature rs)
    let bit = recovery_bit v
    if c.parse_recovery_id bit then recovered (c.recover hash parsed bit) else ok none

  is_signer : Bytes → Option Bytes → Bool
  is_signer signer none = false
  is_signer signer (some s) = bytes_eq s signer

  pub ecverify : Bytes → Bytes → Bytes → Outcome Bool
  ecverify hash signature signer = do r ← ecrecover hash signature; ok (is_signer signer r)

  -- `.unwrap_or_else(|_| Address::zero())`
  abbrev or_zero : Option Bytes → Bytes
  or_zero none = replicate 20 0
  or_zero (some a) = a

  unfoldable pub ecrecover_raw : Bytes → Outcome Bytes
  ecrecover_raw input = do
    assert_eq (length input) 128
    first ← slice input 0 32
    hash ← copy_from_slice (replicate 32 0) 0 32 first
    from_64 ← slice input 64 (length input)
    with_r ← copy_from_slice (replicate 65 0) 0 32 from_64
    from_96 ← slice input 96 (length input)
    with_s ← copy_from_slice with_r 32 64 from_96
    v ← expect (get_elem? input 63)
    signature ← copy_from_slice with_s 64 65 (v ∷ [])
    r ← ecrecover hash signature
    ok (or_zero r)

  abbrev pub sha256 : Bytes → Bytes
  sha256 input = c.sha256 input

  abbrev pub ripemd160 : Bytes → Bytes
  ripemd160 input = c.ripemd160 input

  abbrev pub identity : Bytes → Bytes
  identity input = input

  -- The successful answers cost nothing.
  abbrev returned : Outcome Bytes → Option (Outcome (Bytes × ℕ))
  returned r = some (r >>= λ output. ok (output, 0))

  unfoldable pub istanbul_precompiles : Precompiles
  istanbul_precompiles address input =
      let id = p.to_low_u64_be address in
      if id == 1
      then returned (ecrecover_raw input)
      else if id == 2
      then returned (ok (sha256 input))
      else if id == 3
      then returned (ok (ripemd160 input))
      else if id == 4
      then returned (ok (identity input))
      else if leb 5 id && leb id 9
      then some (panic abort)
      else none

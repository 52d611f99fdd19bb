-- ===== src/Json/Casts.antt =====
-- The numbers that src/json.rs reads through an `f64`.
use aurora_engine.Prelude.{
  ℕ, zero, suc, ◌-◌, ◌*◌, ◌/◌, ◌%◌, ◌^◌, ◌<◌, ◌≡◌, ◌⊎◌, inl, inr, refl, arith, true, false, some,
  Bytes, leb, Bool-cases, bytes_eq_refl,
}
use native.Mathlib.Nat.{pow-suc, mul_assoc, mul-mod_left, div-le_self, one-le-pow}
use aurora_engine.Json.{
  F64, nan, infinite, scaled, fraction, saturate, cast, JsonValue, object, field, empty, get,
}
use aurora_engine.Json.Reading.{member, number_of, u64, u128}

-- A mantissa has 53 bits.
abbrev pub IsDouble : F64 → Type 0
IsDouble (scaled negative m k) = m < 2 ^ 53
IsDouble (fraction negative m k) = m < 2 ^ 53
IsDouble _ = Unit

-- What a number read can be: small, even, or the maximum of its type, and never beyond that.
abbrev pub IsCoarse : ℕ → ℕ → Type 0
IsCoarse width n = (n < 2 ^ width) × ((n < 2 ^ 53) ⊎ (n % 2 ≡ 0) ⊎ (n ≡ 2 ^ width - 1))

zero-IsCoarse : (width : ℕ) → IsCoarse width 0
zero-IsCoarse width = (omega (arith, one-le-pow width 2 (omega arith)), inl (omega arith))

most-IsCoarse : (width : ℕ) → IsCoarse width (2 ^ width - 1)
most-IsCoarse width = (omega (arith, one-le-pow width 2 (omega arith)), inr (inr refl))

saturate-IsCoarse : (width n : ℕ) → (n < 2 ^ 53) ⊎ (n % 2 ≡ 0) → IsCoarse width (saturate width n)
saturate-IsCoarse width n h = elim (Bool-cases (leb (2 ^ width) n)) [
  | inl e ↦ rw e (most-IsCoarse width)
  | inr e ↦ rw e (ground arith, elim h [ inl small ↦ inl small | inr even ↦ inr (inl even) ])
]

even-mul_pow : (m k : ℕ) → (m * 2 ^ suc k) % 2 ≡ 0
even-mul_pow m k = rw (pow-suc 2 k, ← mul_assoc m (2 ^ k) 2) (mul-mod_left (m * 2 ^ k) 2)

cast-IsCoarse : (width : ℕ) (n : F64) → IsDouble n → IsCoarse width (cast width n)
unfolding cast
cast-IsCoarse width nan h = zero-IsCoarse width
cast-IsCoarse width (infinite true) h = zero-IsCoarse width
cast-IsCoarse width (infinite false) h = most-IsCoarse width
cast-IsCoarse width (scaled true m k) h = zero-IsCoarse width
cast-IsCoarse width (scaled false m zero) h =
    saturate-IsCoarse width (m * 2 ^ 0) (inl (omega arith))
cast-IsCoarse width (scaled false m (suc k)) h =
    saturate-IsCoarse width (m * 2 ^ suc k) (inr (even-mul_pow m k))
cast-IsCoarse width (fraction true m k) h = zero-IsCoarse width
cast-IsCoarse width (fraction false m k) h =
    saturate-IsCoarse width (m / 2 ^ k) (inl (omega (arith, div-le_self m (2 ^ k))))

small-cast : (width n : ℕ) → n < 2 ^ 53 → n < 2 ^ width → cast width (scaled false n 0) ≡ n
unfolding cast
small-cast width n h k = ground arith

-- A number of an object that is read as a `u64` or a `u128` is below 2 ^ 64 or 2 ^ 128, and small
-- (below 2 ^ 53), even, or the maximum: no large odd number but the maximum can be read, whatever
-- number the object has. A whole number below 2 ^ 53 in an object is read as it is.
pub u64-u128-IsCoarse :
    (v : JsonValue) (key : Bytes) (n : F64) (m : ℕ)
    → member v key ≡ some (JsonValue.number n)
    → IsDouble n
    → m < 2 ^ 53
    → ((a : ℕ) × (u64 v key ≡ some a) × IsCoarse 64 a)
      × ((b : ℕ) × (u128 v key ≡ some b) × IsCoarse 128 b)
      × (u64 (object (field key (JsonValue.number (scaled false m 0)) empty)) key ≡ some m)
      × (u128 (object (field key (JsonValue.number (scaled false m 0)) empty)) key ≡ some m)
unfolding get
u64-u128-IsCoarse v key n m e d small =
    let read : (width : ℕ) → number_of width (member v key) ≡ some (cast width n) =
      λ width. rw e refl in
    (
      (cast 64 n, read 64, cast-IsCoarse 64 n d),
      (cast 128 n, read 128, cast-IsCoarse 128 n d),
      rw (bytes_eq_refl key, small-cast 64 m small (omega arith)) refl,
      rw (bytes_eq_refl key, small-cast 128 m small (omega arith)) refl,
    )

-- ===== src/Prelude/Arrays.antt =====
-- Writes into a Rust array or slice, and the integer views of byte arrays that the standard
-- library has.
use Prim.Native.Nat.{ℕ, zero, suc, ◌+◌, ◌-◌, ◌*◌, ◌/◌, ◌%◌, ◌^◌, ◌<◌, ◌≤◌}
use mathlib.Core.Logic.{◌≢◌}
use mathlib.Core.Path.{◌≡◌, refl, ap}
use mathlib.Core.Bool.{◌&&◌}
use mathlib.Core.List.{[], ◌∷◌, ◌++◌}
use native.Mathlib.Omega.{arith}
use native.Mathlib.Nat.{pow-suc, zero-add, suc-add}
use aurora_engine.Prelude.Tests.{◌==◌, leb, if◌then◌else◌}
use aurora_engine.Prelude.Lists.{
  length, take, drop, length-append, take-append, drop-append, length-take, length-drop,
}
use aurora_engine.Prelude.ByteStrings.{Bytes}
use aurora_engine.Prelude.Results.{Outcome, ok, panic, abort}

-- `buf[lo..hi]`: a panic where the range is not in `buf`.
unfoldable pub slice : Bytes → ℕ → ℕ → Outcome Bytes
slice buf lo hi =
    if leb lo hi && leb hi (length buf) then ok (take (hi - lo) (drop lo buf)) else panic abort

-- `buf[lo..hi].copy_from_slice(src)`: a panic where the range is not in `buf`, and where `src` has
-- another length than the range.
unfoldable pub copy_from_slice : Bytes → ℕ → ℕ → Bytes → Outcome Bytes
copy_from_slice buf lo hi src =
    if leb lo hi && leb hi (length buf) && length src == hi - lo
    then ok (take lo buf ++ (src ++ drop hi buf))
    else panic abort

-- The same where both lengths are fixed by types, and equal.
abbrev pub splice : Bytes → ℕ → Bytes → Bytes
splice buf lo src = take lo buf ++ (src ++ drop (lo + length src) buf)

-- `u64::from_be_bytes` and `U256`'s reading of a slice: the first byte weighs most.
abbrev pub be_value_from : ℕ → Bytes → ℕ
be_value_from acc [] = acc
be_value_from acc (b ∷ bs) = be_value_from (acc * 256 + b) bs

unfoldable pub be_value : Bytes → ℕ
be_value = be_value_from 0

-- `u64::from_le_bytes`: the first byte weighs least.
unfoldable pub le_value : Bytes → ℕ
le_value [] = 0
le_value (b ∷ bs) = b + 256 * le_value bs

-- `n.to_le_bytes()`, for an integer of `k` bytes.
unfoldable pub le_bytes : ℕ → ℕ → Bytes
le_bytes zero n = []
le_bytes (suc k) n = n % 256 ∷ le_bytes k (n / 256)

pub length-le_bytes : (k n : ℕ) → length (le_bytes k n) ≡ k
unfolding le_bytes
length-le_bytes zero n = refl
length-le_bytes (suc k) n = ap suc (length-le_bytes k (n / 256))

-- `from_le_bytes` undoes `to_le_bytes`.
pub le_value-le_bytes : (k n : ℕ) → n < 256 ^ k → le_value (le_bytes k n) ≡ n
unfolding le_value le_bytes
le_value-le_bytes zero n h = omega arith
le_value-le_bytes (suc k) n h =
    let smaller : n / 256 < 256 ^ k = omega (arith, pow-suc 256 k) in
    omega (arith, le_value-le_bytes k (n / 256) smaller)

drop-add_append : (pre rest : Bytes) (k : ℕ) → drop (length pre + k) (pre ++ rest) ≡ drop k rest
drop-add_append [] rest k = rw zero-add
drop-add_append (x ∷ pre) rest k = rw suc-add (drop-add_append pre rest k)

add_cancel : (n m : ℕ) → n + m - n ≡ m
add_cancel n m = omega arith

-- A write at the end of `pre` replaces what stands behind it.
pub copy_from_slice-append :
    (pre rest src : Bytes) (lo hi : ℕ)
    → lo ≡ length pre
    → hi ≡ lo + length src
    → length src ≤ length rest
    → copy_from_slice (pre ++ rest) lo hi src ≡ ok (pre ++ (src ++ drop (length src) rest))
unfolding copy_from_slice
copy_from_slice-append pre rest src lo hi a b h =
    rw (b, a, take-append, drop-add_append) (ground (arith, length-append pre rest))

pub splice-append :
    (pre rest src : Bytes) (lo : ℕ)
    → lo ≡ length pre
    → splice (pre ++ rest) lo src ≡ pre ++ (src ++ drop (length src) rest)
splice-append pre rest src lo a = rw (a, take-append, drop-add_append) refl

pub slice-append :
    (pre mid post : Bytes) (lo hi : ℕ)
    → lo ≡ length pre
    → hi ≡ lo + length mid
    → slice (pre ++ (mid ++ post)) lo hi ≡ ok mid
unfolding slice
slice-append pre mid post lo hi a b =
    rw (b, a, drop-append, add_cancel, take-append)
      (ground (arith, length-append pre (mid ++ post), length-append mid post))

pub slice-ok :
    (buf : Bytes) (lo hi : ℕ)
    → lo ≤ hi
    → hi ≤ length buf
    → (s : Bytes) × (slice buf lo hi ≡ ok s) × (length s ≡ hi - lo)
unfolding slice
slice-ok buf lo hi h k = (
  take (hi - lo) (drop lo buf),
  ground arith,
  length-take (hi - lo) (drop lo buf) (omega (arith, length-drop lo buf)),
)

pub copy_from_slice-ok :
    (buf : Bytes) (lo hi : ℕ) (src : Bytes)
    → lo ≤ hi
    → hi ≤ length buf
    → length src ≡ hi - lo
    → (s : Bytes) × (copy_from_slice buf lo hi src ≡ ok s) × (length s ≡ length buf)
unfolding copy_from_slice
copy_from_slice-ok buf lo hi src h k l = (
  take lo buf ++ (src ++ drop hi buf),
  ground arith,
  omega (
    arith,
    length-append (take lo buf) (src ++ drop hi buf),
    length-append src (drop hi buf),
    length-take lo buf,
    length-drop hi buf,
  ),
)

pub copy_from_slice_mismatch :
    (buf : Bytes) (lo hi : ℕ) (src : Bytes)
    → length src ≢ hi - lo
    → copy_from_slice buf lo hi src ≡ panic abort
unfolding copy_from_slice
copy_from_slice_mismatch buf lo hi src ne = ground arith

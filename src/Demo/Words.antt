-- ===== src/Demo/Words.antt =====
-- Big-endian words, and hash functions of the right lengths.
use native.Mathlib.Nat.{pow-suc}
use aurora_engine.Prelude.{
  ℕ, zero, suc, ◌^◌, ◌+◌, ◌*◌, ◌/◌, ◌%◌, ◌<◌, ◌≤◌, ◌≡◌, refl, ap, some, [], ◌∷◌, ◌++◌, arith,
  Outcome, ok, panic, abort, Bytes, length, length-append, length-take, length-replicate, take,
  drop, replicate, ltb, ◌==◌, if◌then◌else◌, be_value, be_value_from,
}
use aurora_engine.Packages.{Primitives, Crypto, u256_mod}

unfoldable pub be_bytes : ℕ → ℕ → Bytes
be_bytes zero n = []
be_bytes (suc k) n = be_bytes k (n / 256) ++ (n % 256) ∷ []

pub length-be_bytes : (k n : ℕ) → length (be_bytes k n) ≡ k
unfolding be_bytes
length-be_bytes zero n = refl
length-be_bytes (suc k) n =
    omega
      (arith, length-append (be_bytes k (n / 256)) ((n % 256) ∷ []), length-be_bytes k (n / 256))

be_value_from-append :
    (acc : ℕ) (xs : Bytes) (b : ℕ)
    → be_value_from acc (xs ++ b ∷ []) ≡ be_value_from acc xs * 256 + b
be_value_from-append acc [] b = refl
be_value_from-append acc (x ∷ xs) b = be_value_from-append (acc * 256 + x) xs b

be_value-be_bytes : (k n : ℕ) → n < 256 ^ k → be_value_from 0 (be_bytes k n) ≡ n
unfolding be_bytes
be_value-be_bytes zero n h = omega arith
be_value-be_bytes (suc k) n h =
    let smaller : n / 256 < 256 ^ k = omega (arith, pow-suc 256 k) in
    omega (
      arith,
      be_value_from-append 0 (be_bytes k (n / 256)) (n % 256),
      be_value-be_bytes k (n / 256) smaller,
    )

abbrev pub read_word : Bytes → Outcome ℕ
read_word b = if ltb 32 (length b) then panic abort else ok (be_value b)

pub from-to_word : (n : ℕ) → n < u256_mod → read_word (be_bytes 32 n) ≡ ok n
unfolding be_value
from-to_word n h = rw (length-be_bytes 32 n) (ap ok (be_value-be_bytes 32 n h))

pub read_word_short : (b : Bytes) → length b ≤ 32 → read_word b ≡ ok (be_value b)
read_word_short b h = ground arith

pub read_word_long : (b : Bytes) → 32 < length b → read_word b ≡ panic abort
read_word_long b h = ground arith

abbrev pub primitives : Primitives
primitives = record {
  to_big_endian = be_bytes 32;
  length-to_big_endian = length-be_bytes 32;
  from_big_endian = read_word;
  from-to_big_endian = from-to_word;
  from_big_endian_short = read_word_short;
  from_big_endian_long = read_word_long;
  h160_from_slice = λ b. if length b == 20 then ok b else panic abort;
  h160_from_slice_lem = λ b. refl;
  h256_from_slice = λ b. if length b == 32 then ok b else panic abort;
  h256_from_slice_lem = λ b. refl;
  to_low_u64_be = λ a. be_value (drop 12 a);
  to_low_u64_be_lem = λ a h. refl;
}

abbrev pub pad : ℕ → Bytes → Bytes
pad k b = take k (b ++ replicate k 0)

pub length-pad : (k : ℕ) (b : Bytes) → length (pad k b) ≡ k
length-pad k b =
    length-take k (b ++ replicate k 0)
      (omega (arith, length-append b (replicate k 0), length-replicate {A = ℕ} k 0))

pub recover_length : (v : ℕ) {key : Bytes} → some (replicate 65 v) ≡ some key → length key ≡ 65
recover_length v {key} e = let same : replicate 65 v ≡ key = cc e in rw (← same) refl

abbrev pub crypto : Crypto
crypto = record {
  keccak = pad 32;
  sha256 = pad 32;
  ripemd160 = pad 20;
  length-keccak = length-pad 32;
  length-sha256 = length-pad 32;
  length-ripemd160 = length-pad 20;
  parse_signature = some;
  parse_recovery_id = λ v. ltb v 4;
  parse_recovery_id_lem = λ v. refl;
  recover = λ m s v. some (replicate 65 v);
  length-recover = λ m s v e. recover_length v e;
}

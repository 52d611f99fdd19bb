-- ===== src/Packages.antt =====
-- What the engine takes from packages outside the repository, as records of operations with their
-- documented behaviour: primitive-types (`U256`, `H160`, `H256`), the hash functions of sha3, sha2
-- and ripemd160 or of the NEAR host, libsecp256k1, and the codecs that borsh derives.
use aurora_engine.Prelude.{
  ℕ, ◌^◌, ◌<◌, ◌≤◌, ◌≡◌, Bool, Option, some, length, drop, Bytes, Outcome, ok, panic, abort, ◌==◌,
  ltb, if◌then◌else◌, be_value,
}

-- `U256` is a number below `2 ^ 256`, `H160` (an address) a list of 20 bytes, `H256` one of 32.
abbrev pub u256_mod : ℕ
u256_mod = 2 ^ 256

abbrev pub u64_mod : ℕ
u64_mod = 2 ^ 64

abbrev pub IsAddress : Bytes → Type 0
IsAddress a = length a ≡ 20

abbrev pub IsWord : Bytes → Type 0
IsWord k = length k ≡ 32

pub record Primitives : Type 0 where
  -- `U256::to_big_endian` into 32 bytes
  pub to_big_endian : ℕ → Bytes
  pub length-to_big_endian : (n : ℕ) → length (to_big_endian n) ≡ 32
  -- `U256::from_big_endian`, which reads up to 32 bytes and panics on more
  pub from_big_endian : Bytes → Outcome ℕ
  pub from-to_big_endian : (n : ℕ) → n < u256_mod → from_big_endian (to_big_endian n) ≡ ok n
  pub from_big_endian_short : (b : Bytes) → length b ≤ 32 → from_big_endian b ≡ ok (be_value b)
  pub from_big_endian_long : (b : Bytes) → 32 < length b → from_big_endian b ≡ panic abort
  -- `H160::from_slice` and `H256::from_slice`, which panic on another length
  pub h160_from_slice : Bytes → Outcome Bytes
  pub h160_from_slice_lem :
      (b : Bytes) → h160_from_slice b ≡ (if length b == 20 then ok b else panic abort)
  pub h256_from_slice : Bytes → Outcome Bytes
  pub h256_from_slice_lem :
      (b : Bytes) → h256_from_slice b ≡ (if length b == 32 then ok b else panic abort)
  -- `H160::to_low_u64_be`: the last 8 bytes
  pub to_low_u64_be : Bytes → ℕ
  pub to_low_u64_be_lem : (a : Bytes) → IsAddress a → to_low_u64_be a ≡ be_value (drop 12 a)

pub record Crypto : Type 0 where
  pub keccak : Bytes → Bytes
  pub sha256 : Bytes → Bytes
  pub ripemd160 : Bytes → Bytes
  pub length-keccak : (b : Bytes) → length (keccak b) ≡ 32
  pub length-sha256 : (b : Bytes) → length (sha256 b) ≡ 32
  pub length-ripemd160 : (b : Bytes) → length (ripemd160 b) ≡ 20
  -- `secp256k1::Signature::parse_slice` on 64 bytes, which may refuse
  pub parse_signature : Bytes → Option Bytes
  -- `secp256k1::RecoveryId::parse`: the identifiers are 0 to 3
  pub parse_recovery_id : ℕ → Bool
  pub parse_recovery_id_lem : (v : ℕ) → parse_recovery_id v ≡ ltb v 4
  -- `secp256k1::recover`, serialized: 65 bytes, of a message, a signature and an identifier
  pub recover : Bytes → Bytes → ℕ → Option Bytes
  pub length-recover :
      (m s : Bytes) (v : ℕ) {key : Bytes} → recover m s v ≡ some key → length key ≡ 65

-- `try_to_vec` and `try_from_slice` of a type, as borsh derives them. They undo one another on the
-- values that the Rust type has, and only such values are read.
pub record Codec (A : Type 0) (IsValue : A → Type 0) : Type 0 where
  pub to_vec : A → Bytes
  pub from_slice : Bytes → Option A
  pub from_slice-to_vec : (a : A) → IsValue a → from_slice (to_vec a) ≡ some a
  pub from_slice-IsValue : (b : Bytes) {a : A} → from_slice b ≡ some a → IsValue a

-- ===== src/Types.antt =====
-- src/types.rs: words and log records as bytes, hexadecimal text, account addresses.
pub mod Hex
pub mod Logs
use aurora_engine.Prelude.{
  ℕ, zero, suc, ◌+◌, ◌*◌, ◌/◌, ◌%◌, List, [], ◌∷◌, ◌++◌, Outcome, ok, ◌>>=◌, expect, Bytes, codes,
  length, get_elem?, drop, replicate, copy_from_slice, slice,
}
use aurora_engine.Packages.{Primitives, Crypto}

-- `InternalMetaCallArgs`.
pub record InternalMetaCallArgs : Type 0 where
  pub sender : Bytes
  pub nonce : ℕ
  pub fee_amount : ℕ
  pub fee_address : Bytes
  pub contract_address : Bytes
  pub value : ℕ
  pub input : Bytes

-- The fields of `evm::backend::Log`.
pub record Log : Type 0 where
  pub address : Bytes
  pub topics : List Bytes
  pub payload : Bytes

abbrev pub u256_to_arr : Primitives → ℕ → Bytes
u256_to_arr p value = p.to_big_endian value

-- The loop over the topics; `index` is where the next one goes.
topics_loop : Bytes → ℕ → List Bytes → Outcome (Bytes × ℕ)
topics_loop result index [] = ok (result, index)
topics_loop result index (topic ∷ topics) = do
  result' ← copy_from_slice result index (index + 32) topic
  topics_loop result' (index + 32) topics

-- `topics.len() as u8` keeps the low byte.
log_buffer : Log → Bytes
log_buffer log =
    (length log.topics % 256) ∷ replicate (length log.topics * 32 + length log.payload) 0

pub log_to_bytes : Log → Outcome Bytes
log_to_bytes log = do
  (result, index) ← topics_loop (log_buffer log) 1 log.topics
  copy_from_slice result index (length result) log.payload

abbrev pub hex_alphabet : Bytes
hex_alphabet = codes "0123456789abcdef"

abbrev pub hex_digit : ℕ → Outcome ℕ
hex_digit i = expect (get_elem? hex_alphabet i)

hex_loop : Bytes → Bytes → Outcome Bytes
hex_loop result [] = ok result
hex_loop result (x ∷ v) = do
  high ← hex_digit (x / 16)
  low ← hex_digit (x % 16)
  hex_loop (result ++ high ∷ low ∷ []) v

unfoldable pub bytes_to_hex : Bytes → Outcome Bytes
unfolding hex_loop
bytes_to_hex v = hex_loop [] v

-- By the host in the contract, by the sha3 package elsewhere.
abbrev pub keccak : Crypto → Bytes → Bytes
keccak c bytes = c.keccak bytes

unfoldable pub near_account_to_evm_address : Primitives → Crypto → Bytes → Outcome Bytes
near_account_to_evm_address p c addr = do tail ← slice (keccak c addr) 12 32; p.h160_from_slice tail

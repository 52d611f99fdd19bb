-- ===== src/Transaction/Rlp.antt =====
-- What src/transaction.rs and src/log_entry.rs take from the rlp crate.
use aurora_engine.Prelude.{
  ℕ, ◌<◌, ◌≡◌, Bool, true, Option, some, List, map, All, Bytes, length, get_elem?, ◌==◌,
}
use aurora_engine.Packages.{IsAddress, IsWord, u256_mod, u64_mod}

-- What is appended to a stream: a number, a string (`""`, a `Vec<u8>` or an address), or a list of
-- hashes.
pub data RlpItem : Type 0 where
  integer : ℕ → RlpItem
  text : Bytes → RlpItem
  hashes : List Bytes → RlpItem

-- A stream of a list: the length that `begin_list` announced, and the items appended.
pub record RlpStream : Type 0 where
  pub announced : ℕ
  pub items : List RlpItem

pub record Rlp : Type 0 where
  -- the encoding of one item, and of a stream
  pub raw_item : RlpItem → Bytes
  pub as_raw : RlpStream → Bytes
  -- `Rlp::item_count` and `Rlp::at`, `none` for any error
  pub item_count : Bytes → Option ℕ
  pub at : Bytes → ℕ → Option Bytes
  pub is_empty : Bytes → Bool
  pub is_data : Bytes → Bool
  -- `Rlp::as_val` at the types that the code reads
  pub as_u256 : Bytes → Option ℕ
  pub as_u64 : Bytes → Option ℕ
  pub as_bytes : Bytes → Option Bytes
  pub as_address : Bytes → Option Bytes
  -- `Rlp::as_list::<H256>`
  pub as_hashes : Bytes → Option (List Bytes)
  -- a list with as many items as announced is read back
  pub item_count-as_raw :
      (s : RlpStream) → s.announced ≡ length s.items → item_count (as_raw s) ≡ some s.announced
  pub at-as_raw :
      (s : RlpStream) (i : ℕ)
      → s.announced ≡ length s.items
      → at (as_raw s) i ≡ get_elem? (map raw_item s.items) i
  -- an item is read back at its type
  pub as_u256-raw_item : (n : ℕ) → n < u256_mod → as_u256 (raw_item (integer n)) ≡ some n
  pub as_u64-raw_item : (n : ℕ) → n < u64_mod → as_u64 (raw_item (integer n)) ≡ some n
  pub as_bytes-raw_item : (b : Bytes) → as_bytes (raw_item (text b)) ≡ some b
  pub as_address-raw_item : (a : Bytes) → IsAddress a → as_address (raw_item (text a)) ≡ some a
  pub as_hashes-raw_item :
      (hs : List Bytes) → All IsWord hs → as_hashes (raw_item (hashes hs)) ≡ some hs
  pub is_empty-raw_item : (b : Bytes) → is_empty (raw_item (text b)) ≡ (length b == 0)
  pub is_data-raw_item : (b : Bytes) → is_data (raw_item (text b)) ≡ true

-- ===== src/Demo/Transactions.antt =====
-- Lists as their announced length and their items, each with its length and its kind.
use aurora_engine.Prelude.{
  ℕ, zero, suc, ◌<◌, ◌≡◌, refl, ap, ◌∙◌, arith, true, Option, none, some, List, [], ◌∷◌, ◌++◌, map,
  Bytes, length, take, drop, take-append, drop-append, get_elem?, ltb, ◌==◌, if◌then◌else◌,
}
use aurora_engine.Packages.{IsAddress, u256_mod, u64_mod}
use aurora_engine.Transaction.Rlp.{RlpItem, integer, text, hashes, RlpStream, Rlp}

-- Hashes one after the other, each with a 0 at its end, and its bytes shifted by 1.
abbrev write_hash : Bytes → Bytes → Bytes
write_hash [] b = 0 ∷ b
write_hash (c ∷ h) b = suc c ∷ write_hash h b

abbrev write_hashes : List Bytes → Bytes
write_hashes [] = []
write_hashes (h ∷ hs) = write_hash h (write_hashes hs)

abbrev onto_first : ℕ → List Bytes → List Bytes
onto_first c [] = (c ∷ []) ∷ []
onto_first c (h ∷ hs) = (c ∷ h) ∷ hs

abbrev read_hashes : Bytes → List Bytes
read_hashes [] = []
read_hashes (zero ∷ b) = [] ∷ read_hashes b
read_hashes (suc c ∷ b) = onto_first c (read_hashes b)

read-write_hash : (h b : Bytes) → read_hashes (write_hash h b) ≡ h ∷ read_hashes b
read-write_hash [] b = refl
read-write_hash (c ∷ h) b = rw (read-write_hash h b) refl

pub read-write_hashes : (hs : List Bytes) → read_hashes (write_hashes hs) ≡ hs
read-write_hashes [] = refl
read-write_hashes (h ∷ hs) = rw (read-write_hash h (write_hashes hs), read-write_hashes hs) refl

abbrev as_hashes : Bytes → Option (List Bytes)
as_hashes (kind ∷ b) = some (read_hashes b)
as_hashes _ = none

abbrev raw_item : RlpItem → Bytes
raw_item (integer n) = 0 ∷ n ∷ []
raw_item (text b) = 1 ∷ b
raw_item (hashes hs) = 2 ∷ write_hashes hs

abbrev write_items : List RlpItem → Bytes
write_items [] = []
write_items (x ∷ xs) = length (raw_item x) ∷ (raw_item x ++ write_items xs)

abbrev as_raw : RlpStream → Bytes
as_raw s = s.announced ∷ write_items s.items

abbrev item_at : Bytes → ℕ → Option Bytes
item_at [] i = none
item_at (n ∷ b) zero = some (take n b)
item_at (n ∷ b) (suc i) = item_at (drop n b) i

abbrev at : Bytes → ℕ → Option Bytes
at [] i = none
at (n ∷ b) i = item_at b i

pub item_at-write_items :
    (xs : List RlpItem) (i : ℕ) → item_at (write_items xs) i ≡ get_elem? (map raw_item xs) i
item_at-write_items [] i = refl
item_at-write_items (x ∷ xs) zero = rw (take-append (raw_item x) (write_items xs)) refl
item_at-write_items (x ∷ xs) (suc i) =
    ap (λ b. item_at b i) (drop-append (raw_item x) (write_items xs)) ∙ item_at-write_items xs i

abbrev number_below : ℕ → Bytes → Option ℕ
number_below bound (kind ∷ n ∷ []) = if ltb n bound then some n else none
number_below bound _ = none

pub number_below-raw_item : (bound n : ℕ) → n < bound → number_below bound (0 ∷ n ∷ []) ≡ some n
number_below-raw_item bound n h = ground arith

abbrev as_bytes : Bytes → Option Bytes
as_bytes (kind ∷ b) = some b
as_bytes _ = none

abbrev as_address : Bytes → Option Bytes
as_address (kind ∷ b) = if length b == 20 then some b else none
as_address _ = none

pub as_address-raw_item : (a : Bytes) → IsAddress a → as_address (1 ∷ a) ≡ some a
as_address-raw_item a h = ground arith

pub is_empty-raw_text : (b : Bytes) → (length (1 ∷ b) == 1) ≡ (length b == 0)
is_empty-raw_text [] = refl
is_empty-raw_text (x ∷ b) = ground arith

abbrev pub rlp : Rlp
rlp = record {
  raw_item = raw_item;
  as_raw = as_raw;
  item_count = λ b. elim b [ [] ↦ none | n ∷ rest ↦ some n ];
  at = at;
  is_empty = λ b. length b == 1;
  is_data = λ b. true;
  as_u256 = number_below u256_mod;
  as_u64 = number_below u64_mod;
  as_bytes = as_bytes;
  as_address = as_address;
  as_hashes = as_hashes;
  item_count-as_raw = λ s h. refl;
  at-as_raw = λ s i h. item_at-write_items s.items i;
  as_u256-raw_item = number_below-raw_item u256_mod;
  as_u64-raw_item = number_below-raw_item u64_mod;
  as_bytes-raw_item = λ b. refl;
  as_address-raw_item = as_address-raw_item;
  as_hashes-raw_item = λ hs h. ap some (read-write_hashes hs);
  is_empty-raw_item = is_empty-raw_text;
  is_data-raw_item = λ b. refl;
}

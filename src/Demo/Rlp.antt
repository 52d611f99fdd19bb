-- ===== src/Demo/Rlp.antt =====
-- RLP texts with short headers: a byte below 128 is an item of one byte, 128 and up starts an item of
-- so many bytes, and 192 and up a list.
use aurora_engine.Prelude.{
  ℕ, zero, suc, ◌-◌, ◌<◌, ◌≤◌, arith, Bool, true, false, Option, none, some, List, [], ◌∷◌, All,
  Bytes, length, take, drop, length-drop, leb, ltb, if◌then◌else◌,
}

length-take_le : (n : ℕ) (b : Bytes) → length (take n b) ≤ length b
length-take_le zero b = omega arith
length-take_le (suc n) [] = omega arith
length-take_le (suc n) (c ∷ b) = omega (arith, length-take_le n b)

-- How many bytes follow the first one of an item.
abbrev body_length : ℕ → ℕ
body_length c = if ltb c 128 then 0 else if ltb c 192 then c - 128 else c - 192

abbrev cut : ℕ → Bytes → List Bytes
cut zero b = []
cut (suc fuel) [] = []
cut (suc fuel) (c ∷ b) = take (suc (body_length c)) (c ∷ b) ∷ cut fuel (drop (body_length c) b)

cut-short :
    (fuel : ℕ) (b : Bytes) (bound : ℕ)
    → length b < bound
    → All (λ item. length item < bound) (cut fuel b)
cut-short zero b bound h = tt
cut-short (suc fuel) [] bound h = tt
cut-short (suc fuel) (c ∷ b) bound h = (
  omega (arith, length-take_le (body_length c) b),
  cut-short fuel (drop (body_length c) b) bound (omega (arith, length-drop (body_length c) b)),
)

abbrev pub list_items : Bytes → List Bytes
list_items [] = []
list_items (c ∷ b) = if ltb c 192 then [] else cut (length b) b

pub list_items-short : (raw : Bytes) → All (λ item. length item < length raw) (list_items raw)
list_items-short [] = tt
list_items-short (c ∷ b) = go (ltb c 192)
  where
    go :
        (data_item : Bool)
        → All (λ item. length item < suc (length b)) (if data_item then [] else cut (length b) b)
    go true = tt
    go false = cut-short (length b) b (suc (length b)) (omega arith)

abbrev pub is_list_item : Bytes → Bool
is_list_item [] = false
is_list_item (c ∷ b) = leb 192 c

abbrev pub item_bytes : Bytes → Option Bytes
item_bytes [] = none
item_bytes (c ∷ b) = if ltb c 128 then some (c ∷ []) else if ltb c 192 then some b else none

-- ===== src/Storage/Keys.antt =====
-- The keys of src/storage.rs, src/engine.rs and src/lib.rs are told apart.
use aurora_engine.Prelude.{
  ℕ, suc, ◌≡◌, refl, sym, ◌∙◌, ap, Bool, true, false, ◌&&◌, ◌∷◌, ◌++◌, append-nil, arith, Bytes,
  bytes_eq, bytes_eq_iff, length, length-append, append_inj, take_of_length, replicate, ◌==◌,
  drop_beyond, Bool-cases, inl, inr,
}
use aurora_engine.Packages.{IsAddress, IsWord}
use aurora_engine.Storage.{
  KeyPrefix, prefix_byte, address_to_key, storage_to_key, state_key, code_key, code_stage_key,
}

pub address_to_key-cons :
    (p : KeyPrefix) (a : Bytes) → IsAddress a → address_to_key p a ≡ prefix_byte p ∷ a
unfolding address_to_key
address_to_key-cons p a h = rw (h, append-nil)

pub storage_to_key-cons : (a k : Bytes) → IsAddress a → IsWord k → storage_to_key a k ≡ 4 ∷ (a ++ k)
unfolding storage_to_key
storage_to_key-cons a k ha hk =
    rw (ha, hk)
      (rw (
        take_of_length 20 a _ ha,
        drop_beyond 52 (a ++ replicate 32 0) (omega (arith, ha, length-append a (replicate 32 0))),
        append-nil,
      ))

-- A place of the engine's storage.
pub data Slot : Type 0 where
  engine_state staged_code staged_at : Slot
  account : KeyPrefix → Bytes → Slot
  cell : Bytes → Bytes → Slot

abbrev pub IsSlot : Slot → Type 0
IsSlot (account p a) = IsAddress a
IsSlot (cell a k) = IsAddress a × IsWord k
IsSlot _ = Unit

abbrev pub slot_key : Slot → Bytes
slot_key engine_state = state_key
slot_key staged_code = code_key
slot_key staged_at = code_stage_key
slot_key (account p a) = address_to_key p a
slot_key (cell a k) = storage_to_key a k

abbrev prefix_eq : KeyPrefix → KeyPrefix → Bool
prefix_eq p q = prefix_byte p == prefix_byte q

prefix_byte-injective : (p q : KeyPrefix) → prefix_byte p ≡ prefix_byte q → p ≡ q
prefix_byte-injective p q h = ground arith

-- The length tells which kind of place a key names.
abbrev key_length : Slot → ℕ
key_length engine_state = 6
key_length staged_code = 5
key_length staged_at = 11
key_length (account p a) = 21
key_length (cell a k) = 53

length-slot_key : (s : Slot) → IsSlot s → length (slot_key s) ≡ key_length s
length-slot_key (account p a) h = rw (address_to_key-cons p a h) (ap suc h)
length-slot_key (cell a k) (ha, hk) =
    rw (storage_to_key-cons a k ha hk) (omega (arith, length-append a k))
length-slot_key engine_state h = refl
length-slot_key _ h = refl

account-injective :
    (p q : KeyPrefix) (a b : Bytes)
    → IsAddress a
    → IsAddress b
    → address_to_key p a ≡ address_to_key q b
    → account p a ≡ account q b
account-injective p q a b ha hb e =
    let e' : prefix_byte p ∷ a ≡ prefix_byte q ∷ b =
      sym (address_to_key-cons p a ha) ∙ e ∙ address_to_key-cons q b hb in
    let same : p ≡ q = prefix_byte-injective p q (cc) in let same_address : a ≡ b = cc in cc

cell-injective :
    (a b k l : Bytes)
    → IsSlot (cell a k)
    → IsSlot (cell b l)
    → storage_to_key a k ≡ storage_to_key b l
    → cell a k ≡ cell b l
cell-injective a b k l (ha, hk) (hb, hl) e =
    let e' : 4 ∷ (a ++ k) ≡ 4 ∷ (b ++ l) =
      sym (storage_to_key-cons a k ha hk) ∙ e ∙ storage_to_key-cons b l hb hl in
    let parts : (a ≡ b) × (k ≡ l) = append_inj a b (ha ∙ sym hb) (cc) in cc (parts.0, parts.1)

-- No two places of the engine's storage share a key: the key of an account's nonce, balance or
-- code, of a storage cell, of the engine's state and of a staged upgrade each name one place,
-- where addresses have 20 bytes and cell indices 32.
pub slot_key-injective : (s t : Slot) → IsSlot s → IsSlot t → slot_key s ≡ slot_key t → s ≡ t
slot_key-injective (account p a) (account q b) hs ht e = account-injective p q a b hs ht e
slot_key-injective (cell a k) (cell b l) hs ht e = cell-injective a b k l hs ht e
slot_key-injective engine_state engine_state hs ht e = refl
slot_key-injective staged_code staged_code hs ht e = refl
slot_key-injective staged_at staged_at hs ht e = refl
slot_key-injective s t hs ht e =
    let lengths : key_length s ≡ key_length t =
      sym (length-slot_key s hs) ∙ ap length e ∙ length-slot_key t ht in
    absurd (omega arith)

abbrev pub slot_eq : Slot → Slot → Bool
slot_eq engine_state engine_state = true
slot_eq staged_code staged_code = true
slot_eq staged_at staged_at = true
slot_eq (account p a) (account q b) = prefix_eq p q && bytes_eq a b
slot_eq (cell a k) (cell b l) = bytes_eq a b && bytes_eq k l
slot_eq _ _ = false

slot_eq_refl : (s : Slot) → slot_eq s s ≡ true
slot_eq_refl (account p a) = ground (arith, bytes_eq_iff a a)
slot_eq_refl (cell a k) = ground (arith, bytes_eq_iff a a, bytes_eq_iff k k)
slot_eq_refl engine_state = refl
slot_eq_refl _ = refl

slot_eq_sound : (s t : Slot) → slot_eq s t ≡ true → s ≡ t
slot_eq_sound (account p a) (account q b) h =
    ground (arith, bytes_eq_iff a b, prefix_byte-injective p q)
slot_eq_sound (cell a k) (cell b l) h = ground (arith, bytes_eq_iff a b, bytes_eq_iff k l)
slot_eq_sound _ _ h = ground arith

-- A test on keys is a test on the places that they name.
pub bytes_eq-slot_key :
    (s t : Slot) → IsSlot s → IsSlot t → bytes_eq (slot_key s) (slot_key t) ≡ slot_eq s t
bytes_eq-slot_key s t hs ht = elim (Bool-cases (slot_eq s t)) [
  | inl same ↦ rw same ((bytes_eq_iff _ _).1 (ap slot_key (slot_eq_sound s t same)))
  | inr other ↦ elim (Bool-cases (bytes_eq (slot_key s) (slot_key t))) [
    | inl e ↦
        let same = slot_key-injective s t hs ht ((bytes_eq_iff _ _).0 e) in
        cc (same, slot_eq_refl s)
    | inr e ↦ e ∙ sym other
  ]
]

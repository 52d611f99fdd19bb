-- ===== src/Engine/Slots.antt =====
-- Reads of the places of the engine's storage after writes and removals.
use aurora_engine.Prelude.{◌≡◌, ◌∙◌, ap, Option, none, some, Bool, Bytes, if◌then◌else◌}
use aurora_engine.Storage.Keys.{Slot, IsSlot, slot_key, slot_eq, bytes_eq-slot_key}
use aurora_engine.Platform.{Platform}

module _ (p : Platform) where
  open p use {World, storage_read, storage_write, storage_remove}

  -- What storage holds at a place.
  abbrev pub content : World → Slot → Option Bytes
  content w s = storage_read w (slot_key s)

  module _ (w : World) (s t : Slot) (hs : IsSlot s) (ht : IsSlot t) where
    pub content-write :
        (v : Bytes)
        → content (storage_write w (slot_key s) v) t ≡ (if slot_eq s t then some v else content w t)
    content-write v =
        p.read-write w (slot_key s) v (slot_key t)
        ∙ ap (λ (b : Bool). if b then some v else content w t) (bytes_eq-slot_key s t hs ht)

    pub content-remove :
        content (storage_remove w (slot_key s)) t ≡ (if slot_eq s t then none else content w t)
    content-remove =
        p.read-remove w (slot_key s) (slot_key t)
        ∙ ap (λ (b : Bool). if b then none else content w t) (bytes_eq-slot_key s t hs ht)

  -- After a step from `w` to `w'` the place `s` holds `o`, and every other place what it held.
  abbrev pub Sets : World → World → Slot → Option Bytes → Type 0
  Sets w w' s o = (t : Slot) → IsSlot t → content w' t ≡ (if slot_eq s t then o else content w t)

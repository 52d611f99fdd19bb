-- ===== src/Engine/ApplyBackend/Frame.antt =====
-- What the changes of an executor leave alone: the engine's state and a staged upgrade, what the
-- call was given, and what it has asked to deploy.
use mathlib.Core.Path.{subst}
use aurora_engine.Prelude.{
  ◌≡◌, refl, ◌∙◌, Bool, true, false, Option, none, some, List, [], ◌∷◌, ok, >>=-ok, Bytes, All,
  bytes_eq, if◌then◌else◌, Bool-cases, inl, inr,
}
use aurora_engine.Packages.{IsAddress}
use aurora_engine.Types.{Log, log_to_bytes, bytes_to_hex}
use aurora_engine.Storage.{nonce, balance, code}
use aurora_engine.Storage.Keys.{
  Slot, IsSlot, account, cell, engine_state, staged_code, staged_at, slot_key, slot_eq,
}
use aurora_engine.Evm.{Basic, Apply, modify, delete, IsApply, IsCell}
use aurora_engine.Platform.{Platform}
use aurora_engine.Engine.{
  zero_word, set_nonce, set_balance, set_code, set_storage, remove_nonce, remove_balance,
  remove_code, remove_storage, remove_account, remove_account_if_empty, is_account_empty,
  remove_all_storage,
}
use aurora_engine.Engine.Slots.{content, content-write, content-remove}
use aurora_engine.Engine.ApplyBackend.{
  apply_cells, apply_code, apply_modify, apply_change, apply_changes, apply_logs, apply,
}

-- The places that belong to the contract and to no account.
abbrev pub is_global : Slot → Bool
is_global engine_state = true
is_global staged_code = true
is_global staged_at = true
is_global _ = false

global-IsSlot : (t : Slot) → is_global t ≡ true → IsSlot t
global-IsSlot (account q a) g = cc
global-IsSlot (cell a k) g = cc
global-IsSlot engine_state g = tt
global-IsSlot _ g = tt

slot_eq-is_global : (s t : Slot) → is_global s ≡ false → is_global t ≡ true → slot_eq s t ≡ false
slot_eq-is_global (account q a) (account r b) l g = cc
slot_eq-is_global (cell a k) (cell b m) l g = cc
slot_eq-is_global engine_state t l g = cc
slot_eq-is_global staged_code t l g = cc
slot_eq-is_global staged_at t l g = cc
slot_eq-is_global s t l g = refl

-- A step changes none of this.
pub record Keeps (p : Platform) (w w' : p.World) : Type 0 where
  pub globals : (s : Slot) → is_global s ≡ true → content p w' s ≡ content p w s
  pub same_context : p.context w' ≡ p.context w
  pub same_deployed : p.deployed w' ≡ p.deployed w

module _ (p : Platform) where
  open p use {World, storage_write, storage_remove}

  pub Keeps-refl : (w : World) → Keeps p w w
  Keeps-refl w = record { globals = λ s h. refl; same_context = refl; same_deployed = refl }

  pub Keeps-trans : {u v w : World} → Keeps p u v → Keeps p v w → Keeps p u w
  Keeps-trans h k = record {
    globals = λ s g. k.globals s g ∙ h.globals s g;
    same_context = k.same_context ∙ h.same_context;
    same_deployed = k.same_deployed ∙ h.same_deployed;
  }

  write-Keeps :
      (w : World) (s : Slot) (v : Bytes)
      → IsSlot s
      → is_global s ≡ false
      → Keeps p w (storage_write w (slot_key s) v)
  write-Keeps w s v hs local = record {
    globals = λ t g.
        content-write p w s t hs (global-IsSlot t g) v ∙ rw (slot_eq-is_global s t local g) refl;
    same_context = p.context-write w (slot_key s) v;
    same_deployed = p.deployed-write w (slot_key s) v;
  }

  remove-Keeps :
      (w : World) (s : Slot)
      → IsSlot s
      → is_global s ≡ false
      → Keeps p w (storage_remove w (slot_key s))
  remove-Keeps w s hs local = record {
    globals = λ t g.
        content-remove p w s t hs (global-IsSlot t g) ∙ rw (slot_eq-is_global s t local g) refl;
    same_context = p.context-remove w (slot_key s);
    same_deployed = p.deployed-remove w (slot_key s);
  }

  log-Keeps : (w : World) (text : Bytes) → Keeps p w (p.log_utf8 w text)
  log-Keeps w text = record {
    globals = λ t g. p.read-log w text (slot_key t);
    same_context = p.context-log w text;
    same_deployed = p.deployed-log w text;
  }

  module _ (a : Bytes) (ha : IsAddress a) where
    apply_cells-Keeps :
        (cells : List (Bytes × Bytes)) (w : World)
        → All IsCell cells
        → Keeps p w (apply_cells p a cells w)
    unfolding apply_cells set_storage remove_storage
    apply_cells-Keeps [] w h = Keeps-refl w
    apply_cells-Keeps ((k, v) ∷ cells) w ((hk, _), h) = elim (Bool-cases (bytes_eq v zero_word)) [
      | inl zero ↦
          rw zero
            (Keeps-trans (remove-Keeps w (cell a k) (ha, hk) refl) (apply_cells-Keeps cells _ h))
      | inr other ↦
          rw other
            (Keeps-trans (write-Keeps w (cell a k) v (ha, hk) refl) (apply_cells-Keeps cells _ h))
    ]

    apply_code-Keeps : (c : Option Bytes) (w : World) → Keeps p w (apply_code p a c w)
    unfolding apply_code set_code
    apply_code-Keeps none w = Keeps-refl w
    apply_code-Keeps (some c) w = write-Keeps w (account code a) c ha refl

    reset-Keeps :
        (reset : Bool) (w : World) → Keeps p w (if reset then remove_all_storage p a w else w)
    reset-Keeps true w = Keeps-refl w
    reset-Keeps false w = Keeps-refl w

    apply_modify-Keeps :
        (basic : Basic) (c : Option Bytes) (cells : List (Bytes × Bytes)) (reset : Bool) (w : World)
        → All IsCell cells
        → Keeps p w (apply_modify p a basic c cells reset w)
    unfolding apply_modify set_nonce set_balance
    apply_modify-Keeps basic c cells reset w h =
        Keeps-trans (write-Keeps w (account nonce a) _ ha refl) (
          Keeps-trans (write-Keeps _ (account balance a) _ ha refl) (
            Keeps-trans (apply_code-Keeps c _)
              (Keeps-trans (reset-Keeps reset _) (apply_cells-Keeps cells _ h))))

    remove_account-Keeps : (w : World) → Keeps p w (remove_account p a w)
    unfolding remove_account remove_nonce remove_balance remove_code
    remove_account-Keeps w = Keeps-trans (remove-Keeps w (account nonce a) ha refl) (
        Keeps-trans (remove-Keeps _ (account balance a) ha refl)
          (remove-Keeps _ (account code a) ha refl))

    remove_account_if_empty-Keeps :
        (w : World) {w' : World} → remove_account_if_empty p a w ≡ ok w' → Keeps p w w'
    unfolding remove_account_if_empty
    remove_account_if_empty-Keeps w {w'} h =
        let (empty, read, done) = >>=-ok (is_account_empty p a w) _ h in removed empty done
      where
        removed :
            (empty : Bool) → ok (if empty then remove_account p a w else w) ≡ ok w' → Keeps p w w'
        removed true e = subst (Keeps p w) (cc) (remove_account-Keeps w)
        removed false e = subst (Keeps p w) (cc) (Keeps-refl w)

  apply_change-Keeps :
      (delete_empty : Bool) (change : Apply) (w : World) {w' : World}
      → IsApply change
      → apply_change p delete_empty change w ≡ ok w'
      → Keeps p w w'
  unfolding apply_change
  apply_change-Keeps d (delete a) w h e = subst (Keeps p w) (cc) (remove_account-Keeps a h w)
  apply_change-Keeps true (modify a basic c cells reset) w (ha, _, _, hc) e =
      Keeps-trans (apply_modify-Keeps a ha basic c cells reset w hc)
        (remove_account_if_empty-Keeps a ha _ e)
  apply_change-Keeps false (modify a basic c cells reset) w (ha, _, _, hc) e =
      subst (Keeps p w) (cc) (apply_modify-Keeps a ha basic c cells reset w hc)

  apply_changes-Keeps :
      (delete_empty : Bool) (changes : List Apply) (w : World) {w' : World}
      → All IsApply changes
      → apply_changes p delete_empty changes w ≡ ok w'
      → Keeps p w w'
  unfolding apply_changes
  apply_changes-Keeps d [] w h e = subst (Keeps p w) (cc) (Keeps-refl w)
  apply_changes-Keeps d (change ∷ changes) w (hc, h) e =
      let (w1, first, rest) = >>=-ok (apply_change p d change w) _ e in
      Keeps-trans (apply_change-Keeps d change w hc first) (apply_changes-Keeps d changes w1 h rest)

  apply_logs-Keeps :
      (logs : List Log) (w : World) {w' : World} → apply_logs p logs w ≡ ok w' → Keeps p w w'
  unfolding apply_logs
  apply_logs-Keeps [] w e = subst (Keeps p w) (cc) (Keeps-refl w)
  apply_logs-Keeps (log ∷ logs) w e =
      let (bytes, _, e1) = >>=-ok (log_to_bytes log) _ e in
      let (hex, _, rest) = >>=-ok (bytes_to_hex bytes) _ e1 in
      Keeps-trans (log-Keeps w hex) (apply_logs-Keeps logs _ rest)

  -- Whatever changes and logs are applied, the engine's state, a staged upgrade and its block stay
  -- as they were.
  pub apply-Keeps :
      (values : List Apply) (logs : List Log) (delete_empty : Bool) (w : World) {w' : World}
      → All IsApply values
      → apply p values logs delete_empty w ≡ ok w'
      → Keeps p w w'
  unfolding apply
  apply-Keeps values logs d w h e =
      let (w1, first, rest) = >>=-ok (apply_changes p d values w) _ e in
      Keeps-trans (apply_changes-Keeps d values w h first) (apply_logs-Keeps logs w1 rest)

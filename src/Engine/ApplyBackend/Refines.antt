-- ===== src/Engine/ApplyBackend/Refines.antt =====
-- `apply` of src/engine.rs implements the abstract changes of accounts.
use mathlib.Core.Path.{fun_ext, subst}
use aurora_engine.Prelude.{
  ◌≡◌, refl, Bool, true, false, Option, none, some, List, [], ◌∷◌, ok, Bytes, All, bytes_eq,
  bytes_eq_iff, if◌then◌else◌, Bool-cases, inl, inr, arith, length, ◌==◌, ◌&&◌,
}
use aurora_engine.Packages.{IsAddress, IsWord}
use aurora_engine.Evm.{Basic, modify, delete, IsApply, IsCell}
use aurora_engine.Platform.{Platform}
use aurora_engine.Engine.{
  zero_word, remove_storage, set_storage, remove_account, is_account_empty, remove_account_if_empty,
  remove_all_storage,
}
use aurora_engine.Engine.Abstract.{
  Account, Accounts, update, update_cell, update_cells, replace_code, apply_to, Represents,
}
use aurora_engine.Engine.Updates.{
  set_nonce-Represents, set_balance-Represents, set_code-Represents, set_storage-Represents,
  remove_nonce-Represents, remove_balance-Represents, remove_code-Represents,
  remove_storage-Represents,
}
use aurora_engine.Engine.ApplyBackend.{apply_cells, apply_code, apply_modify}

update-update_at :
    (same : Bool) (f g : Account → Account) (x : Account)
    → (if same then g (if same then f x else x) else (if same then f x else x))
      ≡ (if same then g (f x) else x)
update-update_at true f g x = refl
update-update_at false f g x = refl

-- Two changes of one account are one.
update-update :
    (accounts : Accounts) (a : Bytes) (f g : Account → Account)
    → update (update accounts a f) a g ≡ update accounts a (λ x. g (f x))
update-update accounts a f g = fun_ext λ b. update-update_at (bytes_eq a b) f g (accounts b)

abbrev is_blank : Account → Bool
is_blank x = x.balance == 0 && x.nonce == 0 && length x.code == 0

abbrev blank : Account → Account
blank x = record x { nonce = 0; balance = 0; code = [] }

blank-is_blank : (x : Account) → is_blank x ≡ true → blank x ≡ x
blank-is_blank x h = ground arith

blank_at :
    (accounts : Accounts) (a b : Bytes)
    → is_blank (accounts a) ≡ true
    → update accounts a blank b ≡ accounts b
blank_at accounts a b h = elim (Bool-cases (bytes_eq a b)) [
  | inr other ↦ rw other
  | inl same ↦
      let here : a ≡ b = (bytes_eq_iff a b).0 same in
      rw same (blank-is_blank (accounts b) (rw here at h))
]

-- The changes of one account, at the address `a`.
module _ (p : Platform) (accounts : Accounts) (a : Bytes) (ha : IsAddress a) where
  open p use {World}

  -- The world reads as the accounts with the one at `a` changed.
  abbrev Changed : World → (Account → Account) → Type 0
  Changed w f = Represents p w (update accounts a f)

  -- A second change of the account comes on top.
  Changed-then :
      (w : World) (f g : Account → Account)
      → Represents p w (update (update accounts a f) a g)
      → Changed w (λ x. g (f x))
  Changed-then w f g r = subst (Represents p w) (update-update accounts a f g) r

  write_cell-Changed :
      (w : World) (f : Account → Account) (k v : Bytes)
      → Changed w f
      → IsWord k
      → IsWord v
      → Changed
          (if bytes_eq v zero_word then remove_storage p a k w else set_storage p a k v w)
          (λ x. update_cell k v (f x))
  write_cell-Changed w f k v r hk hv = elim (Bool-cases (bytes_eq v zero_word)) [
    | inl zero ↦
        rw (zero, (bytes_eq_iff v zero_word).0 zero)
          (Changed-then _ f (update_cell k zero_word) (remove_storage-Represents p w r a ha k hk))
    | inr other ↦
        rw other (Changed-then _ f (update_cell k v) (set_storage-Represents p w r a ha k v hk hv))
  ]

  apply_cells-Changed :
      (cells : List (Bytes × Bytes)) (w : World) (f : Account → Account)
      → Changed w f
      → All IsCell cells
      → Changed (apply_cells p a cells w) (λ x. update_cells cells (f x))
  unfolding apply_cells
  apply_cells-Changed [] w f r h = r
  apply_cells-Changed ((k, v) ∷ cells) w f r ((hk, hv), h) =
      apply_cells-Changed cells _ (λ x. update_cell k v (f x)) (write_cell-Changed w f k v r hk hv)
        h

  apply_code-Changed :
      (code : Option Bytes) (w : World) (f : Account → Account)
      → Changed w f
      → Changed (apply_code p a code w) (λ x. replace_code code (f x))
  unfolding apply_code
  apply_code-Changed none w f r = r
  apply_code-Changed (some c) w f r =
      Changed-then _ f (replace_code (some c)) (set_code-Represents p w r a ha c)

  -- A change writes its nonce, balance, code and cells; `reset_storage` does nothing.
  pub apply_modify-Represents :
      {w : World} (basic : Basic) (code : Option Bytes) (cells : List (Bytes × Bytes))
      (reset : Bool)
      → Represents p w accounts
      → IsApply (modify a basic code cells reset)
      → Represents p
          (apply_modify p a basic code cells reset w)
          (apply_to (modify a basic code cells reset) accounts)
  unfolding apply_modify
  apply_modify-Represents {w} basic code cells reset r (_, hn, hb, hc) =
      let r1 = set_nonce-Represents p w r a ha basic.nonce hn in
      let r2 = set_balance-Represents p _ r1 a ha basic.balance hb in
      let r2' =
        Changed-then _ (λ x. record x { nonce = basic.nonce })
          (λ x. record x { balance = basic.balance }) r2 in
      let r3 =
        apply_code-Changed code _ (λ x. record x { nonce = basic.nonce; balance = basic.balance })
          r2' in
      let with_code : Account → Account =
        λ x. replace_code code (record x { nonce = basic.nonce; balance = basic.balance }) in
      apply_cells-Changed cells _ with_code (reset_does_nothing _ with_code reset r3) hc
    where
      reset_does_nothing :
          (v : World) (f : Account → Account) (b : Bool)
          → Changed v f
          → Changed (if b then remove_all_storage p a v else v) f
      reset_does_nothing v f true h = h
      reset_does_nothing v f false h = h

  pub remove_account-Represents :
      {w : World}
      → Represents p w accounts
      → Represents p (remove_account p a w) (apply_to (delete a) accounts)
  unfolding remove_account
  remove_account-Represents {w} r =
      let r1 = remove_nonce-Represents p w r a ha in
      let r2 =
        Changed-then _ (λ x. record x { nonce = 0 }) (λ x. record x { balance = 0 })
          (remove_balance-Represents p _ r1 a ha) in
      Changed-then _ (λ x. record x { nonce = 0; balance = 0 }) (λ x. record x { code = [] })
        (remove_code-Represents p _ r2 a ha)

  -- Removing an empty account changes no reading.
  pub remove_account_if_empty-Represents :
      (w : World)
      → Represents p w accounts
      → (w' : World) × (remove_account_if_empty p a w ≡ ok w') × Represents p w' accounts
  unfolding remove_account_if_empty is_account_empty
  remove_account_if_empty-Represents w r = elim (Bool-cases (is_blank (accounts a))) [
    | inr other ↦ (w, rw (r.balances a ha, r.nonces a ha, r.codes a ha, other) refl, r)
    | inl empty ↦ (
      remove_account p a w,
      rw (r.balances a ha, r.nonces a ha, r.codes a ha, empty) refl,
      subst (Represents p (remove_account p a w)) (fun_ext (λ b. blank_at accounts a b empty))
          (remove_account-Represents r),
    )
  ]

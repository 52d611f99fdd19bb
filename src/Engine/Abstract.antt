-- ===== src/Engine/Abstract.antt =====
-- What the engine promises of its accounts: a map from addresses to accounts.
use aurora_engine.Prelude.{
  ℕ, ◌≡◌, Option, none, some, List, [], ◌∷◌, ok, Bytes, bytes_eq, if◌then◌else◌,
}
use aurora_engine.Packages.{IsAddress, IsWord}
use aurora_engine.Platform.{Platform}
use aurora_engine.Evm.{Apply, modify, delete}
use aurora_engine.Engine.{get_nonce, get_balance, get_code, get_storage}

pub record Account : Type 0 where
  pub nonce : ℕ
  pub balance : ℕ
  pub code : Bytes
  pub cell : Bytes → Bytes

abbrev pub Accounts : Type 0
Accounts = Bytes → Account

abbrev pub update : Accounts → Bytes → (Account → Account) → Accounts
update accounts a f b = if bytes_eq a b then f (accounts b) else accounts b

abbrev pub update_cell : Bytes → Bytes → Account → Account
update_cell k v account = record account { cell = λ l. if bytes_eq k l then v else account.cell l }

-- The cells written, in order.
abbrev pub update_cells : List (Bytes × Bytes) → Account → Account
update_cells [] account = account
update_cells ((k, v) ∷ cells) account = update_cells cells (update_cell k v account)

abbrev pub replace_code : Option Bytes → Account → Account
replace_code none account = account
replace_code (some bytes) account = record account { code = bytes }

-- One change. A deleted account keeps its cells.
abbrev pub apply_to : Apply → Accounts → Accounts
apply_to (modify a basic code cells reset) accounts = update accounts a (λ account.
    update_cells cells
      (replace_code code (record account { nonce = basic.nonce; balance = basic.balance })))
apply_to (delete a) accounts =
    update accounts a (λ account. record account { nonce = 0; balance = 0; code = [] })

abbrev pub apply_all : List Apply → Accounts → Accounts
apply_all [] accounts = accounts
apply_all (change ∷ changes) accounts = apply_all changes (apply_to change accounts)

-- The world's storage reads as these accounts.
pub record Represents (p : Platform) (w : p.World) (accounts : Accounts) : Type 0 where
  pub nonces : (a : Bytes) → IsAddress a → get_nonce p a w ≡ ok (accounts a).nonce
  pub balances : (a : Bytes) → IsAddress a → get_balance p a w ≡ ok (accounts a).balance
  pub codes : (a : Bytes) → IsAddress a → get_code p a w ≡ (accounts a).code
  pub cells :
      (a k : Bytes) → IsAddress a → IsWord k → get_storage p a k w ≡ ok ((accounts a).cell k)

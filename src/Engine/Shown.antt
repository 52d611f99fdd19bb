-- ===== src/Engine/Shown.antt =====
-- `impl Backend for Engine` of src/engine.rs: what the EVM is shown of the accounts.
use aurora_engine.Prelude.{
  ◌≡◌, refl, Bool, not, ok, Bytes, ◌&&◌, ◌==◌, length, if◌then◌else◌, true, false,
}
use aurora_engine.Packages.{IsAddress, IsWord}
use aurora_engine.Evm.{Backend}
use aurora_engine.Platform.{Platform}
use aurora_engine.Engine.{Engine, backend, is_account_empty}
use aurora_engine.Engine.Abstract.{Account, Accounts, Represents}

-- An account without balance, nonce and code, whatever its cells.
abbrev pub is_empty : Account → Bool
is_empty x = x.balance == 0 && x.nonce == 0 && length x.code == 0

-- A backend shows these accounts.
pub record Shows (b : Backend) (accounts : Accounts) : Type 0 where
  pub basics :
      (a : Bytes)
      → IsAddress a
      → b.basic a ≡ ok (record { balance = (accounts a).balance; nonce = (accounts a).nonce })
  pub codes : (a : Bytes) → IsAddress a → b.code a ≡ (accounts a).code
  pub cells : (a k : Bytes) → IsAddress a → IsWord k → b.storage a k ≡ ok ((accounts a).cell k)
  pub exist : (a : Bytes) → IsAddress a → b.exists a ≡ ok (not (is_empty (accounts a)))

module _ (p : Platform) where
  open p use {World}

  not_of : (b : Bool) → ok (if b then false else true) ≡ ok (not b)
  not_of true = refl
  not_of false = refl

  -- The EVM is shown the accounts that storage reads as, by whatever engine runs it.
  pub backend-Shows :
      (engine : Engine) (w : World) (accounts : Accounts)
      → Represents p w accounts
      → Shows (backend p engine w) accounts
  unfolding backend is_account_empty
  backend-Shows engine w accounts r = record {
    basics = λ a h. rw (r.nonces a h, r.balances a h) refl;
    codes = λ a h. r.codes a h;
    cells = λ a k h hk. r.cells a k h hk;
    exist = λ a h. rw (r.nonces a h, r.balances a h, r.codes a h) (not_of (is_empty (accounts a)));
  }

-- ===== src/Engine/Updates.antt =====
-- Each write or removal of src/engine.rs changes one field of one account.
use aurora_engine.Prelude.{ℕ, ◌<◌, ◌≡◌, refl, Option, none, some, [], ok, Bytes, arith}
use aurora_engine.Packages.{IsAddress, IsWord, u256_mod}
use aurora_engine.Platform.{Platform}
use aurora_engine.Storage.{nonce, balance, code}
use aurora_engine.Storage.Keys.{account, cell}
use aurora_engine.Engine.{
  value_or, or_empty, zero_word, set_nonce, get_nonce, set_balance, get_balance, set_code, get_code,
  set_storage, get_storage, remove_nonce, remove_balance, remove_code, remove_storage,
}
use aurora_engine.Engine.Slots.{Sets, content-write, content-remove}
use aurora_engine.Engine.Abstract.{Accounts, update, update_cell, Represents}

module _ (p : Platform) {accounts : Accounts} {w w' : p.World} (r : Represents p w accounts)
    (a : Bytes) (o : Option Bytes) where
  nonce-Represents :
      (n : ℕ)
      → value_or p.from_big_endian 0 o ≡ ok n
      → Sets p w w' (account nonce a) o
      → Represents p w' (update accounts a (λ x. record x { nonce = n }))
  unfolding get_nonce get_balance get_code get_storage
  nonce-Represents n e s = record {
    nonces = λ b hb. ground (arith, r.nonces b hb, s (account nonce b) hb);
    balances = λ b hb. ground (arith, r.balances b hb, s (account balance b) hb);
    codes = λ b hb. ground (arith, r.codes b hb, s (account code b) hb);
    cells = λ b k hb hk. ground (arith, r.cells b k hb hk, s (cell b k) (hb, hk));
  }

  balance-Represents :
      (n : ℕ)
      → value_or p.from_big_endian 0 o ≡ ok n
      → Sets p w w' (account balance a) o
      → Represents p w' (update accounts a (λ x. record x { balance = n }))
  unfolding get_nonce get_balance get_code get_storage
  balance-Represents n e s = record {
    nonces = λ b hb. ground (arith, r.nonces b hb, s (account nonce b) hb);
    balances = λ b hb. ground (arith, r.balances b hb, s (account balance b) hb);
    codes = λ b hb. ground (arith, r.codes b hb, s (account code b) hb);
    cells = λ b k hb hk. ground (arith, r.cells b k hb hk, s (cell b k) (hb, hk));
  }

  code-Represents :
      Sets p w w' (account code a) o
      → Represents p w' (update accounts a (λ x. record x { code = or_empty p o }))
  unfolding get_nonce get_balance get_code get_storage
  code-Represents s = record {
    nonces = λ b hb. ground (arith, r.nonces b hb, s (account nonce b) hb);
    balances = λ b hb. ground (arith, r.balances b hb, s (account balance b) hb);
    codes = λ b hb. ground (arith, r.codes b hb, s (account code b) hb);
    cells = λ b k hb hk. ground (arith, r.cells b k hb hk, s (cell b k) (hb, hk));
  }

  cell-Represents :
      (k v : Bytes)
      → value_or p.h256_from_slice zero_word o ≡ ok v
      → Sets p w w' (cell a k) o
      → Represents p w' (update accounts a (update_cell k v))
  unfolding get_nonce get_balance get_code get_storage
  cell-Represents k v e s = record {
    nonces = λ b hb. ground (arith, r.nonces b hb, s (account nonce b) hb);
    balances = λ b hb. ground (arith, r.balances b hb, s (account balance b) hb);
    codes = λ b hb. ground (arith, r.codes b hb, s (account code b) hb);
    cells = λ b l hb hl. ground (arith, r.cells b l hb hl, s (cell b l) (hb, hl));
  }

module _ (p : Platform) {accounts : Accounts} (w : p.World) (r : Represents p w accounts)
    (a : Bytes) (ha : IsAddress a) where
  pub set_nonce-Represents :
      (n : ℕ)
      → n < u256_mod
      → Represents p (set_nonce p a n w) (update accounts a (λ x. record x { nonce = n }))
  unfolding set_nonce
  set_nonce-Represents n h =
      nonce-Represents p r a (some (p.to_big_endian n)) n (p.from-to_big_endian n h)
        (λ t ht. content-write p w (account nonce a) t ha ht (p.to_big_endian n))

  pub set_balance-Represents :
      (n : ℕ)
      → n < u256_mod
      → Represents p (set_balance p a n w) (update accounts a (λ x. record x { balance = n }))
  unfolding set_balance
  set_balance-Represents n h =
      balance-Represents p r a (some (p.to_big_endian n)) n (p.from-to_big_endian n h)
        (λ t ht. content-write p w (account balance a) t ha ht (p.to_big_endian n))

  pub set_code-Represents :
      (c : Bytes) → Represents p (set_code p a c w) (update accounts a (λ x. record x { code = c }))
  unfolding set_code
  set_code-Represents c =
      code-Represents p r a (some c) (λ t ht. content-write p w (account code a) t ha ht c)

  pub set_storage-Represents :
      (k v : Bytes)
      → IsWord k
      → IsWord v
      → Represents p (set_storage p a k v w) (update accounts a (update_cell k v))
  unfolding set_storage
  set_storage-Represents k v hk hv =
      cell-Represents p r a (some v) k v (rw (p.h256_from_slice_lem v, hv) refl)
        (λ t ht. content-write p w (cell a k) t (ha, hk) ht v)

  pub remove_nonce-Represents :
      Represents p (remove_nonce p a w) (update accounts a (λ x. record x { nonce = 0 }))
  unfolding remove_nonce
  remove_nonce-Represents =
      nonce-Represents p r a none 0 refl (λ t ht. content-remove p w (account nonce a) t ha ht)

  pub remove_balance-Represents :
      Represents p (remove_balance p a w) (update accounts a (λ x. record x { balance = 0 }))
  unfolding remove_balance
  remove_balance-Represents =
      balance-Represents p r a none 0 refl (λ t ht. content-remove p w (account balance a) t ha ht)

  pub remove_code-Represents :
      Represents p (remove_code p a w) (update accounts a (λ x. record x { code = [] }))
  unfolding remove_code
  remove_code-Represents =
      code-Represents p r a none (λ t ht. content-remove p w (account code a) t ha ht)

  pub remove_storage-Represents :
      (k : Bytes)
      → IsWord k
      → Represents p (remove_storage p a k w) (update accounts a (update_cell k zero_word))
  unfolding remove_storage
  remove_storage-Represents k hk =
      cell-Represents p r a none k zero_word refl
        (λ t ht. content-remove p w (cell a k) t (ha, hk) ht)

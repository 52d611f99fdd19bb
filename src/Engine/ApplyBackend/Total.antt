-- ===== src/Engine/ApplyBackend/Total.antt =====
-- `apply` of src/engine.rs returns, and implements the abstract changes of accounts.
use aurora_engine.Prelude.{
  ◌≡◌, refl, Bool, true, false, List, [], ◌∷◌, ◌++◌, Outcome, ok, Bytes, AreBytes, All,
  AreBytes-append, ◌%◌, length, arith,
}
use aurora_engine.Types.{Log}
use aurora_engine.Types.Logs.{flat, log_to_bytes-flat}
use aurora_engine.Types.Hex.{bytes_to_hex-from_hex}
use aurora_engine.Evm.{Apply, modify, delete, IsApply, IsLog}
use aurora_engine.Platform.{Platform}
use aurora_engine.Engine.{get_nonce, get_balance, get_code, get_storage, remove_account}
use aurora_engine.Engine.Abstract.{Accounts, apply_to, apply_all, Represents}
use aurora_engine.Engine.ApplyBackend.{apply_change, apply_changes, apply_logs, apply}
use aurora_engine.Engine.ApplyBackend.Refines.{
  apply_modify-Represents, remove_account-Represents, remove_account_if_empty-Represents,
}

AreBytes-flat : (ts : List Bytes) → All AreBytes ts → AreBytes (flat ts)
AreBytes-flat [] h = tt
AreBytes-flat (t ∷ ts) (ht, hts) = AreBytes-append t (flat ts) ht (AreBytes-flat ts hts)

module _ (p : Platform) where
  open p use {World}

  -- The code returns a world that reads as these accounts.
  abbrev pub Yields : Outcome World → Accounts → Type 0
  Yields m accounts = (w : World) × (m ≡ ok w) × Represents p w accounts

  apply_change-Yields :
      (accounts : Accounts) (change : Apply) (w : World) (delete_empty : Bool)
      → Represents p w accounts
      → IsApply change
      → Yields (apply_change p delete_empty change w) (apply_to change accounts)
  unfolding apply_change
  apply_change-Yields accounts (delete a) w d r ha =
      (remove_account p a w, refl, remove_account-Represents p accounts a ha r)
  apply_change-Yields accounts (modify a basic code cells reset) w true r h =
      remove_account_if_empty-Represents p _ a (h.0) _
        (apply_modify-Represents p accounts a (h.0) basic code cells reset r h)
  apply_change-Yields accounts (modify a basic code cells reset) w false r h =
      (_, refl, apply_modify-Represents p accounts a (h.0) basic code cells reset r h)

  apply_changes-Yields :
      (changes : List Apply) (accounts : Accounts) (w : World) (delete_empty : Bool)
      → Represents p w accounts
      → All IsApply changes
      → Yields (apply_changes p delete_empty changes w) (apply_all changes accounts)
  unfolding apply_changes
  apply_changes-Yields [] accounts w d r h = (w, refl, r)
  apply_changes-Yields (change ∷ changes) accounts w d r (hc, h) =
      let (w1, done, r1) = apply_change-Yields accounts change w d r hc in
      rw done (apply_changes-Yields changes (apply_to change accounts) w1 d r1 h)

  log-Represents :
      {accounts : Accounts} (w : World) (text : Bytes)
      → Represents p w accounts
      → Represents p (p.log_utf8 w text) accounts
  unfolding get_nonce get_balance get_code get_storage
  log-Represents w text r = record {
    nonces = λ a h. rw p.read-log (r.nonces a h);
    balances = λ a h. rw p.read-log (r.balances a h);
    codes = λ a h. rw p.read-log (r.codes a h);
    cells = λ a k h hk. rw p.read-log (r.cells a k h hk);
  }

  apply_logs-Yields :
      (logs : List Log) (accounts : Accounts) (w : World)
      → Represents p w accounts
      → All IsLog logs
      → Yields (apply_logs p logs w) accounts
  unfolding apply_logs
  apply_logs-Yields [] accounts w r h = (w, refl, r)
  apply_logs-Yields (log ∷ logs) accounts w r ((words, bytes, payload), h) =
      let (hex, written, _, _) =
        bytes_to_hex-from_hex ((length log.topics % 256) ∷ (flat log.topics ++ log.payload)) (
          omega arith,
          AreBytes-append (flat log.topics) log.payload (AreBytes-flat log.topics bytes) payload,
        ) in
      rw (log_to_bytes-flat log words, written)
        (apply_logs-Yields logs accounts _ (log-Represents w hex r) h)

  -- Applying an executor's changes and logs returns, and storage then reads as the accounts changed
  -- one by one: a change writes the nonce, the balance, the code if it has one, and its cells, of
  -- its own account alone; a deletion clears all but the cells. Removing empty accounts changes no
  -- reading, and `reset_storage` has no effect.
  pub apply-Yields :
      (accounts : Accounts) (values : List Apply) (logs : List Log) (delete_empty : Bool)
      (w : World)
      → Represents p w accounts
      → All IsApply values
      → All IsLog logs
      → Yields (apply p values logs delete_empty w) (apply_all values accounts)
  unfolding apply
  apply-Yields accounts values logs delete_empty w r hv hl =
      let (w1, done, r1) = apply_changes-Yields values accounts w delete_empty r hv in
      rw done (apply_logs-Yields logs (apply_all values accounts) w1 r1 hl)

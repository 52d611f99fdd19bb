-- ===== src/Engine/ApplyBackend.antt =====
-- `impl ApplyBackend for Engine` of src/engine.rs: writing an executor's changes to storage.
pub mod Refines
pub mod Total
pub mod Frame
use aurora_engine.Prelude.{
  Bool, Option, none, some, List, [], ◌∷◌, Outcome, ok, ◌>>=◌, Bytes, bytes_eq, if◌then◌else◌,
}
use aurora_engine.Types.{Log, log_to_bytes, bytes_to_hex}
use aurora_engine.Evm.{Basic, Apply, modify, delete}
use aurora_engine.Platform.{Platform}
use aurora_engine.Engine.{
  zero_word, set_nonce, set_balance, set_code, set_storage, remove_storage, remove_all_storage,
  remove_account, remove_account_if_empty,
}

module _ (p : Platform) where
  open p use {World}

  -- `for (index, value) in storage`
  unfoldable pub apply_cells : Bytes → List (Bytes × Bytes) → World → World
  apply_cells address [] w = w
  apply_cells address ((index, value) ∷ cells) w = apply_cells address cells (
      if bytes_eq value zero_word
      then remove_storage p address index w
      else set_storage p address index value w)

  -- `if let Some(code) = code`
  unfoldable pub apply_code : Bytes → Option Bytes → World → World
  apply_code address none w = w
  apply_code address (some code) w = set_code p address code w

  -- `Apply::Modify`, up to the removal of an empty account.
  unfoldable pub apply_modify :
      Bytes → Basic → Option Bytes → List (Bytes × Bytes) → Bool → World → World
  unfolding apply_cells apply_code
  apply_modify address basic code cells reset_storage w =
      let w1 = set_nonce p address basic.nonce w in
      let w2 = set_balance p address basic.balance w1 in
      let w3 = apply_code address code w2 in
      let w4 = if reset_storage then remove_all_storage p address w3 else w3 in
      apply_cells address cells w4

  unfoldable pub apply_change : Bool → Apply → World → Outcome World
  apply_change delete_empty (modify address basic code cells reset_storage) w =
      let w' = apply_modify address basic code cells reset_storage w in
      if delete_empty then remove_account_if_empty p address w' else ok w'
  apply_change delete_empty (delete address) w = ok (remove_account p address w)

  unfoldable pub apply_changes : Bool → List Apply → World → Outcome World
  apply_changes delete_empty [] w = ok w
  apply_changes delete_empty (change ∷ changes) w = do
    w' ← apply_change delete_empty change w
    apply_changes delete_empty changes w'

  -- `sdk::log_utf8(&bytes_to_hex(&log_to_bytes(log)).into_bytes())`
  unfoldable pub apply_logs : List Log → World → Outcome World
  apply_logs [] w = ok w
  apply_logs (log ∷ logs) w = do
    bytes ← log_to_bytes log
    hex ← bytes_to_hex bytes
    apply_logs logs (p.log_utf8 w hex)

  unfoldable pub apply : List Apply → List Log → Bool → World → Outcome World
  apply values logs delete_empty w = do w' ← apply_changes delete_empty values w; apply_logs logs w'

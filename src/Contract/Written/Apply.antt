-- ===== src/Contract/Written/Apply.antt =====
-- Writing an executor's changes, `impl ApplyBackend for Engine` of src/engine.rs, call by call of
-- src/sdk.rs.
pub mod Described
pub mod Safe
pub mod Fitting
pub mod Represents
use aurora_engine.Prelude.{
  ℕ, Bool, true, false, ◌&&◌, ◌==◌, Option, none, some, List, [], ◌∷◌, Outcome, Bytes, bytes_eq,
  length, if◌then◌else◌,
}
use aurora_engine.Storage.{nonce, balance, code, address_to_key, storage_to_key}
use aurora_engine.Types.{Log, u256_to_arr, log_to_bytes, bytes_to_hex}
use aurora_engine.Evm.{Basic, Apply, modify, delete}
use aurora_engine.Platform.{Platform}
use aurora_engine.Sdk.Programs.{
  done, call, attempt, and_then, read_storage, write_storage, remove_storage, log_utf8,
}
use aurora_engine.Engine.{value_or, or_empty, zero_word}
use aurora_engine.Contract.Written.Codes.{Code}

abbrev pub writing : Bytes → Bytes → Code
writing key value = call (write_storage key value) done

abbrev pub removing : Bytes → Code
removing key = call (remove_storage key) done

abbrev pub then_code : Code → Code → Code
then_code first second = and_then first (λ _. second)

module _ (p : Platform) where
  -- `set_nonce`, `set_balance`, `set_code` and `set_storage`, or the removal of a zero
  abbrev pub nonce_written : Bytes → ℕ → Code
  nonce_written address n = writing (address_to_key nonce address) (u256_to_arr p.primitives n)

  abbrev pub balance_written : Bytes → ℕ → Code
  balance_written address n = writing (address_to_key balance address) (u256_to_arr p.primitives n)

  abbrev pub code_written : Bytes → Option Bytes → Code
  code_written address none = done tt
  code_written address (some bytes) = writing (address_to_key code address) bytes

  abbrev pub cell_written : Bytes → Bytes → Bytes → Code
  cell_written address index value =
      if bytes_eq value zero_word
      then removing (storage_to_key address index)
      else writing (storage_to_key address index) value

  pub cells_written : Bytes → List (Bytes × Bytes) → Code
  cells_written address [] = done tt
  cells_written address ((index, value) ∷ cells) =
      then_code (cell_written address index value) (cells_written address cells)

  -- `Apply::Modify`; `remove_all_storage` does nothing.
  unfoldable pub modify_written : Bytes → Basic → Option Bytes → List (Bytes × Bytes) → Code
  unfolding cells_written
  modify_written address basic bytes cells = then_code (nonce_written address basic.nonce) (
      then_code (balance_written address basic.balance)
        (then_code (code_written address bytes) (cells_written address cells)))

  unfoldable pub account_removed : Bytes → Code
  account_removed address = then_code (removing (address_to_key nonce address)) (
      then_code (removing (address_to_key balance address))
        (removing (address_to_key code address)))

  unfoldable pub empty_removed : Bytes → Code
  unfolding account_removed
  empty_removed address = call (read_storage (address_to_key balance address)) (λ stored.
      attempt (value_or p.from_big_endian 0 stored) (λ b.
        call (read_storage (address_to_key nonce address)) (λ stored.
          attempt (value_or p.from_big_endian 0 stored) (λ n.
            call (read_storage (address_to_key code address)) (λ stored.
              if b == 0 && n == 0 && length (or_empty p stored) == 0
              then account_removed address
              else done tt)))))

  unfoldable pub change_written : Bool → Apply → Code
  unfolding modify_written account_removed empty_removed
  change_written delete_empty (modify address basic bytes cells reset_storage) =
      then_code (modify_written address basic bytes cells)
        (if delete_empty then empty_removed address else done tt)
  change_written delete_empty (delete address) = account_removed address

  unfoldable pub changes_written : Bool → List Apply → Code
  unfolding change_written
  changes_written delete_empty [] = done tt
  changes_written delete_empty (change ∷ changes) =
      then_code (change_written delete_empty change) (changes_written delete_empty changes)

  unfoldable pub logs_written : List Log → Code
  logs_written [] = done tt
  logs_written (log ∷ logs) =
      attempt (log_to_bytes log) (λ bytes.
        attempt (bytes_to_hex bytes) (λ hex. call (log_utf8 hex) (λ _. logs_written logs)))

  unfoldable pub apply_written : List Apply → List Log → Bool → Code
  unfolding changes_written logs_written
  apply_written values logs delete_empty =
      then_code (changes_written delete_empty values) (logs_written logs)

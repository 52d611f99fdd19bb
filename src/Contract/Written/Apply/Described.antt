-- ===== src/Contract/Written/Apply/Described.antt =====
-- Call by call of src/sdk.rs, an executor's changes are written as `apply` of src/engine.rs does in
-- the model.
use aurora_engine.Prelude.{
  ℕ, ◌≡◌, refl, sym, ◌∙◌, ap, Bool, true, false, ◌&&◌, ◌==◌, Option, none, some, List, [], ◌∷◌,
  Outcome, ok, err, panic, ◌>>=◌, >>=_cong, >>=_assoc, Bytes, bytes_eq, length, if◌then◌else◌,
}
use aurora_engine.Storage.{KeyPrefix, nonce, balance, code, address_to_key, storage_to_key}
use aurora_engine.Types.{Log, log_to_bytes, bytes_to_hex}
use aurora_engine.Evm.{Basic, Apply, modify, delete}
use aurora_engine.Platform.{Platform}
use aurora_engine.Sdk.Programs.{
  done, call, attempt, read_storage, and_then, run_described, run_described-and_then,
  run_described-attempt,
}
use aurora_engine.Engine.{
  value_or, or_empty, zero_word, set_nonce, set_balance, set_code, set_storage, remove_storage,
  remove_nonce, remove_balance, remove_code, remove_account, remove_account_if_empty,
  remove_all_storage, is_account_empty, get_nonce, get_balance, get_code,
}
use aurora_engine.Engine.ApplyBackend.{
  apply_cells, apply_code, apply_modify, apply_change, apply_changes, apply_logs, apply,
}
use aurora_engine.Contract.Written.Codes.{Code}
use aurora_engine.Contract.Written.Apply.{
  removing, writing, then_code, cell_written, code_written, cells_written, modify_written,
  account_removed, empty_removed, change_written, changes_written, logs_written, apply_written,
}

module _ (p : Platform) where
  open p use {World}

  abbrev pub with_unit : Outcome World → Outcome (Unit {0} × World)
  with_unit o = o >>= λ w. ok (tt, w)

  -- The code ends as the function.
  abbrev pub Ends : Code → World → Outcome World → Type 0
  Ends c w o = run_described p c w ≡ with_unit o

  pub then-Ends :
      (c d : Code) (w : World) (o : Outcome World) (next : World → Outcome World)
      → Ends c w o
      → ((v : World) → Ends d v (next v))
      → Ends (then_code c d) w (o >>= next)
  then-Ends c d w o next h k =
      run_described-and_then p c (λ _. d) w
      ∙ ap (λ m. m >>= λ (_, v). run_described p d v) h
      ∙ >>=_assoc o (λ v. ok (tt, v)) (λ (_, v). run_described p d v)
      ∙ >>=_cong o _ _ k
      ∙ sym (>>=_assoc o next (λ v. ok (tt, v)))

  module _ (a : Bytes) where
    cell-Ends :
        (index value : Bytes) (zero : Bool) (w : World)
        → Ends
            (if zero
              then removing (storage_to_key a index)
              else writing (storage_to_key a index) value)
            w
            (ok (if zero then remove_storage p a index w else set_storage p a index value w))
    unfolding remove_storage set_storage
    cell-Ends index value true w = refl
    cell-Ends index value false w = refl

    cells-Ends :
        (cells : List (Bytes × Bytes)) (w : World)
        → Ends (cells_written p a cells) w (ok (apply_cells p a cells w))
    unfolding cells_written apply_cells
    cells-Ends [] w = refl
    cells-Ends ((index, value) ∷ cells) w =
        then-Ends (cell_written p a index value) (cells_written p a cells) w (ok _)
          (λ v. ok (apply_cells p a cells v)) (cell-Ends index value (bytes_eq value zero_word) w)
          (cells-Ends cells)

    code-Ends :
        (bytes : Option Bytes) (w : World)
        → Ends (code_written p a bytes) w (ok (apply_code p a bytes w))
    unfolding apply_code set_code
    code-Ends none w = refl
    code-Ends (some bytes) w = refl

    modify-Ends :
        (basic : Basic) (bytes : Option Bytes) (cells : List (Bytes × Bytes)) (reset : Bool)
        (w : World)
        → Ends
            (modify_written p a basic bytes cells)
            w
            (ok (apply_modify p a basic bytes cells reset w))
    unfolding modify_written apply_modify set_nonce set_balance and_then
    modify-Ends basic bytes cells reset w =
        then-Ends (code_written p a bytes) (cells_written p a cells) _ (ok _)
          (λ v. ok (apply_cells p a cells (if reset then remove_all_storage p a v else v)))
          (code-Ends bytes _) (λ v. not_reset reset v)
      where
        not_reset :
            (b : Bool) (v : World)
            → Ends
                (cells_written p a cells)
                v
                (ok (apply_cells p a cells (if b then remove_all_storage p a v else v)))
        not_reset true v = cells-Ends cells v
        not_reset false v = cells-Ends cells v

    removed-Ends : (w : World) → Ends (account_removed p a) w (ok (remove_account p a w))
    unfolding account_removed and_then remove_account remove_nonce remove_balance remove_code
    removed-Ends w = refl

    -- The rest of the removal of an empty account, after the reads.
    emptied :
        (empty : Bool) (w : World)
        → Ends
            (if empty then account_removed p a else done tt)
            w
            (ok (if empty then remove_account p a w else w))
    emptied true w = removed-Ends w
    emptied false w = refl

    empty-Ends : (w : World) → Ends (empty_removed p a) w (remove_account_if_empty p a w)
    unfolding empty_removed remove_account_if_empty is_account_empty get_balance get_nonce get_code
    empty-Ends w = read_balance (number balance)
      where
        number : KeyPrefix → Outcome ℕ
        number prefix = value_or p.from_big_endian 0 (p.storage_read w (address_to_key prefix a))

        is_empty : ℕ → ℕ → Bool
        is_empty b n =
            b == 0 && n == 0 && length (or_empty p (p.storage_read w (address_to_key code a))) == 0

        read_nonce :
            (b : ℕ) (on : Outcome ℕ)
            → run_described p
                (attempt on (λ n. call (read_storage (address_to_key code a)) (λ stored.
                  if b == 0 && n == 0 && length (or_empty p stored) == 0
                  then account_removed p a
                  else done tt)))
                w
              ≡ with_unit (
                  (on >>= λ n. ok (is_empty b n)) >>= λ empty.
                  ok (if empty then remove_account p a w else w))
        read_nonce b (ok n) = emptied (is_empty b n) w
        read_nonce b (err e) = refl
        read_nonce b (panic e) = refl

        read_balance :
            (ob : Outcome ℕ)
            → run_described p
                (attempt ob (λ b. call (read_storage (address_to_key nonce a)) (λ stored.
                  attempt (value_or p.from_big_endian 0 stored) (λ n.
                    call (read_storage (address_to_key code a)) (λ stored.
                      if b == 0 && n == 0 && length (or_empty p stored) == 0
                      then account_removed p a
                      else done tt)))))
                w
              ≡ with_unit (
                  (ob >>= λ b. number nonce >>= λ n. ok (is_empty b n)) >>= λ empty.
                  ok (if empty then remove_account p a w else w))
        read_balance (ok b) = read_nonce b (number nonce)
        read_balance (err e) = refl
        read_balance (panic e) = refl

  module _ (delete_empty : Bool) where
    if_asked :
        (asked : Bool) (a : Bytes) (w : World)
        → Ends
            (if asked then empty_removed p a else done tt)
            w
            (if asked then remove_account_if_empty p a w else ok w)
    if_asked true a w = empty-Ends a w
    if_asked false a w = refl

    change-Ends :
        (change : Apply) (w : World)
        → Ends (change_written p delete_empty change) w (apply_change p delete_empty change w)
    unfolding change_written apply_change
    change-Ends (delete a) w = removed-Ends a w
    change-Ends (modify a basic bytes cells reset) w =
        then-Ends (modify_written p a basic bytes cells)
          (if delete_empty then empty_removed p a else done tt) w
          (ok (apply_modify p a basic bytes cells reset w))
          (λ v. if delete_empty then remove_account_if_empty p a v else ok v)
          (modify-Ends a basic bytes cells reset w) (if_asked delete_empty a)

    changes-Ends :
        (changes : List Apply) (w : World)
        → Ends (changes_written p delete_empty changes) w (apply_changes p delete_empty changes w)
    unfolding changes_written apply_changes
    changes-Ends [] w = refl
    changes-Ends (change ∷ changes) w =
        then-Ends (change_written p delete_empty change) (changes_written p delete_empty changes) w
          (apply_change p delete_empty change w) (apply_changes p delete_empty changes)
          (change-Ends change w) (changes-Ends changes)

    logs-Ends : (logs : List Log) (w : World) → Ends (logs_written p logs) w (apply_logs p logs w)
    unfolding logs_written apply_logs
    logs-Ends [] w = refl
    logs-Ends (log ∷ logs) w =
        run_described-attempt p (log_to_bytes log) _ w
        ∙ >>=_cong (log_to_bytes log) _ _ (λ bytes.
          run_described-attempt p (bytes_to_hex bytes) _ w
          ∙ >>=_cong (bytes_to_hex bytes) _ _ (λ hex. logs-Ends logs (p.log_utf8 w hex))
          ∙ sym (
              >>=_assoc (bytes_to_hex bytes) (λ hex. apply_logs p logs (p.log_utf8 w hex))
                (λ v. ok (tt, v))))
        ∙ sym (
            >>=_assoc (log_to_bytes log)
              (λ bytes. bytes_to_hex bytes >>= λ hex. apply_logs p logs (p.log_utf8 w hex))
              (λ v. ok (tt, v)))

    pub apply-Ends :
        (values : List Apply) (logs : List Log) (w : World)
        → Ends (apply_written p values logs delete_empty) w (apply p values logs delete_empty w)
    unfolding apply_written apply
    apply-Ends values logs w =
        then-Ends (changes_written p delete_empty values) (logs_written p logs) w
          (apply_changes p delete_empty values w) (apply_logs p logs) (changes-Ends values w)
          (logs-Ends logs)

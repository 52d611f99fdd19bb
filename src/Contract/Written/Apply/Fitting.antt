-- ===== src/Contract/Written/Apply/Fitting.antt =====
-- What `apply` of src/engine.rs moves through registers fits there, where what is stored does and the
-- new codes do.
use aurora_engine.Prelude.{
  Bool, ◌&&◌, ◌==◌, Option, none, some, List, [], ◌∷◌, Bytes, bytes_eq, length, All, arith,
}
use aurora_engine.Packages.{IsWord}
use aurora_engine.Types.{Log, log_to_bytes, bytes_to_hex}
use aurora_engine.Evm.{Apply, modify, delete, IsApply, IsCell}
use aurora_engine.Platform.{Platform}
use aurora_engine.Sdk.Held.{Short, ShortIfAny}
use aurora_engine.Engine.{value_or, or_empty, zero_word}
use aurora_engine.Contract.Written.Fitting.{FitsIfShort}
use aurora_engine.Contract.Written.Apply.Safe.{
  IsSafe, writing-IsSafe, removing-IsSafe, done-IsSafe, then-IsSafe, attempt-IsSafe, read-IsSafe,
  log-IsSafe, if-IsSafe,
}
use aurora_engine.Contract.Written.Apply.{
  cell_written, code_written, cells_written, modify_written, account_removed, empty_removed,
  change_written, changes_written, logs_written, apply_written,
}

-- The new code of an account fits into a register.
abbrev pub HasShortCode : Apply → Type 0
HasShortCode (modify address basic bytes cells reset) = ShortIfAny bytes
HasShortCode (delete address) = Unit

module _ (p : Platform) where
  word-Short : (v : Bytes) → IsWord v → Short v
  word-Short v h = omega (arith, h)

  cells-IsSafe :
      (a : Bytes) (cells : List (Bytes × Bytes))
      → All IsCell cells
      → IsSafe p (cells_written p a cells)
  unfolding cells_written
  cells-IsSafe a [] h = done-IsSafe p
  cells-IsSafe a ((index, value) ∷ cells) ((_, hv), h) =
      then-IsSafe p (cell_written p a index value) (cells_written p a cells)
        (if-IsSafe p (bytes_eq value zero_word) _ _ (removing-IsSafe p _)
          (writing-IsSafe p _ value (word-Short value hv)))
        (cells-IsSafe a cells h)

  code-IsSafe :
      (a : Bytes) (bytes : Option Bytes) → ShortIfAny bytes → IsSafe p (code_written p a bytes)
  code-IsSafe a none h = done-IsSafe p
  code-IsSafe a (some bytes) h = writing-IsSafe p _ bytes h

  removed-IsSafe : (a : Bytes) → IsSafe p (account_removed p a)
  unfolding account_removed
  removed-IsSafe a =
      then-IsSafe p _ _ (removing-IsSafe p _)
        (then-IsSafe p _ _ (removing-IsSafe p _) (removing-IsSafe p _))

  empty-IsSafe : (a : Bytes) → IsSafe p (empty_removed p a)
  unfolding empty_removed
  empty-IsSafe a = read-IsSafe p _ _ (λ stored.
      attempt-IsSafe p (value_or p.from_big_endian 0 stored) _ (λ b. read-IsSafe p _ _ (λ stored.
        attempt-IsSafe p (value_or p.from_big_endian 0 stored) _ (λ n. read-IsSafe p _ _ (λ stored.
          if-IsSafe p (b == 0 && n == 0 && length (or_empty p stored) == 0) _ _ (removed-IsSafe a)
            (done-IsSafe p))))))

  change-IsSafe :
      (delete_empty : Bool) (change : Apply)
      → IsApply change
      → HasShortCode change
      → IsSafe p (change_written p delete_empty change)
  unfolding change_written modify_written
  change-IsSafe delete_empty (delete a) h k = removed-IsSafe a
  change-IsSafe delete_empty (modify a basic bytes cells reset) (_, _, _, hc) k =
      then-IsSafe p _ _
        (then-IsSafe p _ _
          (writing-IsSafe p _ _ (word-Short _ (p.length-to_big_endian basic.nonce)))
          (then-IsSafe p _ _
            (writing-IsSafe p _ _ (word-Short _ (p.length-to_big_endian basic.balance)))
            (then-IsSafe p _ _ (code-IsSafe a bytes k) (cells-IsSafe a cells hc))))
        (if-IsSafe p delete_empty _ _ (empty-IsSafe a) (done-IsSafe p))

  changes-IsSafe :
      (delete_empty : Bool) (changes : List Apply)
      → All IsApply changes
      → All HasShortCode changes
      → IsSafe p (changes_written p delete_empty changes)
  unfolding changes_written
  changes-IsSafe delete_empty [] h k = done-IsSafe p
  changes-IsSafe delete_empty (change ∷ changes) (hc, h) (kc, k) =
      then-IsSafe p _ _ (change-IsSafe delete_empty change hc kc)
        (changes-IsSafe delete_empty changes h k)

  logs-IsSafe : (logs : List Log) → IsSafe p (logs_written p logs)
  unfolding logs_written
  logs-IsSafe [] = done-IsSafe p
  logs-IsSafe (log ∷ logs) = attempt-IsSafe p (log_to_bytes log) _ (λ bytes.
      attempt-IsSafe p (bytes_to_hex bytes) _ (λ hex. log-IsSafe p hex _ (logs-IsSafe logs)))

  pub apply_written-FitsIfShort :
      (values : List Apply) (logs : List Log) (delete_empty : Bool)
      → All IsApply values
      → All HasShortCode values
      → FitsIfShort p (apply_written p values logs delete_empty)
  unfolding apply_written
  apply_written-FitsIfShort values logs delete_empty h k =
      let safe : IsSafe p (apply_written p values logs delete_empty) =
        then-IsSafe p _ _ (changes-IsSafe delete_empty values h k) (logs-IsSafe logs) in
      safe.fits

-- ===== src/Contract/Written/Reads.antt =====
-- The reads of src/engine.rs and src/lib.rs, call by call, read what the model says.
use aurora_engine.Prelude.{refl, ok, Bytes}
use aurora_engine.Storage.{
  KeyPrefix, nonce, balance, code, address_to_key, storage_to_key, state_key,
}
use aurora_engine.Platform.{Platform}
use aurora_engine.Sdk
use aurora_engine.Sdk.Programs.{done, call, read_input, read_storage}
use aurora_engine.Engine.{
  value_or, or_empty, zero_word, get_state, get_nonce, get_balance, get_code, get_storage,
}
use aurora_engine.Contract.Written.Codes.{
  read_all_input, decoded_state, read_state, read_number, read_code, read_cell,
}
use aurora_engine.Contract.Written.Does.{Reads, read-Reads, attempt-Reads, call-Reads}

module _ (p : Platform) (w : p.World) where
  pub done-Reads : {A : Type 0} (a : A) → Reads p (done a) w (ok a)
  done-Reads a = record { runs = refl; fits = λ short. tt }

  stored-Reads :
      (key : Bytes) → Reads p (call (read_storage key) done) w (ok (p.storage_read w key))
  stored-Reads key =
      call-Reads p (read_storage key) w (p.storage_read w key) refl (λ short. short.stored key)

  pub read_all_input-Reads : Reads p read_all_input w (ok (Sdk.read_input p w))
  read_all_input-Reads = call-Reads p read_input w (Sdk.read_input p w) refl (λ short. short.input)

  pub read_state-Reads : Reads p (read_state p) w (get_state p w)
  unfolding get_state
  read_state-Reads =
      read-Reads p w _ _ (ok (p.storage_read w state_key)) (decoded_state p)
        (stored-Reads state_key) (λ stored e. attempt-Reads p w (decoded_state p stored))

  number-Reads :
      (prefix : KeyPrefix) (a : Bytes)
      → Reads p
          (read_number p prefix a)
          w
          (value_or p.from_big_endian 0 (p.storage_read w (address_to_key prefix a)))
  number-Reads prefix a =
      read-Reads p w _ _ (ok (p.storage_read w (address_to_key prefix a)))
        (value_or p.from_big_endian 0) (stored-Reads (address_to_key prefix a))
        (λ stored e. attempt-Reads p w (value_or p.from_big_endian 0 stored))

  pub read_nonce-Reads : (a : Bytes) → Reads p (read_number p nonce a) w (get_nonce p a w)
  unfolding get_nonce
  read_nonce-Reads a = number-Reads nonce a

  pub read_balance-Reads : (a : Bytes) → Reads p (read_number p balance a) w (get_balance p a w)
  unfolding get_balance
  read_balance-Reads a = number-Reads balance a

  pub read_code-Reads : (a : Bytes) → Reads p (read_code p a) w (ok (get_code p a w))
  unfolding get_code
  read_code-Reads a =
      read-Reads p w _ _ (ok (p.storage_read w (address_to_key code a)))
        (λ stored. ok (or_empty p stored)) (stored-Reads (address_to_key code a))
        (λ stored e. done-Reads (or_empty p stored))

  pub read_cell-Reads : (a k : Bytes) → Reads p (read_cell p a k) w (get_storage p a k w)
  unfolding get_storage
  read_cell-Reads a k =
      read-Reads p w _ _ (ok (p.storage_read w (storage_to_key a k)))
        (value_or p.h256_from_slice zero_word) (stored-Reads (storage_to_key a k))
        (λ stored e. attempt-Reads p w (value_or p.h256_from_slice zero_word stored))

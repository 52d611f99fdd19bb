-- ===== src/Contract/Written/Asked.antt =====
-- `impl Backend for Engine` of src/engine.rs, call by call of src/sdk.rs, and an executor that asks
-- it.
use aurora_engine.Prelude.{
  refl, Bool, true, false, ◌&&◌, ◌==◌, none, ok, Bytes, length, replicate, if◌then◌else◌,
}
use aurora_engine.Storage.{nonce, balance}
use aurora_engine.Evm.{Basic}
use aurora_engine.Platform.{Platform}
use aurora_engine.Sdk
use aurora_engine.Sdk.Programs.{
  Program, done, call, panics, attempt, and_then, block_index, block_timestamp,
}
use aurora_engine.Engine.{
  Engine, zero_word, backend, is_account_empty, get_nonce, get_balance, get_code, get_storage,
}
use aurora_engine.Contract.Written.Asking.{
  Question, Reply, reply, Asking, answer, ask, breaks, evaluate, for_gas_price, for_origin,
  for_block_number, for_block_coinbase, for_block_timestamp, for_block_difficulty,
  for_block_gas_limit, for_chain_id, for_block_hash, for_exists, for_basic, for_code, for_storage,
  for_original_storage,
}
use aurora_engine.Contract.Written.Codes.{read_number, read_code, read_cell}
use aurora_engine.Contract.Written.Reads.{
  done-Reads, read_nonce-Reads, read_balance-Reads, read_code-Reads, read_cell-Reads,
}
use aurora_engine.Contract.Written.Does.{Reads, read-Reads, attempt-Reads, call-Reads}

module _ (p : Platform) where
  open p use {World}

  -- `Engine::is_account_empty`
  abbrev read_is_empty : Bytes → Program Bool
  read_is_empty address = and_then (read_number p balance address) (λ b.
      and_then (read_number p nonce address) (λ n.
        and_then (read_code p address) (λ bytes. done (b == 0 && n == 0 && length bytes == 0))))

  abbrev read_exists : Bytes → Program Bool
  read_exists address =
      and_then (read_is_empty address) (λ empty. done (if empty then false else true))

  abbrev read_basic : Bytes → Program Basic
  read_basic address = and_then (read_number p nonce address) (λ n.
      and_then (read_number p balance address) (λ b. done (record { balance = b; nonce = n })))

  unfoldable pub replied : Engine → (q : Question) → Program (Reply q)
  replied engine for_gas_price = done 0
  replied engine for_origin = done engine.origin
  replied engine for_block_number = call block_index done
  replied engine for_block_coinbase = done (replicate 20 0)
  replied engine for_block_timestamp = call block_timestamp done
  replied engine for_block_difficulty = done 0
  replied engine for_block_gas_limit = done 0
  replied engine for_chain_id = attempt (p.from_big_endian engine.state.chain_id) done
  replied engine (for_block_hash number) = done zero_word
  replied engine (for_exists address) = read_exists address
  replied engine (for_basic address) = read_basic address
  replied engine (for_code address) = read_code p address
  replied engine (for_storage address index) = read_cell p address index
  replied engine (for_original_storage address index) = done none

  unfoldable pub asked : {A : Type 0} → Engine → Asking A → Program A
  asked engine (answer a) = done a
  asked engine (ask q next) = and_then (replied engine q) (λ r. asked engine (next r))
  asked engine (breaks e) = panics e

  module _ (w : World) where
    read_is_empty-Reads : (a : Bytes) → Reads p (read_is_empty a) w (is_account_empty p a w)
    unfolding is_account_empty get_nonce get_balance
    read_is_empty-Reads a =
        read-Reads p w (read_number p balance a) _ (get_balance p a w) _ (read_balance-Reads p w a)
          (λ b e.
            read-Reads p w (read_number p nonce a) _ (get_nonce p a w) _ (read_nonce-Reads p w a)
              (λ n e.
                read-Reads p w (read_code p a) _ (ok (get_code p a w))
                  (λ bytes. ok (b == 0 && n == 0 && length bytes == 0)) (read_code-Reads p w a)
                  (λ bytes e. done-Reads p w (b == 0 && n == 0 && length bytes == 0))))

    replied-Reads :
        (engine : Engine) (q : Question)
        → Reads p (replied engine q) w (reply (backend p engine w) q)
    unfolding replied backend is_account_empty get_nonce get_balance get_code get_storage
    replied-Reads engine for_block_number =
        call-Reads p block_index w (Sdk.block_index p w) refl (λ short. tt)
    replied-Reads engine for_block_timestamp =
        call-Reads p block_timestamp w (Sdk.block_timestamp p w) refl (λ short. tt)
    replied-Reads engine for_chain_id = attempt-Reads p w (p.from_big_endian engine.state.chain_id)
    replied-Reads engine (for_exists a) =
        read-Reads p w (read_is_empty a) _ (is_account_empty p a w) _ (read_is_empty-Reads a)
          (λ empty e. done-Reads p w (if empty then false else true))
    replied-Reads engine (for_basic a) =
        read-Reads p w (read_number p nonce a) _ (get_nonce p a w) _ (read_nonce-Reads p w a)
          (λ n e.
            read-Reads p w (read_number p balance a) _ (get_balance p a w) _
              (read_balance-Reads p w a)
              (λ b e. done-Reads p w (record { balance = b; nonce = n })))
    replied-Reads engine (for_code a) = read_code-Reads p w a
    replied-Reads engine (for_storage a k) = read_cell-Reads p w a k
    replied-Reads engine for_gas_price = done-Reads p w 0
    replied-Reads engine for_origin = done-Reads p w engine.origin
    replied-Reads engine for_block_coinbase = done-Reads p w (replicate 20 0)
    replied-Reads engine for_block_difficulty = done-Reads p w 0
    replied-Reads engine for_block_gas_limit = done-Reads p w 0
    replied-Reads engine (for_block_hash number) = done-Reads p w zero_word
    replied-Reads engine (for_original_storage a k) = done-Reads p w none

    pub asked-Reads :
        {A : Type 0} (engine : Engine) (t : Asking A)
        → Reads p (asked engine t) w (evaluate (backend p engine w) t)
    unfolding asked
    asked-Reads engine (answer a) = done-Reads p w a
    asked-Reads engine (ask q next) =
        read-Reads p w (replied engine q) _ (reply (backend p engine w) q) _
          (replied-Reads engine q) (λ r e. asked-Reads engine (next r))
    asked-Reads engine (breaks e) = record { runs = refl; fits = λ short. tt }

-- ===== src/Engine.antt =====
-- src/engine.rs: the engine's state, the accounts in storage, the backend that an executor reads,
-- and the calls. `Engine` is its configuration and the caller; what it stores is in the world.
pub mod Slots
pub mod Abstract
pub mod Updates
pub mod Shown
pub mod ApplyBackend
pub mod Calls
use aurora_engine.Prelude.{
  ℕ, Bool, true, false, ◌&&◌, Option, none, some, List, [], ◌∷◌, Outcome, ok, ◌>>=◌, expect, Bytes,
  bytes_eq, codes, length, replicate, ◌==◌, ◌-◌, if◌then◌else◌,
}
use aurora_engine.Packages.{u64_mod}
use aurora_engine.Types.{Log, u256_to_arr, log_to_bytes, bytes_to_hex}
use aurora_engine.Storage.{nonce, balance, code, address_to_key, storage_to_key, state_key}
use aurora_engine.Parameters.{EngineState, FunctionCallArgs, ViewCallArgs}
use aurora_engine.Evm.{Basic, Backend, Apply, modify, delete, Execution, ExitReason, fatal}
use aurora_engine.Platform.{Platform}
use aurora_engine.Precompiles.{istanbul_precompiles}
use aurora_engine.Sdk

pub record Engine : Type 0 where
  pub state : EngineState
  pub origin : Bytes

-- `EngineState::default()`
abbrev pub default_state : EngineState
default_state = record {
  chain_id = replicate 32 0;
  owner_id = [];
  bridge_prover_id = [];
  upgrade_delay_blocks = 0;
}

abbrev pub zero_word : Bytes
zero_word = replicate 32 0

abbrev pub value_or {ℓ} : {A : Type ℓ} → (Bytes → Outcome A) → A → Option Bytes → Outcome A
value_or read default none = ok default
value_or read default (some bytes) = read bytes

module _ (p : Platform) where
  open p use {World}

  unfoldable pub set_state : EngineState → World → World
  set_state state = Sdk.write_storage p state_key (p.states.to_vec state)

  unfoldable pub get_state : World → Outcome EngineState
  get_state w =
      value_or (λ bytes. expect (p.states.from_slice bytes)) default_state
        (Sdk.read_storage p state_key w)

  abbrev pub new_with_state : EngineState → Bytes → Engine
  new_with_state state origin = record { state = state; origin = origin }

  abbrev pub new : Bytes → World → Outcome Engine
  new origin w = get_state w >>= λ state. ok (new_with_state state origin)

  unfoldable pub set_code : Bytes → Bytes → World → World
  set_code address bytes = Sdk.write_storage p (address_to_key code address) bytes

  unfoldable pub remove_code : Bytes → World → World
  remove_code address = Sdk.remove_storage p (address_to_key code address)

  abbrev pub or_empty : Option Bytes → Bytes
  or_empty none = []
  or_empty (some bytes) = bytes

  unfoldable pub get_code : Bytes → World → Bytes
  get_code address w = or_empty (Sdk.read_storage p (address_to_key code address) w)

  abbrev pub get_code_size : Bytes → World → ℕ
  get_code_size address w = length (get_code address w)

  unfoldable pub set_nonce : Bytes → ℕ → World → World
  set_nonce address n =
      Sdk.write_storage p (address_to_key nonce address) (u256_to_arr p.primitives n)

  unfoldable pub remove_nonce : Bytes → World → World
  remove_nonce address = Sdk.remove_storage p (address_to_key nonce address)

  unfoldable pub get_nonce : Bytes → World → Outcome ℕ
  get_nonce address w =
      value_or p.from_big_endian 0 (Sdk.read_storage p (address_to_key nonce address) w)

  unfoldable pub set_balance : Bytes → ℕ → World → World
  set_balance address n =
      Sdk.write_storage p (address_to_key balance address) (u256_to_arr p.primitives n)

  unfoldable pub remove_balance : Bytes → World → World
  remove_balance address = Sdk.remove_storage p (address_to_key balance address)

  unfoldable pub get_balance : Bytes → World → Outcome ℕ
  get_balance address w =
      value_or p.from_big_endian 0 (Sdk.read_storage p (address_to_key balance address) w)

  unfoldable pub remove_storage : Bytes → Bytes → World → World
  remove_storage address key = Sdk.remove_storage p (storage_to_key address key)

  unfoldable pub set_storage : Bytes → Bytes → Bytes → World → World
  set_storage address key value = Sdk.write_storage p (storage_to_key address key) value

  unfoldable pub get_storage : Bytes → Bytes → World → Outcome Bytes
  get_storage address key w =
      value_or p.h256_from_slice zero_word (Sdk.read_storage p (storage_to_key address key) w)

  unfoldable pub is_account_empty : Bytes → World → Outcome Bool
  is_account_empty address w = do
    b ← get_balance address w
    n ← get_nonce address w
    let code_len = get_code_size address w
    ok (b == 0 && n == 0 && code_len == 0)

  -- `FIXME: there is presently no way to prefix delete trie state.`
  abbrev pub remove_all_storage : Bytes → World → World
  remove_all_storage address w = w

  unfoldable pub remove_account : Bytes → World → World
  remove_account address w =
      remove_all_storage address
        (remove_code address (remove_balance address (remove_nonce address w)))

  unfoldable pub remove_account_if_empty : Bytes → World → Outcome World
  remove_account_if_empty address w = do
    empty ← is_account_empty address w
    ok (if empty then remove_account address w else w)

  -- `impl Backend for Engine`.
  unfoldable pub backend : Engine → World → Backend
  backend engine w = record {
    gas_price = 0;
    origin = engine.origin;
    block_hash = λ number. zero_word;
    block_number = Sdk.block_index p w;
    block_coinbase = replicate 20 0;
    block_timestamp = Sdk.block_timestamp p w;
    block_difficulty = 0;
    block_gas_limit = 0;
    chain_id = p.from_big_endian engine.state.chain_id;
    exists = λ address. is_account_empty address w >>= λ empty. ok (if empty then false else true);
    basic = λ address. do
      n ← get_nonce address w
      b ← get_balance address w
      ok (record { balance = b; nonce = n });
    code = λ address. get_code address w;
    storage = λ address index. get_storage address index w;
    original_storage = λ address index. none;
  }

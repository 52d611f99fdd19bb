-- ===== src/Sdk.antt =====
-- src/sdk.rs: what the contract asks of the NEAR runtime. A register that is read into a buffer of
-- fixed size is written there whole, however long it is.
pub mod Runtime
pub mod Wasm
pub mod Held
pub mod Programs
pub mod Refines
pub mod Deploys
pub mod Reads
pub mod Contracts
use aurora_engine.Prelude.{
  ℕ, ◌-◌, ◌++◌, Option, none, some, Outcome, ok, panic, panic_utf8, abort, memory_fault, ◌>>=◌,
  Bytes, length, replicate, leb, if◌then◌else◌, le_value,
}
use aurora_engine.Platform.{Platform}
use aurora_engine.Types.{bytes_to_hex}

-- `read_register` into a buffer of `size` zero bytes.
abbrev pub fill_buffer : ℕ → Bytes → Outcome Bytes
fill_buffer size bytes =
    if leb (length bytes) size
    then ok (bytes ++ replicate (size - length bytes) 0)
    else panic memory_fault

-- `u64::from_le_bytes` of a register, if there is one.
abbrev pub u64_of : Option Bytes → Outcome (Option ℕ)
u64_of none = ok none
u64_of (some bytes) = fill_buffer 8 bytes >>= λ result. ok (some (le_value result))

module _ (p : Platform) where
  open p use {World, context, storage_read, storage_write, storage_remove, deploy_contract}

  abbrev pub read_input : World → Bytes
  read_input w = (context w).input

  abbrev pub read_input_arr20 : World → Outcome Bytes
  read_input_arr20 w = fill_buffer 20 (read_input w)

  -- The input goes from its register into storage.
  abbrev pub read_input_and_store : Bytes → World → World
  read_input_and_store key w = storage_write w key (read_input w)

  abbrev pub return_output : Bytes → World → World
  return_output value w = p.value_return w value

  abbrev pub read_storage : Bytes → World → Option Bytes
  read_storage key w = storage_read w key

  abbrev pub read_u64 : Bytes → World → Outcome (Option ℕ)
  read_u64 key w = u64_of (storage_read w key)

  abbrev pub write_storage : Bytes → Bytes → World → World
  write_storage key value w = storage_write w key value

  abbrev pub remove_storage : Bytes → World → World
  remove_storage key w = storage_remove w key

  abbrev pub block_index : World → ℕ
  block_index w = (context w).block_index

  abbrev pub block_timestamp : World → ℕ
  block_timestamp w = (context w).block_timestamp

  abbrev pub predecessor_account_id : World → Bytes
  predecessor_account_id w = (context w).predecessor_account_id

  abbrev pub current_account_id : World → Bytes
  current_account_id w = (context w).current_account_id

  -- The code is removed from storage into a register, and deployed from there. Where nothing is
  -- stored the register is not set by this call, and the runtime refuses the deployment of a register
  -- that nothing has set; Deploys has what happens where something has.
  abbrev pub deploy_removed : Option Bytes → Bytes → World → Outcome World
  deploy_removed none code_key w = panic abort
  deploy_removed (some code) code_key w =
      ok (deploy_contract (storage_remove w code_key) (current_account_id w) code)

  abbrev pub self_deploy : Bytes → World → Outcome World
  self_deploy code_key w = deploy_removed (storage_read w code_key) code_key w

-- `panic_utf8` with the data in hexadecimal as message.
abbrev pub panic_hex {ℓ} : {A : Type ℓ} → Bytes → Outcome A
panic_hex bytes = bytes_to_hex bytes >>= λ message. panic (panic_utf8 message)

-- ===== src/Sdk/Wasm.antt =====
-- src/sdk.rs as it is written: each function is a sequence of calls of the runtime. Memory is a
-- 32-bit address space.
use aurora_engine.Prelude.{
  ℕ, ◌^◌, ◌%◌, Option, none, some, Outcome, ok, panic, abort, ◌>>=◌, Bytes, ltb, ◌==◌,
  if◌then◌else◌, le_value,
}
use aurora_engine.Packages.{Crypto}
use aurora_engine.Host.{Host}
use aurora_engine.Sdk.{fill_buffer}
use aurora_engine.Sdk.Runtime.{Runtime, memory, register}

-- `vec![0; len as usize]` has at most `isize::MAX` bytes.
abbrev pub vec_size : ℕ → Outcome ℕ
vec_size len = let size = len % 2 ^ 32 in if ltb size (2 ^ 31) then ok size else panic abort

module _ {h : Host} {c : Crypto} (rt : Runtime h c) where
  open rt use {State, register_len, read_register}

  -- A register into a buffer of a fixed size, and into a new vector.
  abbrev pub read_array : ℕ → ℕ → State → Outcome Bytes
  read_array size r s = read_register r s >>= λ bytes. fill_buffer size bytes

  abbrev pub read_vec : ℕ → State → Outcome Bytes
  read_vec r s = do size ← vec_size (register_len r s); read_array size r s

  unfoldable pub read_input : State → Outcome (Bytes × State)
  read_input s = do s ← rt.input 0 s; bytes ← read_vec 0 s; ok (bytes, s)

  unfoldable pub read_input_arr20 : State → Outcome (Bytes × State)
  read_input_arr20 s = do s ← rt.input 0 s; bytes ← read_array 20 0 s; ok (bytes, s)

  unfoldable pub read_input_and_store : Bytes → State → Outcome State
  read_input_and_store key s = do
    s ← rt.input 0 s
    (_, s) ← rt.storage_write key (register 0) 1 s
    ok s

  unfoldable pub return_output : Bytes → State → State
  return_output value s = rt.value_return value s

  unfoldable pub read_storage : Bytes → State → Outcome (Option Bytes × State)
  read_storage key s = do
    (found, s) ← rt.storage_read key 0 s
    if found == 1 then (do bytes ← read_vec 0 s; ok (some bytes, s)) else ok (none, s)

  unfoldable pub read_u64 : Bytes → State → Outcome (Option ℕ × State)
  read_u64 key s = do
    (found, s) ← rt.storage_read key 0 s
    if found == 1
        then (do result ← read_array 8 0 s; ok (some (le_value result), s))
        else ok (none, s)

  unfoldable pub write_storage : Bytes → Bytes → State → Outcome State
  write_storage key value s = do (_, s) ← rt.storage_write key (memory value) 0 s; ok s

  unfoldable pub remove_storage : Bytes → State → Outcome State
  remove_storage key s = do (_, s) ← rt.storage_remove key 0 s; ok s

  unfoldable pub log_utf8 : Bytes → State → State
  log_utf8 bytes s = rt.log_utf8 bytes s

  unfoldable pub predecessor_account_id : State → Outcome (Bytes × State)
  predecessor_account_id s = do
    s ← rt.predecessor_account_id 1 s
    bytes ← read_vec 1 s
    ok (bytes, s)

  unfoldable pub current_account_id : State → Outcome (Bytes × State)
  current_account_id s = do s ← rt.current_account_id 1 s; bytes ← read_vec 1 s; ok (bytes, s)

  unfoldable pub sha256 : Bytes → State → Outcome (Bytes × State)
  sha256 input s = do s ← rt.sha256 input 1 s; bytes ← read_array 32 1 s; ok (bytes, s)

  unfoldable pub keccak : Bytes → State → Outcome (Bytes × State)
  keccak input s = do s ← rt.keccak256 input 1 s; bytes ← read_array 32 1 s; ok (bytes, s)

  unfoldable pub self_deploy : Bytes → State → Outcome State
  self_deploy code_key s = do
    s ← rt.current_account_id 0 s
    (promise_id, s) ← rt.promise_batch_create (register 0) s
    (_, s) ← rt.storage_remove code_key 1 s
    rt.promise_batch_action_deploy_contract promise_id (register 1) s

-- ===== src/Sdk/Contracts.antt =====
-- The rest of src/sdk.rs, which the contract does not use yet: records in storage, deposits, private
-- calls and promises, on the runtime.
use aurora_engine.Prelude.{
  ℕ, ◌≡◌, refl, ◌∙◌, ap, Bool, true, some, Outcome, ok, panic, abort, expect, ◌>>=◌, Bytes,
  bytes_eq, bytes_eq_refl, ◌==◌, if◌then◌else◌, le_value, le_bytes,
}
use aurora_engine.Packages.{Crypto, Codec}
use aurora_engine.Platform.{Platform}
use aurora_engine.Host.{Host}
use aurora_engine.Sdk.{fill_buffer}
use aurora_engine.Sdk.Runtime.{Runtime, memory}
use aurora_engine.Sdk.Wasm.{read_storage, write_storage, predecessor_account_id, current_account_id}
use aurora_engine.Sdk.Wasm
use aurora_engine.Sdk.Held.{Short, ShortIfAny, hold-Short, read_vec-put}
use aurora_engine.Sdk.Refines.{found_dropped}

-- `assert_eq!` and `assert!`
abbrev assert : Bool → Outcome (Unit {0})
assert holds = if holds then ok tt else panic abort

abbrev pub storage_byte_cost : ℕ
storage_byte_cost = 100000000000000000000

module _ {h : Host} {c : Crypto} (rt : Runtime h c) where
  open rt use {State}

  unfoldable pub save_contract :
      {T : Type 0} {IsValue : T → Type 0} → Codec T IsValue → Bytes → T → State → Outcome State
  unfolding Wasm.write_storage
  save_contract codec key contract_data s = write_storage rt key (codec.to_vec contract_data) s

  unfoldable pub get_contract_data :
      {T : Type 0} {IsValue : T → Type 0} → Codec T IsValue → Bytes → State → Outcome (T × State)
  unfolding Wasm.read_storage
  get_contract_data codec key s = do
    (stored, s) ← read_storage rt key s
    contract_data ← expect stored
    value ← expect (codec.from_slice contract_data)
    ok (value, s)

  unfoldable pub storage_has_key : Bytes → State → Bool
  storage_has_key key s = rt.storage_has_key key s == 1

  abbrev pub log : Bytes → State → State
  log contract_data s = rt.log_utf8 contract_data s

  abbrev pub storage_usage : State → ℕ
  storage_usage s = rt.storage_usage s

  abbrev pub prepaid_gas : State → ℕ
  prepaid_gas s = rt.prepaid_gas s

  -- A `u128` is handed over as 16 bytes, the lowest first.
  abbrev pub promise_create : Bytes → Bytes → Bytes → ℕ → ℕ → State → ℕ × State
  promise_create account_id method_name arguments amount gas s =
      rt.promise_create account_id method_name arguments (le_bytes 16 amount) gas s

  abbrev pub promise_then : ℕ → Bytes → Bytes → Bytes → ℕ → ℕ → State → ℕ × State
  promise_then promise_idx account_id method_name arguments amount gas s =
      rt.promise_then promise_idx account_id method_name arguments (le_bytes 16 amount) gas s

  abbrev pub promise_return : ℕ → State → State
  promise_return promise_idx s = rt.promise_return promise_idx s

  abbrev pub promise_results_count : State → ℕ
  promise_results_count s = rt.promise_results_count s

  abbrev pub promise_batch_action_transfer : ℕ → ℕ → State → State
  promise_batch_action_transfer promise_index amount s =
      rt.promise_batch_action_transfer promise_index (le_bytes 16 amount) s

  abbrev pub promise_batch_create : Bytes → State → Outcome (ℕ × State)
  promise_batch_create account_id s = rt.promise_batch_create (memory account_id) s

  unfoldable pub assert_private_call : State → Outcome State
  unfolding Wasm.predecessor_account_id Wasm.current_account_id
  assert_private_call s = do
    (predecessor, s) ← predecessor_account_id rt s
    (current, s) ← current_account_id rt s
    _ ← assert (bytes_eq predecessor current)
    ok s

  unfoldable pub attached_deposit : State → Outcome ℕ
  attached_deposit s =
      fill_buffer 16 (rt.attached_deposit s) >>= λ contract_data. ok (le_value contract_data)

  unfoldable pub assert_one_yocto : State → Outcome (Unit {0})
  unfolding attached_deposit
  assert_one_yocto s = do deposit ← attached_deposit s; assert (deposit == 1)

module _ (p : Platform) (rt : Runtime p.host p.crypto) where
  open rt use {State, world, set_world}

  -- A record that is saved under a key in a call is there afterwards, and is read back as it was,
  -- where neither it nor what it replaces exceeds a register.
  pub get_contract_data-save_contract :
      {T : Type 0} {IsValue : T → Type 0} (codec : Codec T IsValue) (key : Bytes)
      (contract_data : T) (s : State)
      → IsValue contract_data
      → Short (codec.to_vec contract_data)
      → ShortIfAny (p.storage_read (world s) key)
      → (saved : State) × (save_contract rt codec key contract_data s ≡ ok saved)
        × (storage_has_key rt key saved ≡ true)
        × ((s' : State) × (get_contract_data rt codec key saved ≡ ok (contract_data, s'))
            × (world s' ≡ p.storage_write (world s) key (codec.to_vec contract_data)))
  unfolding save_contract get_contract_data storage_has_key Wasm.write_storage Wasm.read_storage
  get_contract_data-save_contract codec key contract_data s valid short old =
      let v : Bytes = codec.to_vec contract_data in
      let s' : State = set_world (p.storage_write (world s) key v) s in
      let (n, saved, e, k) = found_dropped p rt 0 (p.storage_read (world s) key) s' old in
      let world_of : world saved ≡ p.storage_write (world s) key v = k ∙ rt.world-set_world _ s in
      let there : p.storage_read (world saved) key ≡ some v =
        ap (λ w. p.storage_read w key) world_of
        ∙ p.read-write (world s) key v key
        ∙ rw (bytes_eq_refl key) refl in
      (
        saved,
        rw (rt.storage_write_lem key (memory v) 0 s, e) refl,
        rw (rt.storage_has_key_lem key saved, there) refl,
        (
          rt.put 0 v saved,
          rw
              (
                rt.storage_read_lem key 0 saved,
                there,
                hold-Short rt.registers 0 v saved short,
                read_vec-put rt 0 v saved short,
                codec.from_slice-to_vec contract_data valid,
              )
              refl,
          rt.world-put 0 v saved ∙ world_of,
        ),
      )

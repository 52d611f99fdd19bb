-- ===== src/Sdk/Reads.antt =====
-- The state after `read_storage` and `read_u64` of src/sdk.rs.
use aurora_engine.Prelude.{
  ℕ, ◌≡◌, refl, sym, Option, none, some, Outcome, ok, ◌>>=◌, >>=_assoc, Bytes, le_value, ◌==◌,
  if◌then◌else◌,
}
use aurora_engine.Platform.{Platform}
use aurora_engine.Sdk.{fill_buffer}
use aurora_engine.Sdk
use aurora_engine.Sdk.Runtime.{Runtime, hold_found}
use aurora_engine.Sdk.Wasm
use aurora_engine.Sdk.Held.{ShortIfAny, hold-Short, read_vec-put, read_array-put}

module _ (p : Platform) (rt : Runtime p.host p.crypto) where
  open rt use {State, world, put, content}

  -- The state after a read: a value that was found stands in register 0.
  pub after_read : Option Bytes → State → State
  after_read none s = s
  after_read (some v) s = put 0 v s

  pub world-after_read : (o : Option Bytes) (s : State) → world (after_read o s) ≡ world s
  unfolding after_read
  world-after_read none s = refl
  world-after_read (some v) s = rt.world-put 0 v s

  pub content-after_read : (o : Option Bytes) (s : State) → content (after_read o s) 1 ≡ content s 1
  unfolding after_read
  content-after_read none s = refl
  content-after_read (some v) s = rt.content-put 0 v s 1

  -- The rest of `read_storage` and of `read_u64`, after the runtime's answer.
  abbrev vec_of : ℕ × State → Outcome (Option Bytes × State)
  vec_of (found, t) =
      if found == 1 then (do bytes ← Wasm.read_vec rt 0 t; ok (some bytes, t)) else ok (none, t)

  abbrev number_of : ℕ × State → Outcome (Option ℕ × State)
  number_of (found, t) =
      if found == 1
      then (do result ← Wasm.read_array rt 8 0 t; ok (some (le_value result), t))
      else ok (none, t)

  found_storage :
      (o : Option Bytes) (s : State)
      → ShortIfAny o
      → (hold_found rt.registers 0 o s >>= vec_of) ≡ ok (o, after_read o s)
  unfolding after_read
  found_storage none s f = refl
  found_storage (some v) s f = rw (hold-Short rt.registers 0 v s f, read_vec-put rt 0 v s f) refl

  found_number :
      (o : Option Bytes) (s : State)
      → ShortIfAny o
      → (hold_found rt.registers 0 o s >>= number_of)
        ≡ (Sdk.u64_of o >>= λ n. ok (n, after_read o s))
  unfolding after_read
  found_number none s f = refl
  found_number (some v) s f =
      rw (hold-Short rt.registers 0 v s f, read_array-put rt 8 0 v s)
        (sym (
          >>=_assoc (fill_buffer 8 v) (λ result. ok (some (le_value result)))
            (λ n. ok (n, put 0 v s))))

  pub read_storage-after_read :
      (key : Bytes) (s : State)
      → ShortIfAny (p.storage_read (world s) key)
      → Wasm.read_storage rt key s
        ≡ ok (p.storage_read (world s) key, after_read (p.storage_read (world s) key) s)
  unfolding Wasm.read_storage
  read_storage-after_read key s f =
      rw (rt.storage_read_lem key 0 s) (found_storage (p.storage_read (world s) key) s f)

  pub read_u64-after_read :
      (key : Bytes) (s : State)
      → ShortIfAny (p.storage_read (world s) key)
      → Wasm.read_u64 rt key s ≡ (
          Sdk.read_u64 p key (world s) >>= λ n. ok (n, after_read (p.storage_read (world s) key) s))
  unfolding Wasm.read_u64
  read_u64-after_read key s f =
      rw (rt.storage_read_lem key 0 s) (found_number (p.storage_read (world s) key) s f)

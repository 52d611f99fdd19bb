-- ===== src/Sdk/Refines.antt =====
-- The functions of src/sdk.rs on registers do what Sdk says of them.
use aurora_engine.Prelude.{
  ℕ, ◌≡◌, refl, ◌∙◌, Option, none, some, arith, Outcome, ok, err, panic, ◌>>=◌, ◌==◌, if◌then◌else◌,
  Bytes, length, le_value, Related,
}
use aurora_engine.Platform.{Platform}
use aurora_engine.Sdk
use aurora_engine.Sdk.Runtime.{Runtime, Source, hold_found, hold}
use aurora_engine.Sdk.Wasm
use aurora_engine.Sdk.Held.{
  ShortIfAny, hold-Short, content_here, read_array-put, read_vec-put, fill_buffer_of,
}
use aurora_engine.Sdk.Programs.{
  Operation, read_input, read_input_arr20, read_input_and_store, return_output, read_storage,
  read_u64, write_storage, remove_storage, block_index, block_timestamp, log_utf8,
  predecessor_account_id, current_account_id, sha256, keccak, Answer, Program, done, call, fails,
  panics, described, Fits, run_described, FitsAll,
}

module _ (p : Platform) (rt : Runtime p.host p.crypto) where
  open rt use {State, world, put, set_world}

  -- A function as it is written.
  abbrev pub written : (o : Operation) → State → Outcome (Answer o × State)
  written read_input s = Wasm.read_input rt s
  written read_input_arr20 s = Wasm.read_input_arr20 rt s
  written (read_input_and_store key) s = Wasm.read_input_and_store rt key s >>= λ s'. ok (tt, s')
  written (return_output v) s = ok (tt, Wasm.return_output rt v s)
  written (read_storage key) s = Wasm.read_storage rt key s
  written (read_u64 key) s = Wasm.read_u64 rt key s
  written (write_storage key v) s = Wasm.write_storage rt key v s >>= λ s'. ok (tt, s')
  written (remove_storage key) s = Wasm.remove_storage rt key s >>= λ s'. ok (tt, s')
  written block_index s = ok (rt.block_index s, s)
  written block_timestamp s = ok (rt.block_timestamp s, s)
  written (log_utf8 v) s = ok (tt, Wasm.log_utf8 rt v s)
  written predecessor_account_id s = Wasm.predecessor_account_id rt s
  written current_account_id s = Wasm.current_account_id rt s
  written (sha256 v) s = Wasm.sha256 rt v s
  written (keccak v) s = Wasm.keccak rt v s

  abbrev pub run_written : {A : Type 0} → Program A → State → Outcome (A × State)
  run_written (done a) s = ok (a, s)
  run_written (call o next) s = written o s >>= λ (a, s'). run_written (next a) s'
  run_written (fails e) s = err e
  run_written (panics e) s = panic e

  -- The same end: the same answer and world, the same error, or the same panic.
  abbrev pub Simulates : {A : Type 0} → Outcome (A × State) → Outcome (A × p.World) → Type 0
  Simulates m n = Related (λ (a, s) (b, w). (a ≡ b) × (world s ≡ w)) m n

  -- The same step, and then what it gave.
  same_step :
      {A : Type 0} (o : Outcome A) (s : State) (w : p.World)
      → world s ≡ w
      → Simulates (o >>= λ a. ok (a, s)) (o >>= λ a. ok (a, w))
  same_step (ok a) s w e = (refl, e)
  same_step (err d) s w e = refl
  same_step (panic d) s w e = refl

  same_value :
      {A B : Type 0} (o : Outcome B) (f : B → A) (s : State) (w : p.World)
      → world s ≡ w
      → Simulates (o >>= λ b. ok (f b, s)) (o >>= (λ b. ok (f b)) >>= λ a. ok (a, w))
  same_value (ok b) f s w e = (refl, e)
  same_value (err d) f s w e = refl
  same_value (panic d) f s w e = refl

  -- The value that was replaced or removed goes into a register, which changes nothing else.
  pub found_dropped :
      (r : ℕ) (o : Option Bytes) (s : State)
      → ShortIfAny o
      → (n : ℕ) × (s' : State) × (hold_found rt.registers r o s ≡ ok (n, s')) × (world s' ≡ world s)
  found_dropped r none s f = (0, s, refl, refl)
  found_dropped r (some v) s f =
      (1, put r v s, rw (hold-Short rt.registers r v s f) refl, rt.world-put r v s)

  found_read :
      (o : Option Bytes) (s : State)
      → ShortIfAny o
      → Simulates
          (hold_found rt.registers 0 o s >>= λ (found, s').
            if found == 1
            then (do bytes ← Wasm.read_vec rt 0 s'; ok (some bytes, s'))
            else ok (none, s'))
          (ok (o, world s))
  found_read none s f = (refl, refl)
  found_read (some v) s f =
      rw (hold-Short rt.registers 0 v s f, read_vec-put rt 0 v s f) (refl, rt.world-put 0 v s)

  found_u64 :
      (o : Option Bytes) (s : State)
      → ShortIfAny o
      → Simulates
          (hold_found rt.registers 0 o s >>= λ (found, s').
            if found == 1
            then (do result ← Wasm.read_array rt 8 0 s'; ok (some (le_value result), s'))
            else ok (none, s'))
          (Sdk.u64_of o >>= λ a. ok (a, world s))
  found_u64 none s f = (refl, refl)
  found_u64 (some v) s f =
      rw (hold-Short rt.registers 0 v s f, read_array-put rt 8 0 v s)
        (same_value (Sdk.fill_buffer 8 v) (λ result. some (le_value result)) (put 0 v s) (world s)
          (rt.world-put 0 v s))

  hash_read :
      (v : Bytes) (s : State) {step : Outcome State}
      → length v ≡ 32
      → step ≡ hold rt.registers 1 v s
      → Simulates
          (step >>= λ s'. Wasm.read_array rt 32 1 s' >>= λ bytes. ok (bytes, s'))
          (ok (v, world s))
  hash_read v s l e =
      rw
        (
          e,
          hold-Short rt.registers 1 v s (omega arith),
          read_array-put rt 32 1 v s,
          fill_buffer_of v 32 l,
        )
        (refl, rt.world-put 1 v s)

  written-described :
      (o : Operation) (s : State)
      → Fits p o (world s)
      → Simulates (written o s) (described p o (world s))
  unfolding Wasm.read_input Wasm.read_input_arr20 Wasm.read_input_and_store Wasm.return_output
      Wasm.read_storage Wasm.read_u64 Wasm.write_storage Wasm.remove_storage Wasm.log_utf8
      Wasm.predecessor_account_id Wasm.current_account_id Wasm.sha256 Wasm.keccak
  written-described read_input s f =
      let v : Bytes = (p.context (world s)).input in
      rw (rt.input_lem 0 s, hold-Short rt.registers 0 v s f, read_vec-put rt 0 v s f)
        (refl, rt.world-put 0 v s)
  written-described read_input_arr20 s f =
      let v : Bytes = (p.context (world s)).input in
      rw (rt.input_lem 0 s, hold-Short rt.registers 0 v s f, read_array-put rt 20 0 v s)
        (same_step (Sdk.fill_buffer 20 v) (put 0 v s) (world s) (rt.world-put 0 v s))
  written-described (read_input_and_store key) s (f, g) =
      let v : Bytes = (p.context (world s)).input in
      let s' : State = set_world (p.storage_write (world s) key v) (put 0 v s) in
      let (n, t, e, k) = found_dropped 1 (p.storage_read (world s) key) s' g in
      rw
        (
          rt.input_lem 0 s,
          hold-Short rt.registers 0 v s f,
          rt.storage_write_lem key (Source.register 0) 1 (put 0 v s),
          content_here rt.registers 0 v s,
          rt.world-put 0 v s,
          e,
        )
        (refl, k ∙ rt.world-set_world _ (put 0 v s))
  written-described (return_output v) s f =
      rw (rt.value_return_lem v s) (refl, rt.world-set_world _ s)
  written-described (read_storage key) s f =
      rw (rt.storage_read_lem key 0 s) (found_read (p.storage_read (world s) key) s f)
  written-described (read_u64 key) s f =
      rw (rt.storage_read_lem key 0 s) (found_u64 (p.storage_read (world s) key) s f)
  written-described (write_storage key v) s f =
      let s' : State = set_world (p.storage_write (world s) key v) s in
      let (n, t, e, k) = found_dropped 0 (p.storage_read (world s) key) s' f in
      rw (rt.storage_write_lem key (Source.memory v) 0 s, e) (refl, k ∙ rt.world-set_world _ s)
  written-described (remove_storage key) s f =
      let s' : State = set_world (p.storage_remove (world s) key) s in
      let (n, t, e, k) = found_dropped 0 (p.storage_read (world s) key) s' f in
      rw (rt.storage_remove_lem key 0 s, e) (refl, k ∙ rt.world-set_world _ s)
  written-described block_index s f = (rt.block_index_lem s, refl)
  written-described block_timestamp s f = (rt.block_timestamp_lem s, refl)
  written-described (log_utf8 v) s f = rw (rt.log_utf8_lem v s) (refl, rt.world-set_world _ s)
  written-described predecessor_account_id s f =
      let v : Bytes = (p.context (world s)).predecessor_account_id in
      rw
        (
          rt.predecessor_account_id_lem 1 s,
          hold-Short rt.registers 1 v s f,
          read_vec-put rt 1 v s f,
        )
        (refl, rt.world-put 1 v s)
  written-described current_account_id s f =
      let v : Bytes = (p.context (world s)).current_account_id in
      rw (rt.current_account_id_lem 1 s, hold-Short rt.registers 1 v s f, read_vec-put rt 1 v s f)
        (refl, rt.world-put 1 v s)
  written-described (sha256 v) s f =
      hash_read (p.sha256 v) s (p.length-sha256 v) (rt.sha256_lem v 1 s)
  written-described (keccak v) s f =
      hash_read (p.keccak v) s (p.length-keccak v) (rt.keccak256_lem v 1 s)

  run_step :
      {A B : Type 0} (m : Outcome (B × State)) (n : Outcome (B × p.World))
      (f : B × State → Outcome (A × State)) (g : B × p.World → Outcome (A × p.World))
      → Simulates m n
      → ((b : B) (s : State) → n ≡ ok (b, world s) → Simulates (f (b, s)) (g (b, world s)))
      → Simulates (m >>= f) (n >>= g)
  run_step (ok (a, s)) (ok (b, w)) f g (same, there) k =
      rw (← same, ← there) (k a s (rw (← same, ← there) refl))
  run_step (err e) (err d) f g h k = h
  run_step (panic e) (panic d) f g h k = h
  run_step (ok _) (err d) f g h k = absurd h
  run_step (ok _) (panic d) f g h k = absurd h
  run_step (err e) (ok _) f g h k = absurd h
  run_step (err e) (panic d) f g h k = absurd h
  run_step (panic e) (ok _) f g h k = absurd h
  run_step (panic e) (err d) f g h k = absurd h

  -- Code that uses the functions of the runtime's interface ends in the same way, with the same
  -- result, the same storage, output, logs and deployments, on the registers of the runtime as with the
  -- descriptions, where every value that goes through a register on the way fits there.
  pub run_written-run_described :
      {A : Type 0} (code : Program A) (s : State)
      → FitsAll p code (world s)
      → Simulates (run_written code s) (run_described p code (world s))
  run_written-run_described (done a) s f = (refl, refl)
  run_written-run_described (fails e) s f = refl
  run_written-run_described (panics e) s f = refl
  run_written-run_described (call o next) s (f, rest) =
      run_step (written o s) (described p o (world s)) _ _ (written-described o s f)
        (λ a s' e. run_written-run_described (next a) s' (rest a (world s') e))

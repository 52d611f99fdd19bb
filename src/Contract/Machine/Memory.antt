-- ===== src/Contract/Machine/Memory.antt =====
-- Which functions of src/lib.rs may write behind a buffer.
use aurora_engine.Prelude.{
  ℕ, ◌<◌, ◌+◌, ◌≡◌, ◌≢◌, ◌↔◌, refl, Option, none, some, [], ◌∷◌, Bool, true, false, Outcome, ok,
  err, panic, abort, memory_fault, ◌>>=◌, ◌>>◌, expect, Bytes, length, leb, if◌then◌else◌, bytes_eq,
  arith, Related, Bool-cases, inl, inr,
}
use aurora_engine.Packages.{u64_mod}
use aurora_engine.Host.{Context}
use aurora_engine.Parameters.{EngineState}
use aurora_engine.Platform.{Platform}
use aurora_engine.Storage.Keys.{Slot}
use aurora_engine.Sdk.{fill_buffer, read_input, block_index}
use aurora_engine.Engine.Slots.{content}
use aurora_engine.Contract.{add_u64, not_allowed}
use aurora_engine.Contract.Admin.Upgrade.{too_early}
use aurora_engine.Contract.Machine.{
  Task, to_new, to_get_version, to_get_owner, to_get_bridge_provider, to_get_chain_id,
  to_get_upgrade_index, to_stage_upgrade, to_deploy_upgrade, to_begin_chain, to_begin_block,
  to_get_code, to_get_balance, to_get_nonce, to_get_storage_at, Machine, Effect, End, manage,
  deploys, only_owner, only_owner_if_any,
}
use aurora_engine.Contract.Machine.Models.{Models-same, empty-Models}
use aurora_engine.Contract.Machine.Globals.{Matches}
use aurora_engine.Contract.Machine.Manages.{run_task, run_task-manage}
use aurora_engine.Contract.Machine.Lifetimes.{Lifetime, Lifetime-Reaches}

-- The functions that read an address of 20 bytes from the input.
abbrev pub reads_address : Task → Bool
reads_address to_get_code = true
reads_address to_get_balance = true
reads_address to_get_nonce = true
reads_address _ = false

-- Nothing is written behind a buffer.
abbrev Clean {ℓ} : {A : Type ℓ} → Outcome A → Type 0
Clean (panic memory_fault) = ⊥
Clean _ = Unit

Clean->>= {ℓ κ} :
    {A : Type ℓ} {B : Type κ} (o : Outcome A) (f : A → Outcome B)
    → Clean o
    → ((a : A) → Clean (f a))
    → Clean (o >>= f)
Clean->>= (ok a) f h k = k a
Clean->>= (err e) f h k = tt
Clean->>= (panic memory_fault) f h k = h
Clean->>= (panic e) f h k = h

args-Clean {ℓ κ} :
    {A : Type ℓ} {B : Type κ} (o : Option A) (f : A → Outcome B)
    → ((a : A) → Clean (f a))
    → Clean (expect o >>= f)
args-Clean none f h = tt
args-Clean (some a) f h = h a

test-Clean {ℓ} :
    {B : Type ℓ} (test : Bool) (run other : Outcome B)
    → Clean run
    → Clean other
    → Clean (if test then run else other)
test-Clean true run other h k = h
test-Clean false run other h k = k

-- What the end of a call in the model says of the end of a call in the code, and back.
faults_alike {ℓ κ} :
    {A : Type ℓ} {B : Type κ} (R : A → B → Type 0) (m : Outcome A) (n : Outcome B)
    → Related R m n
    → (m ≡ panic memory_fault) ↔ (n ≡ panic memory_fault)
faults_alike R (ok a) (ok b) h = (λ e. cc e, λ e. cc e)
faults_alike R (err e) (err d) h = (λ e. cc e, λ e. cc e)
faults_alike R (panic e) (panic d) h = (λ k. cc (k, h), λ k. cc (k, h))
faults_alike R (ok a) (err d) h = absurd h
faults_alike R (ok a) (panic q) h = absurd h
faults_alike R (err e) (ok b) h = absurd h
faults_alike R (err e) (panic q) h = absurd h
faults_alike R (panic e) (ok b) h = absurd h
faults_alike R (panic e) (err d) h = absurd h

Clean-no_fault {ℓ} : {A : Type ℓ} (o : Outcome A) → Clean o → o ≢ panic memory_fault
Clean-no_fault (panic memory_fault) h e = absurd h
Clean-no_fault (ok a) h e = cc e
Clean-no_fault (err k) h e = cc e
Clean-no_fault (panic k) h e = cc e

module _ (p : Platform) (c : Context) (m : Machine) where
  guard-Clean : (state : EngineState) (run : End) → Clean run → Clean (only_owner p c state >> run)
  guard-Clean state run h =
      Clean->>= (only_owner p c state) (λ u. run)
        (test-Clean (bytes_eq state.owner_id c.predecessor_account_id) (ok tt) (panic not_allowed)
          tt tt)
        (λ u. h)

  any_guard-Clean :
      (owner : Bytes) (run : End) → Clean run → Clean (only_owner_if_any p c owner m.state >> run)
  any_guard-Clean [] run h = h
  any_guard-Clean (b ∷ bs) run h = guard-Clean m.state run h

  sum-Clean :
      (index delay : ℕ) (run : ℕ → End)
      → ((sum : ℕ) → Clean (run sum))
      → Clean (add_u64 index delay >>= run)
  sum-Clean index delay run h =
      Clean->>= (add_u64 index delay) run
        (test-Clean (leb u64_mod (index + delay)) (panic abort) (ok (index + delay)) tt tt) h

  deploys-Clean : (o : Option Bytes) → Clean (deploys o m)
  deploys-Clean none = tt
  deploys-Clean (some code) = tt

  manage-Clean : (t : Task) → reads_address t ≡ false → Clean (manage p c t m)
  unfolding manage
  manage-Clean to_new h =
      any_guard-Clean m.state.owner_id _
        (args-Clean (p.new_call_args.from_slice c.input) _ (λ a. tt))
  manage-Clean (to_get_version version) h = tt
  manage-Clean to_get_owner h = tt
  manage-Clean to_get_bridge_provider h = tt
  manage-Clean to_get_chain_id h = tt
  manage-Clean to_get_upgrade_index h =
      args-Clean m.upgrade_block _
        (λ index. sum-Clean index m.state.upgrade_delay_blocks _ (λ sum. tt))
  manage-Clean to_stage_upgrade h = guard-Clean m.state (ok _) tt
  manage-Clean to_deploy_upgrade h = args-Clean m.upgrade_block _ (λ index.
      sum-Clean index m.state.upgrade_delay_blocks _ (λ sum.
        test-Clean (leb c.block_index sum) (panic too_early) (deploys m.upgrade m) tt
          (deploys-Clean m.upgrade)))
  manage-Clean to_begin_chain h =
      guard-Clean m.state _ (args-Clean (p.begin_chain_args.from_slice c.input) _ (λ a. tt))
  manage-Clean to_begin_block h =
      guard-Clean m.state _ (args-Clean (p.begin_block_args.from_slice c.input) _ (λ a. tt))
  manage-Clean to_get_storage_at h =
      args-Clean (p.get_storage_at_args.from_slice c.input) _ (λ a. tt)
  manage-Clean _ h = cc h

  -- The address that is read from the input.
  address-faults :
      (run : Bytes → Machine × Effect)
      → ((fill_buffer 20 c.input >>= λ a. ok (run a)) ≡ panic memory_fault) ↔ (20 < length c.input)
  address-faults run = elim (Bool-cases (leb (length c.input) 20)) [
    | inl fits ↦ rw fits (λ e. cc e, λ h. ground arith)
    | inr long ↦ rw long (λ e. ground arith, λ h. refl)
  ]

  manage-faults :
      (t : Task)
      → (manage p c t m ≡ panic memory_fault) ↔ ((reads_address t ≡ true) × (20 < length c.input))
  unfolding manage
  manage-faults to_get_code =
      let (to, from) = address-faults _ in (λ e. (refl, to e), λ (_, h). from h)
  manage-faults to_get_balance =
      let (to, from) = address-faults _ in (λ e. (refl, to e), λ (_, h). from h)
  manage-faults to_get_nonce =
      let (to, from) = address-faults _ in (λ e. (refl, to e), λ (_, h). from h)
  manage-faults t = (
    λ e. absurd (Clean-no_fault (manage p c t m) (manage-Clean t refl) e),
    λ (reads, h). cc reads,
  )

module _ (p : Platform) where
  -- In every lifetime from empty storage, of the functions that do not run the EVM exactly
  -- `get_code`, `get_balance` and `get_nonce` write behind a buffer, and these exactly where their
  -- input is longer than 20 bytes.
  pub run_task-faults :
      {first w : p.World} (v : p.World) (t : Task)
      → ((s : Slot) → content p first s ≡ none)
      → Lifetime p first w
      → ((s : Slot) → content p v s ≡ content p w s)
      → block_index p v < u64_mod
      → (run_task p t v ≡ panic memory_fault)
        ↔ ((reads_address t ≡ true) × (20 < length (read_input p v)))
  run_task-faults v t empty life same small =
      let (m, _, here) = Lifetime-Reaches p (empty-Models p _ empty) life in
      let alike =
        faults_alike (Matches p v) (run_task p t v) (manage p (p.context v) t m)
          (run_task-manage p t v m (Models-same p here same) small) in
      let there = manage-faults p (p.context v) m t in
      (λ e. there.0 (alike.0 e), λ h. alike.1 (there.1 h))

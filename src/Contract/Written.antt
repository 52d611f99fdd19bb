-- ===== src/Contract/Written.antt =====
-- `deploy_upgrade` of src/lib.rs on the registers of the runtime, call by call; the other functions
-- are in the child modules.
pub mod Codes
pub mod Apply
pub mod Fitting
pub mod Manages
pub mod Does
pub mod Reads
pub mod Tasks
pub mod Asking
pub mod Asked
pub mod Calls
use aurora_engine.Prelude.{
  ℕ, ◌≡◌, refl, ◌∙◌, ap, true, false, Option, none, some, Outcome, ok, err, panic, ◌>>=◌, expect,
  Bytes, leb, if◌then◌else◌, Bool, >>=_assoc,
}
use mathlib.Core.Path.{subst}
use aurora_engine.Parameters.{EngineState}
use aurora_engine.Storage.{state_key, code_key, code_stage_key}
use aurora_engine.Platform.{Platform}
use aurora_engine.Sdk.{fill_buffer}
use aurora_engine.Sdk
use aurora_engine.Sdk.Runtime.{Runtime}
use aurora_engine.Sdk.Wasm
use aurora_engine.Sdk.Held.{Short, ShortIfAny}
use aurora_engine.Sdk.Reads.{
  after_read, world-after_read, content-after_read, read_storage-after_read, read_u64-after_read,
}
use aurora_engine.Sdk.Deploys.{SameWorld, stored_or_held, self_deploy-deploy_removed}
use aurora_engine.Engine.{value_or, default_state, get_state}
use aurora_engine.Contract.{add_u64}
use aurora_engine.Contract.Admin.{deploy_upgrade}
use aurora_engine.Contract.Admin.Upgrade.{too_early}

module _ (p : Platform) (rt : Runtime p.host p.crypto) where
  open rt use {State, world, put, content}

  abbrev pub state_of : Option Bytes → Outcome EngineState
  state_of stored = value_or (λ bytes. expect (p.states.from_slice bytes)) default_state stored

  -- `Engine::get_state`, `sdk::read_u64`, `sdk::block_index` and `sdk::self_deploy` in their order
  unfoldable pub deploy_upgrade_written : State → Outcome State
  deploy_upgrade_written s = do
    (stored, s) ← Wasm.read_storage rt state_key s
    state ← state_of stored
    (staged, s) ← Wasm.read_u64 rt code_stage_key s
    index ← expect staged
    sum ← add_u64 index state.upgrade_delay_blocks
    if leb (rt.block_index s) sum then panic too_early else Wasm.self_deploy rt code_key s

  same_then :
      {A : Type 0} (m : Outcome A) (f : A → Outcome State) (g : A → Outcome p.World)
      → ((a : A) → SameWorld p rt (f a) (g a))
      → SameWorld p rt (m >>= f) (m >>= g)
  same_then (ok a) f g h = h a
  same_then (err e) f g h = refl
  same_then (panic e) f g h = refl

  stored_or_none : (o : Option Bytes) → stored_or_held o none ≡ o
  stored_or_none none = refl
  stored_or_none (some v) = refl

  -- What `deploy_upgrade` moves through registers fits there.
  pub record Fits (w : p.World) : Type 0 where
    pub state_short : ShortIfAny (p.storage_read w state_key)
    pub stage_short : ShortIfAny (p.storage_read w code_stage_key)
    pub code_short : ShortIfAny (p.storage_read w code_key)
    pub account_short : Short (p.context w).current_account_id

  deploy_last :
      (w : p.World) (t : State)
      → Fits w
      → world t ≡ w
      → content t 1 ≡ none
      → SameWorld p rt (Wasm.self_deploy rt code_key t) (Sdk.self_deploy p code_key w)
  deploy_last w t f e unset =
      let code : ShortIfAny (p.storage_read (world t) code_key) = rw e f.code_short in
      let account : Short (p.context (world t)).current_account_id = rw e f.account_short in
      let same : stored_or_held (p.storage_read (world t) code_key) (content t 1)
          ≡ p.storage_read w code_key =
        ap (stored_or_held (p.storage_read (world t) code_key)) unset
        ∙ stored_or_none (p.storage_read (world t) code_key)
        ∙ ap (λ v. p.storage_read v code_key) e in
      let ends : SameWorld p rt (Wasm.self_deploy rt code_key t) (
          Sdk.deploy_removed p (stored_or_held (p.storage_read (world t) code_key) (content t 1))
            code_key (world t)) =
        self_deploy-deploy_removed p rt code_key t account code in
      subst
        (λ v.
          SameWorld p rt (Wasm.self_deploy rt code_key t)
            (Sdk.deploy_removed p (p.storage_read w code_key) code_key v))
        e
        (subst
          (λ o.
            SameWorld p rt (Wasm.self_deploy rt code_key t)
              (Sdk.deploy_removed p o code_key (world t)))
          same ends)

  -- The guards behind the two reads, and the deployment.
  abbrev after_reads : EngineState → Option ℕ × State → Outcome State
  after_reads state (staged, t) = do
    index ← expect staged
    sum ← add_u64 index state.upgrade_delay_blocks
    if leb (rt.block_index t) sum then panic too_early else Wasm.self_deploy rt code_key t

  abbrev model_after_reads : EngineState → p.World → Option ℕ → Outcome p.World
  model_after_reads state w staged = do
    index ← expect staged
    sum ← add_u64 index state.upgrade_delay_blocks
    if leb (Sdk.block_index p w) sum then panic too_early else Sdk.self_deploy p code_key w

  after_reads-model :
      (state : EngineState) (w : p.World) (t : State) (staged : Option ℕ)
      → Fits w
      → world t ≡ w
      → content t 1 ≡ none
      → SameWorld p rt (after_reads state (staged, t)) (model_after_reads state w staged)
  after_reads-model state w t staged f e unset = same_then (expect staged) _ _ (λ index.
      same_then (add_u64 index state.upgrade_delay_blocks) _ _
        (λ sum. rw (rt.block_index_lem t, e) (guarded (leb (Sdk.block_index p w) sum))))
    where
      guarded :
          (late : Bool)
          → SameWorld p rt
              (if late then panic too_early else Wasm.self_deploy rt code_key t)
              (if late then panic too_early else Sdk.self_deploy p code_key w)
      guarded true = refl
      guarded false = deploy_last w t f e unset

  number_read :
      (state : EngineState) (w u : p.World) (t : State)
      → Fits w
      → u ≡ w
      → world t ≡ w
      → content t 1 ≡ none
      → SameWorld p rt
          (Sdk.read_u64 p code_stage_key u >>= (λ n. ok (n, t)) >>= after_reads state)
          (Sdk.read_u64 p code_stage_key w >>= model_after_reads state w)
  number_read state w u t f same e unset =
      rw (>>=_assoc (Sdk.read_u64 p code_stage_key u) (λ n. ok (n, t)) (after_reads state), same)
        (same_then (Sdk.read_u64 p code_stage_key w) _ _
          (λ staged. after_reads-model state w t staged f e unset))

  -- A call of `deploy_upgrade` on the registers of the runtime, in which register 1 is not set
  -- before, ends as the contract's model says: with the same storage, deployment, error or panic. So
  -- it never deploys what another function has left in the register. What goes through a register
  -- must fit there.
  pub deploy_upgrade_written-deploy_upgrade :
      (s : State)
      → Fits (world s)
      → content s 1 ≡ none
      → SameWorld p rt (deploy_upgrade_written s) (deploy_upgrade p (world s))
  unfolding deploy_upgrade_written deploy_upgrade get_state
  deploy_upgrade_written-deploy_upgrade s f unset =
      let w : p.World = world s in
      let s1 : State = after_read p rt (p.storage_read w state_key) s in
      let s2 : State = after_read p rt (p.storage_read (world s1) code_stage_key) s1 in
      let here : world s1 ≡ w = world-after_read p rt (p.storage_read w state_key) s in
      let there : world s2 ≡ w =
        world-after_read p rt (p.storage_read (world s1) code_stage_key) s1 ∙ here in
      let unset_still : content s2 1 ≡ none =
        content-after_read p rt (p.storage_read (world s1) code_stage_key) s1
        ∙ content-after_read p rt (p.storage_read w state_key) s
        ∙ unset in
      let stage : ShortIfAny (p.storage_read (world s1) code_stage_key) = rw here f.stage_short in
      rw
        (
          read_storage-after_read p rt state_key s f.state_short,
          read_u64-after_read p rt code_stage_key s1 stage,
        )
        (same_then (state_of (p.storage_read w state_key)) _ _
          (λ state. number_read state w (world s1) s2 f here there unset_still))

-- ===== src/Contract/Machine/Provenance.antt =====
-- Where the code that `deploy_upgrade` of src/lib.rs deploys comes from.
use aurora_engine.Prelude.{
  ℕ, ◌<◌, ◌+◌, ◌≡◌, ◌⊎◌, inl, inr, refl, sym, ◌∙◌, some, none, ◌++◌, [], ◌∷◌, ok, Bytes, Related-ok,
}
use mathlib.Core.Path.{subst}
use aurora_engine.Packages.{u64_mod}
use aurora_engine.Parameters.{EngineState}
use aurora_engine.Storage.Keys.{Slot}
use aurora_engine.Platform.{Platform}
use aurora_engine.Sdk.{read_input, block_index, predecessor_account_id, current_account_id}
use aurora_engine.Engine.{get_state}
use aurora_engine.Engine.Slots.{content}
use aurora_engine.Contract.Admin.{deploy_upgrade}
use aurora_engine.Contract.Machine.{
  Function, task, to_stage_upgrade, to_deploy_upgrade, Machine, manage, serve,
}
use aurora_engine.Contract.Machine.Models.{Models, Models-same, empty-Models, Happens}
use aurora_engine.Contract.Machine.Globals.{Matches}
use aurora_engine.Contract.Machine.Manages.{run_task, run_task-manage}
use aurora_engine.Contract.Machine.Executes.{answers}
use aurora_engine.Contract.Machine.Serves.{run, run-serve}
use aurora_engine.Contract.Machine.Lifetimes.{Lifetime, just_begun, called_then}
use aurora_engine.Contract.Machine.Stagings.{
  UpgradeChange, kept, staged, gone, serve-UpgradeChange, HasDeployed, manage-HasDeployed,
}

module _ (p : Platform) where
  open p use {World, deployed}

  -- A call of `stage_upgrade` by the owner at the time, in a block and with some code as input.
  pub record IsStaging (f : Function) (v : World) (code : Bytes) (block : ℕ) : Type 0 where
    pub function : f ≡ task to_stage_upgrade
    pub input : read_input p v ≡ code
    pub in_block : block_index p v ≡ block
    pub owner : EngineState
    pub owner_found : get_state p v ≡ ok owner
    pub by_owner : owner.owner_id ≡ predecessor_account_id p v

  -- One of the calls was such a staging.
  abbrev pub WasStaged : {first w : World} → Lifetime p first w → Bytes → ℕ → Type 0
  WasStaged just_begun code block = ⊥
  WasStaged (called_then {u} {v} {w} f before same small done) code block =
      IsStaging f v code block ⊎ WasStaged before code block

  abbrev HasOrigin : {first w : World} → Lifetime p first w → Machine → Type 0
  HasOrigin life m =
      (code : Bytes)
      → m.upgrade ≡ some code
      → (block : ℕ) × (m.upgrade_block ≡ some block) × WasStaged life code block

  HasOrigin-call :
      {first u v w : World} (f : Function) (before : Lifetime p first u)
      (same : (s : Slot) → content p v s ≡ content p u s) (small : block_index p v < u64_mod)
      (done : run p f v ≡ ok w) (m m' : Machine)
      → Models p v m
      → HasOrigin before m
      → UpgradeChange (p.context v) f m m'
      → HasOrigin (called_then f before same small done) m'
  HasOrigin-call f before same small done m m' r origin (kept k) code is =
      let (block, at, was) = origin code (sym (k.code) ∙ is) in (block, k.block ∙ at, inr was)
  HasOrigin-call f before same small done m m' r origin (gone none_left) code is =
      cc (is, none_left)
  HasOrigin-call {v = v} f before same small done m m' r origin (staged function owner input at)
        code is =
      (
        block_index p v,
        at,
        inl (record {
          function = function;
          input = cc (input, is);
          in_block = refl;
          owner = m.state;
          owner_found = r.state;
          by_owner = owner;
        }),
      )

  Lifetime-HasOrigin :
      {first w : World}
      → ((s : Slot) → content p first s ≡ none)
      → (life : Lifetime p first w) → (m : Machine) × Models p w m × HasOrigin life m
  Lifetime-HasOrigin {first} empty just_begun = (_, empty-Models p first empty, λ code is. cc is)
  Lifetime-HasOrigin empty (called_then {u} {v} {w} f before same small done) =
      let (m, here, origin) = Lifetime-HasOrigin empty before in
      let there : Models p v m = Models-same p here same in
      let ((m', effect), served, (models, _)) =
        Related-ok (Matches p v) (run p f v) (serve p (p.context v) (answers p v) f m)
          (run-serve p f v m there small) done in
      (
        m',
        models,
        HasOrigin-call f before same small done m m' there origin
            (serve-UpgradeChange p (p.context v) m f (answers p v) served),
      )

  -- What is deployed, by whom and when it was staged.
  pub record IsLate {first w : World} (life : Lifetime p first w) (v v' : World) : Type 0 where
    pub state : EngineState
    pub code : Bytes
    pub block : ℕ
    pub state_found : get_state p v ≡ ok state
    pub deploys : deployed v' ≡ deployed v ++ (current_account_id p v, code) ∷ []
    pub was_staged : WasStaged life code block
    pub late : block + state.upgrade_delay_blocks < block_index p v

  -- In every lifetime from empty storage, a `deploy_upgrade` that succeeds deploys to the contract's
  -- own account code that was the input of an earlier `stage_upgrade`, called by the account that
  -- owned the contract then, in a block more than the present upgrade delay before this one.
  pub deploy_upgrade-IsLate :
      {first w v v' : World} (life : Lifetime p first w)
      → ((s : Slot) → content p first s ≡ none)
      → ((s : Slot) → content p v s ≡ content p w s)
      → block_index p v < u64_mod
      → deploy_upgrade p v ≡ ok v'
      → IsLate life v v'
  unfolding run_task
  deploy_upgrade-IsLate {v = v} {v' = v'} life empty same small done =
      let (m, here, origin) = Lifetime-HasOrigin empty life in
      let there : Models p v m = Models-same p here same in
      let ((m', effect), served, (models, happens)) =
        Related-ok (Matches p v) (deploy_upgrade p v) (manage p (p.context v) to_deploy_upgrade m)
          (run_task-manage p to_deploy_upgrade v m there small) done in
      let d : HasDeployed (p.context v) m m' effect = manage-HasDeployed p (p.context v) m served in
      let (block, at, was) = origin d.code d.was_staged in
      let same_block : block ≡ d.block = cc (at, d.was_staged_at) in
      record {
        state = m.state;
        code = d.code;
        block = block;
        state_found = there.state;
        deploys = subst (Happens p v v') d.effect_is happens;
        was_staged = was;
        late = rw same_block d.late;
      }

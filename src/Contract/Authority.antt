-- ===== src/Contract/Authority.antt =====
-- Sequences of calls of every exported function of src/lib.rs by others than the owner.
use mathlib.Core.Path.{subst}
use aurora_engine.Prelude.{
  ◌≡◌, ◌≢◌, ◌⊎◌, inl, inr, refl, ◌∙◌, ap, Option, none, some, [], true, Outcome, ok, panic, >>=-ok,
  ok_inj, expect, Bytes, leb, if◌then◌else◌, Bool, false, le_bytes,
}
use aurora_engine.Parameters.{EngineState}
use aurora_engine.Storage.{code_key, code_stage_key}
use aurora_engine.Storage.Keys.{Slot, engine_state, staged_code, staged_at}
use aurora_engine.Platform.{Platform}
use aurora_engine.Sdk.{
  predecessor_account_id, return_output, read_u64, self_deploy, deploy_removed, current_account_id,
  block_index,
}
use aurora_engine.Engine.{get_state, value_or, default_state}
use aurora_engine.Engine.Slots.{content, content-remove}
use aurora_engine.Contract.{add_u64}
use aurora_engine.Contract.Admin.{
  new, get_version, get_owner, get_bridge_provider, get_chain_id, get_upgrade_index, stage_upgrade,
  deploy_upgrade, begin_chain, begin_block,
}
use aurora_engine.Contract.Admin.Upgrade.{too_early}
use aurora_engine.Contract.Admin.Ownership.{owner_functions_refuse}
use aurora_engine.Contract.Users.{UserStep, UserStep-Keeps}

-- A guard that did not panic is passed.
past_guard {ℓ} :
    {A : Type ℓ} (b : Bool) (o : Outcome A) {a : A}
    → (if b then panic too_early else o) ≡ ok a
    → o ≡ ok a
past_guard true o e = cc e
past_guard false o e = e

module _ (p : Platform) where
  open p use {World, storage_remove, deploy_contract}

  -- A call of any exported function that has not panicked.
  pub data Step (w w' : World) : Type 0 where
    by_user : UserStep p w w' → Step w w'
    by_new : new p w ≡ ok w' → Step w w'
    by_get_version : (version : Bytes) → get_version p version w ≡ ok w' → Step w w'
    by_get_owner : get_owner p w ≡ ok w' → Step w w'
    by_get_bridge_provider : get_bridge_provider p w ≡ ok w' → Step w w'
    by_get_chain_id : get_chain_id p w ≡ ok w' → Step w w'
    by_get_upgrade_index : get_upgrade_index p w ≡ ok w' → Step w w'
    by_stage_upgrade : stage_upgrade p w ≡ ok w' → Step w w'
    by_deploy_upgrade : deploy_upgrade p w ≡ ok w' → Step w w'
    by_begin_chain : begin_chain p w ≡ ok w' → Step w w'
    by_begin_block : begin_block p w ≡ ok w' → Step w w'

  -- Calls by other accounts than `owner`, with the storage kept between two of them.
  pub data Outside (owner : Bytes) (first : World) : World → Type 0 where
    none_yet : Outside owner first first
    next :
        {w v w' : World}
        → Outside owner first w
        → ((s : Slot) → content p v s ≡ content p w s)
        → owner ≢ predecessor_account_id p v
        → Step v w'
        → Outside owner first w'

  -- What the owner has set up stands, but for staged code that was deployed.
  pub record Stands (first w : World) : Type 0 where
    pub same_state : content p w engine_state ≡ content p first engine_state
    pub same_stage : content p w staged_at ≡ content p first staged_at
    pub code_or_none :
        (content p w staged_code ≡ content p first staged_code) ⊎ (content p w staged_code ≡ none)

  abbrev SameSlots : World → World → Type 0
  SameSlots w v = (s : Slot) → content p v s ≡ content p w s

  Stands-same : {u v w : World} → Stands u v → SameSlots v w → Stands u w
  Stands-same s same = record {
    same_state = same engine_state ∙ s.same_state;
    same_stage = same staged_at ∙ s.same_stage;
    code_or_none = elim s.code_or_none [
      | inl e ↦ inl (same staged_code ∙ e)
      | inr e ↦ inr (same staged_code ∙ e)
    ];
  }

  return_output-SameSlots : (result : Bytes) (w : World) → SameSlots w (return_output p result w)
  return_output-SameSlots result w s = p.read-value_return w result _

  get_state-same :
      {v w : World}
      → content p v engine_state ≡ content p w engine_state
      → get_state p v ≡ get_state p w
  unfolding get_state
  get_state-same e = ap (value_or (λ bytes. expect (p.states.from_slice bytes)) default_state) e

  -- A deployment removes the staged code, and nothing else.
  deploy_removed-Stands :
      (stored : Option Bytes) (w : World) {w' : World}
      → deploy_removed p stored code_key w ≡ ok w'
      → Stands w w'
  deploy_removed-Stands none w e = cc e
  deploy_removed-Stands (some code) w {w'} e =
      let removed : World = storage_remove w code_key in
      let result : deploy_contract removed (current_account_id p w) code ≡ w' = cc e in
      subst (Stands w) result (record {
        same_state =
            p.read-deploy removed _ code _ ∙ content-remove p w staged_code engine_state tt tt;
        same_stage =
            p.read-deploy removed _ code _ ∙ content-remove p w staged_code staged_at tt tt;
        code_or_none =
            inr (p.read-deploy removed _ code _ ∙ content-remove p w staged_code staged_code tt tt);
      })

  Stands-refl : (w : World) → Stands w w
  Stands-refl w = record { same_state = refl; same_stage = refl; code_or_none = inl refl }

  -- A function that only returns a value.
  returned-Stands :
      (result : Bytes) (w : World) {w' : World} → return_output p result w ≡ w' → Stands w w'
  returned-Stands result w e =
      subst (Stands w) e (Stands-same (Stands-refl w) (return_output-SameSlots result w))

  Stands-trans : {u v w : World} → Stands u v → Stands v w → Stands u w
  Stands-trans a b = record {
    same_state = b.same_state ∙ a.same_state;
    same_stage = b.same_stage ∙ a.same_stage;
    code_or_none = elim b.code_or_none [
      | inr e ↦ inr e
      | inl e ↦ elim a.code_or_none [ inl d ↦ inl (e ∙ d) | inr d ↦ inr (e ∙ d) ]
    ];
  }

  deploy_upgrade-Stands : (w : World) {w' : World} → deploy_upgrade p w ≡ ok w' → Stands w w'
  unfolding deploy_upgrade
  deploy_upgrade-Stands w {w'} e =
      let (state, _, e1) = >>=-ok (get_state p w) _ e in
      let (staged, _, e2) = >>=-ok (read_u64 p code_stage_key w) _ e1 in
      let (index, _, e3) = >>=-ok (expect staged) _ e2 in
      let (sum, _, e4) = >>=-ok (add_u64 index state.upgrade_delay_blocks) _ e3 in
      deploy_removed-Stands (p.storage_read w code_key) w
        (past_guard (leb (block_index p w) sum) (self_deploy p code_key w) e4)

  Step-Stands :
      (w : World) {w' : World} (state : EngineState)
      → get_state p w ≡ ok state
      → state.owner_id ≢ []
      → state.owner_id ≢ predecessor_account_id p w
      → Step w w'
      → Stands w w'
  unfolding get_version get_owner get_bridge_provider get_chain_id get_upgrade_index
  Step-Stands w state found some_owner other (by_user step) =
      let k = UserStep-Keeps p w step in
      record {
        same_state = k.globals engine_state refl;
        same_stage = k.globals staged_at refl;
        code_or_none = inl (k.globals staged_code refl);
      }
  Step-Stands w state found some_owner other (by_new e) =
      cc (e, (owner_functions_refuse p w state found some_owner other).0)
  Step-Stands w state found some_owner other (by_stage_upgrade e) =
      cc (e, (owner_functions_refuse p w state found some_owner other).1)
  Step-Stands w state found some_owner other (by_begin_chain e) =
      cc (e, (owner_functions_refuse p w state found some_owner other).2)
  Step-Stands w state found some_owner other (by_begin_block e) =
      cc (e, (owner_functions_refuse p w state found some_owner other).3)
  Step-Stands w state found some_owner other (by_deploy_upgrade e) = deploy_upgrade-Stands w e
  Step-Stands w state found some_owner other (by_get_version version e) =
      returned-Stands version w (ok_inj e)
  Step-Stands w state found some_owner other (by_get_owner e) =
      let (s, _, r) = >>=-ok (get_state p w) _ e in returned-Stands s.owner_id w (ok_inj r)
  Step-Stands w state found some_owner other (by_get_bridge_provider e) =
      let (s, _, r) = >>=-ok (get_state p w) _ e in returned-Stands s.bridge_prover_id w (ok_inj r)
  Step-Stands w state found some_owner other (by_get_chain_id e) =
      let (s, _, r) = >>=-ok (get_state p w) _ e in returned-Stands s.chain_id w (ok_inj r)
  Step-Stands w state found some_owner other (by_get_upgrade_index e) =
      let (s, _, r) = >>=-ok (get_state p w) _ e in
      let (staged, _, r2) = >>=-ok (read_u64 p code_stage_key w) _ r in
      let (index, _, r3) = >>=-ok (expect staged) _ r2 in
      let (sum, _, r4) = >>=-ok (add_u64 index s.upgrade_delay_blocks) _ r3 in
      returned-Stands (le_bytes 8 sum) w (ok_inj r4)

  -- As long as the owner does not call, no sequence of calls of the contract's functions, by
  -- whatever accounts, changes the engine's state (owner, chain, bridge and upgrade delay) or the
  -- block of a staged upgrade, and staged code is not replaced: it stands or, deployed, is gone.
  -- The condition is that the state names an owner.
  pub Outside-Stands :
      {first : World} (state : EngineState) {w : World}
      → get_state p first ≡ ok state
      → state.owner_id ≢ []
      → Outside state.owner_id first w
      → (get_state p w ≡ ok state) × Stands first w
  Outside-Stands {first} state found some_owner none_yet = (found, Stands-refl first)
  Outside-Stands state found some_owner (next {w} {v} {w'} before same other step) =
      let (here, stands) = Outside-Stands state found some_owner before in
      let at_call : get_state p v ≡ ok state = get_state-same (same engine_state) ∙ here in
      let after : Stands v w' = Step-Stands v state at_call some_owner other step in
      (get_state-same after.same_state ∙ at_call, Stands-trans (Stands-same stands same) after)

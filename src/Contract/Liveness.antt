-- ===== src/Contract/Liveness.antt =====
-- An upgrade of src/lib.rs, from its staging to its deployment, with other calls between.
use aurora_engine.Prelude.{
  ℕ, ◌+◌, ◌<◌, ◌≡◌, refl, ◌∙◌, ap, false, [], ◌∷◌, ◌++◌, ok, Bytes, arith, leb, le_bytes,
  bytes_eq_refl, expect,
}
use aurora_engine.Packages.{u64_mod}
use aurora_engine.Parameters.{EngineState}
use aurora_engine.Storage.{code_key, code_stage_key}
use aurora_engine.Storage.Keys.{Slot, engine_state, staged_code, staged_at}
use aurora_engine.Platform.{Platform}
use aurora_engine.Sdk.{
  read_input, read_input_and_store, write_storage, block_index, current_account_id,
  predecessor_account_id,
}
use aurora_engine.Engine.{get_state, value_or, default_state}
use aurora_engine.Engine.Slots.{content, content-write}
use aurora_engine.Contract.{require_owner_only}
use aurora_engine.Contract.Admin.{stage_upgrade, deploy_upgrade}
use aurora_engine.Contract.Admin.Upgrade.{deploy_at, deploy-stage_upgrade}
use aurora_engine.Contract.Users.History.{History, History-globals}

leb_above : (a b : ℕ) → b < a → leb a b ≡ false
leb_above a b h = ground arith

module _ (p : Platform) where
  open p use {World, deployed}

  -- The world in which a staging ends.
  abbrev pub staged_world : World → World
  staged_world w =
      let stored = read_input_and_store p code_key w in
      write_storage p code_stage_key (le_bytes 8 (block_index p stored)) stored

  stage_upgrade_by_owner :
      (w : World) (state : EngineState)
      → get_state p w ≡ ok state
      → state.owner_id ≡ predecessor_account_id p w
      → stage_upgrade p w ≡ ok (staged_world w)
  unfolding stage_upgrade require_owner_only
  stage_upgrade_by_owner w state found owner =
      rw (found, owner, bytes_eq_refl (predecessor_account_id p w)) refl

  staged_state : (w : World) → get_state p (staged_world w) ≡ get_state p w
  unfolding get_state
  staged_state w =
      let stored = read_input_and_store p code_key w in
      ap (value_or (λ bytes. expect (p.states.from_slice bytes)) default_state) (
        content-write p stored staged_at engine_state tt tt _
        ∙ content-write p w staged_code engine_state tt tt (read_input p w))

  later_state :
      (u v : World) → ((s : Slot) → content p v s ≡ content p u s) → get_state p v ≡ get_state p u
  unfolding get_state
  later_state u v same =
      ap (value_or (λ bytes. expect (p.states.from_slice bytes)) default_state) (same engine_state)

  after_delay :
      (v : World) (at delay now : ℕ) (code : Bytes)
      → at + delay < u64_mod
      → at + delay < now
      → deploy_at p v at delay now code
        ≡ ok (p.deploy_contract (p.storage_remove v code_key) (current_account_id p v) code)
  after_delay v at delay now code h k =
      rw (leb_above u64_mod (at + delay) h, leb_above now (at + delay) k) refl

  -- An upgrade goes through: an owner's call of `stage_upgrade` succeeds, and after whatever calls
  -- anyone makes of the functions for users, a call of `deploy_upgrade` by any account in a block
  -- more than the delay behind it succeeds and deploys the code that was staged to the contract's
  -- account. The condition is that the block of the staging and the delay have a sum in `u64`.
  pub stage_upgrade-deploy_upgrade :
      (w u v : World) (state : EngineState)
      → get_state p w ≡ ok state
      → state.owner_id ≡ predecessor_account_id p w
      → block_index p w + state.upgrade_delay_blocks < u64_mod
      → History p (staged_world w) u
      → ((s : Slot) → content p v s ≡ content p u s)
      → block_index p w + state.upgrade_delay_blocks < block_index p v
      → (stage_upgrade p w ≡ ok (staged_world w))
        × ((end : World) × (deploy_upgrade p v ≡ ok end)
            × (deployed end ≡ deployed v ++ (current_account_id p v, read_input p w) ∷ []))
  stage_upgrade-deploy_upgrade w u v state found owner small history same late =
      let staging = stage_upgrade_by_owner w state found owner in
      let (kept, globals) = History-globals p history in
      let state_there : get_state p v ≡ ok state =
        later_state u v same ∙ kept ∙ staged_state w ∙ found in
      let deploys =
        deploy-stage_upgrade p w (staged_world w) v state staging (omega arith)
          (same staged_code ∙ globals staged_code refl) (same staged_at ∙ globals staged_at refl)
          state_there in
      (
        staging,
        (
          _,
          deploys
              ∙ after_delay v (block_index p w) state.upgrade_delay_blocks (block_index p v)
                  (read_input p w) small late,
          p.deployed-deploy (p.storage_remove v code_key) (current_account_id p v) (read_input p w)
              ∙ ap (λ l. l ++ (current_account_id p v, read_input p w) ∷ [])
                  (p.deployed-remove v code_key),
        ),
      )

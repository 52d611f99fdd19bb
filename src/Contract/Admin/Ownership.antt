-- ===== src/Contract/Admin/Ownership.antt =====
-- Who may configure the contract, src/lib.rs.
use aurora_engine.Prelude.{
  ◌≡◌, ◌≢◌, refl, ◌∙◌, false, some, [], ◌∷◌, ok, panic, >>=-ok, expect, expect-ok, Bytes,
  bytes_eq_iff, arith,
}
use aurora_engine.Parameters.{EngineState, IsEngineState, NewCallArgs, from_new_call_args}
use aurora_engine.Storage.Keys.{Slot, IsSlot, engine_state, slot_eq}
use aurora_engine.Platform.{Platform}
use aurora_engine.Sdk.{read_input, predecessor_account_id}
use aurora_engine.Engine.{get_state, set_state}
use aurora_engine.Engine.Slots.{content, content-write}
use aurora_engine.Contract.{require_owner_only, not_allowed}
use aurora_engine.Contract.Admin.{
  require_owner_if_any, new, stage_upgrade, begin_chain, begin_block,
}

module _ (p : Platform) where
  open p use {World}

  pub require_owner_only_other :
      (state : EngineState) (w : World)
      → state.owner_id ≢ predecessor_account_id p w
      → require_owner_only p state w ≡ panic not_allowed
  unfolding require_owner_only
  require_owner_only_other state w ne =
      ground (arith, bytes_eq_iff state.owner_id (predecessor_account_id p w))

  require_owner_if_any_other :
      (owner : Bytes) (state : EngineState) (w : World)
      → owner ≢ []
      → state.owner_id ≢ predecessor_account_id p w
      → require_owner_if_any p owner state w ≡ panic not_allowed
  require_owner_if_any_other [] state w some_owner ne = absurd (some_owner refl)
  require_owner_if_any_other (c ∷ cs) state w some_owner ne = require_owner_only_other state w ne

  -- Once the engine's state names an owner, `new`, `stage_upgrade`, `begin_chain` and `begin_block` panic with
  -- ERR_NOT_ALLOWED for every other caller.
  pub owner_functions_refuse :
      (w : World) (state : EngineState)
      → get_state p w ≡ ok state
      → state.owner_id ≢ []
      → state.owner_id ≢ predecessor_account_id p w
      → (new p w ≡ panic not_allowed)
        × (stage_upgrade p w ≡ panic not_allowed)
        × (begin_chain p w ≡ panic not_allowed)
        × (begin_block p w ≡ panic not_allowed)
  unfolding new stage_upgrade begin_chain begin_block
  owner_functions_refuse w state e some_owner ne = (
    rw (e, require_owner_if_any_other state.owner_id state w some_owner ne) refl,
    rw (e, require_owner_only_other state w ne) refl,
    rw (e, require_owner_only_other state w ne) refl,
    rw (e, require_owner_only_other state w ne) refl,
  )

  -- A state that is saved is the state that is found.
  pub get_state-set_state :
      (state : EngineState) (w : World)
      → IsEngineState state
      → get_state p (set_state p state w) ≡ ok state
  unfolding get_state set_state
  get_state-set_state state w h = rw (
    content-write p w engine_state engine_state tt tt (p.states.to_vec state),
    p.states.from_slice-to_vec state h,
  )

  pub set_state_elsewhere :
      (state : EngineState) (w : World) (s : Slot)
      → IsSlot s
      → slot_eq engine_state s ≡ false
      → content p (set_state p state w) s ≡ content p w s
  unfolding set_state
  set_state_elsewhere state w s hs other =
      content-write p w engine_state s tt hs (p.states.to_vec state) ∙ rw other refl

  -- Where `new` succeeds, its input was the encoding of some arguments; the state found afterwards
  -- holds these, and no other place of storage has changed.
  pub new-get_state :
      (w : World) {w' : World}
      → new p w ≡ ok w'
      → (args : NewCallArgs) × (p.new_call_args.from_slice (read_input p w) ≡ some args)
        × (get_state p w' ≡ ok (from_new_call_args args))
        × ((s : Slot) → IsSlot s → slot_eq engine_state s ≡ false → content p w' s ≡ content p w s)
  unfolding new
  new-get_state w {w'} h =
      let (state, _, h1) = >>=-ok (get_state p w) _ h in
      let (_, _, h2) = >>=-ok (require_owner_if_any p state.owner_id state w) _ h1 in
      let (args, parsed, h3) = >>=-ok (expect (p.new_call_args.from_slice (read_input p w))) _ h2 in
      let found = expect-ok _ parsed in
      let valid = p.new_call_args.from_slice-IsValue (read_input p w) found in
      let saved : set_state p (from_new_call_args args) w ≡ w' = cc h3 in
      (
        args,
        found,
        rw (← saved) (
            get_state-set_state _ w
              (record { chain_id_word = valid.chain_id_word; delay_u64 = valid.delay_u64 })),
        λ s hs other. rw (← saved) (set_state_elsewhere (from_new_call_args args) w s hs other),
      )

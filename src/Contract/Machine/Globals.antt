-- ===== src/Contract/Machine/Globals.antt =====
-- Changes of the contract's own places in storage, as src/lib.rs makes them, and returned values.
use aurora_engine.Prelude.{
  ◌<◌, ◌≡◌, refl, ◌∙◌, ap, Option, none, some, [], ◌∷◌, ◌++◌, true, false, Outcome, Bytes, le_bytes,
  Related,
}
use aurora_engine.Packages.{u64_mod}
use aurora_engine.Parameters.{EngineState, IsEngineState}
use aurora_engine.Storage.{code_key, code_stage_key, state_key}
use aurora_engine.Storage.Keys.{Slot, account, cell, engine_state, staged_code, staged_at, slot_eq}
use aurora_engine.Platform.{Platform}
use aurora_engine.Sdk.{
  return_output, write_storage, read_input, read_input_and_store, block_index, u64_of,
  deploy_removed, current_account_id,
}
use aurora_engine.Engine.{set_state}
use aurora_engine.Engine.Slots.{content-write, content-remove, Sets}
use aurora_engine.Engine.ApplyBackend.Frame.{is_global}
use aurora_engine.Contract.Admin.Ownership.{get_state-set_state, set_state_elsewhere}
use aurora_engine.Contract.Admin.Upgrade.{u64_of-le_bytes}
use aurora_engine.Contract.Machine.{Machine, Effect, silent, returning, deploying, End, deploys}
use aurora_engine.Contract.Machine.Models.{
  Models, Happens, SameAccounts, Represents-SameAccounts, return_output-Models, state_at, block_at,
}

slot_eq_local : (s t : Slot) → is_global s ≡ true → is_global t ≡ false → slot_eq s t ≡ false
slot_eq_local engine_state (account q a) g l = refl
slot_eq_local engine_state (cell a k) g l = refl
slot_eq_local staged_code (account q a) g l = refl
slot_eq_local staged_code (cell a k) g l = refl
slot_eq_local staged_at (account q a) g l = refl
slot_eq_local staged_at (cell a k) g l = refl
slot_eq_local s t g l = cc

module _ (p : Platform) where
  open p use {World, storage_write, storage_remove, deploy_contract}

  -- A world and a machine at the ends of a call that started in `w`.
  abbrev pub Matches : World → World → Machine × Effect → Type 0
  Matches w w' (m, effect) = Models p w' m × Happens p w w' effect

  -- Both end alike: with the same error or panic, or in a world that reads as the machine, and
  -- with the same effect.
  abbrev pub Simulates : World → Outcome World → End → Type 0
  Simulates w run end = Related (Matches w) run end

  pub returned-Matches :
      (w : World) {m : Machine} (result : Bytes)
      → Models p w m
      → Matches w (return_output p result w) (m, returning result)
  returned-Matches w result r = (
    return_output-Models p result r,
    (p.deployed-value_return w result, p.returned-value_return w result),
  )

  -- One of the contract's own places is written or removed.
  Sets-SameAccounts :
      {w v : World} (s : Slot) (o : Option Bytes)
      → is_global s ≡ true
      → Sets p w v s o
      → SameAccounts p w v
  Sets-SameAccounts s o g sets t ht l = sets t ht ∙ rw (slot_eq_local s t g l) refl

  module _ (w : World) (m : Machine) (r : Models p w m) where
    pub set_state-Matches :
        (state : EngineState)
        → IsEngineState state
        → Matches w (set_state p state w) (record m { state = state }, silent)
    unfolding set_state
    set_state-Matches state valid = (
      record {
        state = get_state-set_state p state w valid;
        state_valid = valid;
        upgrade = set_state_elsewhere p state w staged_code tt refl ∙ r.upgrade;
        upgrade_block =
            block_at p (set_state_elsewhere p state w staged_at tt refl) r.upgrade_block;
        accounts =
            Represents-SameAccounts p r.accounts
              (λ s hs l. set_state_elsewhere p state w s hs (slot_eq_local engine_state s refl l));
      },
      p.deployed-write w state_key (p.states.to_vec state),
    )

    -- The input and the block's number are stored.
    pub staged-Matches :
        block_index p w < u64_mod
        → Matches w
            (let stored = read_input_and_store p code_key w in
              write_storage p code_stage_key (le_bytes 8 (block_index p stored)) stored)
            (
              record m { upgrade = some (read_input p w); upgrade_block = some (block_index p w) },
              silent,
            )
    staged-Matches small =
        let stored : World = read_input_and_store p code_key w in
        let number : Bytes = le_bytes 8 (block_index p stored) in
        let here : block_index p stored ≡ block_index p w =
          ap (λ c. c.block_index) (p.context-write w code_key (read_input p w)) in
        let first : Sets p w stored staged_code (some (read_input p w)) =
          λ t ht. content-write p w staged_code t tt ht (read_input p w) in
        let second : Sets p stored (write_storage p code_stage_key number stored) staged_at
            (some number) =
          λ t ht. content-write p stored staged_at t tt ht number in
        (
          record {
            state = state_at p (second engine_state tt ∙ first engine_state tt) r.state;
            state_valid = r.state_valid;
            upgrade = second staged_code tt ∙ first staged_code tt;
            upgrade_block =
                ap u64_of (second staged_at tt) ∙ rw here (u64_of-le_bytes (block_index p w) small);
            accounts =
                Represents-SameAccounts p
                  (Represents-SameAccounts p r.accounts
                    (Sets-SameAccounts staged_code _ refl first))
                  (Sets-SameAccounts staged_at _ refl second);
          },
          p.deployed-write stored code_stage_key number
              ∙ p.deployed-write w code_key (read_input p w),
        )

    removed-Matches :
        (code : Bytes)
        → Matches w
            (deploy_contract (storage_remove w code_key) (current_account_id p w) code)
            (record m { upgrade = none }, deploying code)
    removed-Matches code =
        let removed : World = storage_remove w code_key in
        let account = current_account_id p w in
        let sets : Sets p w (deploy_contract removed account code) staged_code none =
          λ t ht. p.read-deploy removed account code _ ∙ content-remove p w staged_code t tt ht in
        (
          record {
            state = state_at p (sets engine_state tt) r.state;
            state_valid = r.state_valid;
            upgrade = sets staged_code tt;
            upgrade_block = block_at p (sets staged_at tt) r.upgrade_block;
            accounts =
                Represents-SameAccounts p r.accounts (Sets-SameAccounts staged_code _ refl sets);
          },
          p.deployed-deploy removed account code
              ∙ ap (λ l. l ++ (account, code) ∷ []) (p.deployed-remove w code_key),
        )

    pub deploy_removed-deploys :
        (stored : Option Bytes)
        → Simulates w (deploy_removed p stored code_key w) (deploys stored m)
    deploy_removed-deploys none = refl
    deploy_removed-deploys (some code) = removed-Matches code

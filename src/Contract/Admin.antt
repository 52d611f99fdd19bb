-- ===== src/Contract/Admin.antt =====
-- The administrative and benchmarking functions of src/lib.rs.
pub mod Ownership
pub mod Upgrade
use aurora_engine.Prelude.{
  ℕ, Bool, [], ◌∷◌, Option, none, some, Outcome, ok, panic, panic_utf8, abort, ◌>>=◌, ◌>>◌, expect,
  Bytes, codes, leb, if◌then◌else◌, le_bytes,
}
use aurora_engine.Storage.{code_key, code_stage_key}
use aurora_engine.Parameters.{EngineState, from_new_call_args}
use aurora_engine.Platform.{Platform}
use aurora_engine.Sdk.{
  read_input, read_input_and_store, return_output, read_u64, write_storage, block_index,
  self_deploy,
}
use aurora_engine.Engine.{get_state, set_state}
use aurora_engine.Contract.{add_u64, require_owner_only}

module _ (p : Platform) where
  open p use {World}

  -- `if !state.owner_id.is_empty() { require_owner_only(state) }`
  abbrev pub require_owner_if_any : Bytes → EngineState → World → Outcome (Unit {0})
  require_owner_if_any [] state w = ok tt
  require_owner_if_any (c ∷ cs) state w = require_owner_only p state w

  unfoldable pub new : World → Outcome World
  new w = do
    state ← get_state p w
    require_owner_if_any state.owner_id state w
    args ← expect (p.new_call_args.from_slice (read_input p w))
    ok (set_state p (from_new_call_args args) w)

  -- The version is text that the build includes.
  unfoldable pub get_version : Bytes → World → Outcome World
  get_version version w = ok (return_output p version w)

  unfoldable pub get_owner : World → Outcome World
  get_owner w = do state ← get_state p w; ok (return_output p state.owner_id w)

  unfoldable pub get_bridge_provider : World → Outcome World
  get_bridge_provider w = do state ← get_state p w; ok (return_output p state.bridge_prover_id w)

  unfoldable pub get_chain_id : World → Outcome World
  get_chain_id w = do state ← get_state p w; ok (return_output p state.chain_id w)

  unfoldable pub get_upgrade_index : World → Outcome World
  get_upgrade_index w = do
    state ← get_state p w
    staged ← read_u64 p code_stage_key w
    index ← expect staged
    sum ← add_u64 index state.upgrade_delay_blocks
    ok (return_output p (le_bytes 8 sum) w)

  unfoldable pub stage_upgrade : World → Outcome World
  stage_upgrade w = do
    state ← get_state p w
    require_owner_only p state w
    let w' = read_input_and_store p code_key w
    ok (write_storage p code_stage_key (le_bytes 8 (block_index p w')) w')

  unfoldable pub deploy_upgrade : World → Outcome World
  deploy_upgrade w = do
    state ← get_state p w
    staged ← read_u64 p code_stage_key w
    index ← expect staged
    sum ← add_u64 index state.upgrade_delay_blocks
    if leb (block_index p w) sum
        then panic (panic_utf8 (codes "ERR_NOT_ALLOWED:TOO_EARLY"))
        else self_deploy p code_key w

  -- With the feature `evm_bully`. The source uses `state` after it has moved it; here it is still there.
  unfoldable pub begin_chain : World → Outcome World
  begin_chain w = do
    state ← get_state p w
    require_owner_only p state w
    args ← expect (p.begin_chain_args.from_slice (read_input p w))
    ok (set_state p (record state { chain_id = args.chain_id }) w)

  -- With the feature `evm_bully`; nothing is done with the parameters.
  unfoldable pub begin_block : World → Outcome World
  begin_block w = do
    state ← get_state p w
    require_owner_only p state w
    _ ← expect (p.begin_block_args.from_slice (read_input p w))
    ok w

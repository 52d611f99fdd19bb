-- ===== src/Contract/Written/Manages.antt =====
-- The functions of src/lib.rs that do not run the EVM, on the registers of the runtime.
use aurora_engine.Prelude.{
  ◌≡◌, ◌∙◌, refl, none, Related, Outcome, ok, err, panic, ◌>>=◌, Related-trans, Related-ends,
}
use aurora_engine.Platform.{Platform}
use aurora_engine.Sdk.Runtime.{Runtime}
use aurora_engine.Sdk.Programs.{run_described}
use aurora_engine.Sdk.Refines.{run_written, run_written-run_described}
use aurora_engine.Sdk.Deploys.{SameWorld}
use aurora_engine.Storage.{state_key, code_key, code_stage_key}
use aurora_engine.Contract.Machine.{
  Task, to_new, to_get_version, to_get_owner, to_get_bridge_provider, to_get_chain_id,
  to_get_upgrade_index, to_stage_upgrade, to_deploy_upgrade, to_begin_chain, to_begin_block,
  to_get_code, to_get_balance, to_get_nonce, to_get_storage_at, Machine, Effect,
}
use aurora_engine.Contract.Machine.Models.{Models, Happens}
use aurora_engine.Contract.Machine.Manages.{run_task}
use aurora_engine.Contract.Admin
use aurora_engine.Contract.Admin.{get_version}
use aurora_engine.Contract.Views
use aurora_engine.Contract.Written.{
  deploy_upgrade_written, Fits, deploy_upgrade_written-deploy_upgrade,
}
use aurora_engine.Contract.Written.Codes.{
  Code, returning_code, new_code, get_owner_code, get_bridge_provider_code, get_chain_id_code,
  get_upgrade_index_code, stage_upgrade_code, begin_chain_code, begin_block_code, get_code_code,
  get_balance_code, get_nonce_code, get_storage_at_code,
}
use aurora_engine.Contract.Written.Fitting.{IsShort}
use aurora_engine.Contract.Written.Does.{Ends}
use aurora_engine.Contract.Written.Tasks.{
  returning_code-Ends, new_code-Ends, get_owner_code-Ends, get_bridge_provider_code-Ends,
  get_chain_id_code-Ends, get_upgrade_index_code-Ends, stage_upgrade_code-Ends,
  begin_chain_code-Ends, begin_block_code-Ends, get_code_code-Ends, get_balance_code-Ends,
  get_nonce_code-Ends, get_storage_at_code-Ends,
}

module _ (p : Platform) (rt : Runtime p.host p.crypto) where
  open rt use {State, world, content}

  -- The code on registers.
  abbrev pub run_code : Code → State → Outcome State
  run_code c s = run_written p rt c s >>= λ (_, s'). ok s'

  unfoldable pub run_task_written : Task → State → Outcome State
  run_task_written to_new s = run_code (new_code p) s
  run_task_written (to_get_version version) s = run_code (returning_code version) s
  run_task_written to_get_owner s = run_code (get_owner_code p) s
  run_task_written to_get_bridge_provider s = run_code (get_bridge_provider_code p) s
  run_task_written to_get_chain_id s = run_code (get_chain_id_code p) s
  run_task_written to_get_upgrade_index s = run_code (get_upgrade_index_code p) s
  run_task_written to_stage_upgrade s = run_code (stage_upgrade_code p) s
  run_task_written to_deploy_upgrade s = deploy_upgrade_written p rt s
  run_task_written to_begin_chain s = run_code (begin_chain_code p) s
  run_task_written to_begin_block s = run_code (begin_block_code p) s
  run_task_written to_get_code s = run_code (get_code_code p) s
  run_task_written to_get_balance s = run_code (get_balance_code p) s
  run_task_written to_get_nonce s = run_code (get_nonce_code p) s
  run_task_written to_get_storage_at s = run_code (get_storage_at_code p) s

  -- On registers, by descriptions, and as a change of the world.
  abbrev SameEnd : Unit {0} × State → p.World → Type 0
  SameEnd (_, s) w = world s ≡ w

  described_by :
      (o : Outcome p.World)
      → Related (λ (t : Unit {0} × p.World) v. t.1 ≡ v) (o >>= λ v. ok (tt, v)) o
  described_by (ok w) = refl
  described_by (err e) = refl
  described_by (panic e) = refl

  pub ends-SameWorld :
      (c : Code) (end : p.World → Outcome p.World) (s : State)
      → IsShort p (world s)
      → ((w : p.World) → Ends p c w (end w))
      → SameWorld p rt (run_code c s) (end (world s))
  ends-SameWorld c end s short h =
      Related-ends SameEnd (λ s w. world s ≡ w) (run_written p rt c s) (end (world s))
        (λ (_, s'). s') (λ a b e. e)
        (Related-trans _ (λ t v. t.1 ≡ v) SameEnd (run_written p rt c s)
          (run_described p c (world s)) (end (world s)) (λ a b w (_, e) d. e ∙ d)
          (run_written-run_described p rt c s ((h (world s)).fits short))
          (rw ((h (world s)).runs) (described_by (end (world s)))))

  everything-Fits : (w : p.World) → IsShort p w → Fits p rt w
  everything-Fits w short = record {
    state_short = short.stored state_key;
    stage_short = short.stored code_stage_key;
    code_short = short.stored code_key;
    account_short = short.account;
  }

  -- On the registers of the runtime, each function changes the world as the model says.
  pub run_task_written-run_task :
      (t : Task) (s : State)
      → IsShort p (world s)
      → content s 1 ≡ none
      → SameWorld p rt (run_task_written t s) (run_task p t (world s))
  unfolding run_task_written run_task get_version
  run_task_written-run_task to_new s short unset =
      ends-SameWorld (new_code p) (Admin.new p) s short (new_code-Ends p)
  run_task_written-run_task (to_get_version version) s short unset =
      ends-SameWorld (returning_code version) (Admin.get_version p version) s short
        (λ w. returning_code-Ends p w version)
  run_task_written-run_task to_get_owner s short unset =
      ends-SameWorld (get_owner_code p) (Admin.get_owner p) s short (get_owner_code-Ends p)
  run_task_written-run_task to_get_bridge_provider s short unset =
      ends-SameWorld (get_bridge_provider_code p) (Admin.get_bridge_provider p) s short
        (get_bridge_provider_code-Ends p)
  run_task_written-run_task to_get_chain_id s short unset =
      ends-SameWorld (get_chain_id_code p) (Admin.get_chain_id p) s short (get_chain_id_code-Ends p)
  run_task_written-run_task to_get_upgrade_index s short unset =
      ends-SameWorld (get_upgrade_index_code p) (Admin.get_upgrade_index p) s short
        (get_upgrade_index_code-Ends p)
  run_task_written-run_task to_stage_upgrade s short unset =
      ends-SameWorld (stage_upgrade_code p) (Admin.stage_upgrade p) s short
        (stage_upgrade_code-Ends p)
  run_task_written-run_task to_begin_chain s short unset =
      ends-SameWorld (begin_chain_code p) (Admin.begin_chain p) s short (begin_chain_code-Ends p)
  run_task_written-run_task to_begin_block s short unset =
      ends-SameWorld (begin_block_code p) (Admin.begin_block p) s short (begin_block_code-Ends p)
  run_task_written-run_task to_get_code s short unset =
      ends-SameWorld (get_code_code p) (Views.get_code p) s short (get_code_code-Ends p)
  run_task_written-run_task to_get_balance s short unset =
      ends-SameWorld (get_balance_code p) (Views.get_balance p) s short (get_balance_code-Ends p)
  run_task_written-run_task to_get_nonce s short unset =
      ends-SameWorld (get_nonce_code p) (Views.get_nonce p) s short (get_nonce_code-Ends p)
  run_task_written-run_task to_get_storage_at s short unset =
      ends-SameWorld (get_storage_at_code p) (Views.get_storage_at p) s short
        (get_storage_at_code-Ends p)
  run_task_written-run_task to_deploy_upgrade s short unset =
      deploy_upgrade_written-deploy_upgrade p rt s (everything-Fits (world s) short) unset

  -- The runtime's state and a machine at the ends of a call that started in `s`.
  abbrev pub StateMatches : State → State → Machine × Effect → Type 0
  StateMatches s s' (m, effect) = Models p (world s') m × Happens p (world s) (world s') effect

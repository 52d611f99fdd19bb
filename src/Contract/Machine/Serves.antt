-- ===== src/Contract/Machine/Serves.antt =====
-- The exported functions of src/lib.rs do what the machine does.
use aurora_engine.Prelude.{ℕ, ◌<◌, refl, Outcome, ok, err, panic, ◌>>=◌, Bytes, Related-then}
use aurora_engine.Packages.{u64_mod}
use aurora_engine.Evm.{Execution}
use aurora_engine.Platform.{Platform}
use aurora_engine.Sdk.{block_index, read_input, current_account_id}
use aurora_engine.Engine.{new_with_state}
use aurora_engine.Engine.Calls.{view}
use aurora_engine.Contract.{process_exit_reason}
use aurora_engine.Contract.Raw.{raw_call, check_chain, signer_of}
use aurora_engine.Contract.Meta.{meta_call, or_panic}
use aurora_engine.Contract.Views
use aurora_engine.Transaction.{chain_id, sender}
use aurora_engine.Transaction.Decoding.{decode}
use aurora_engine.MetaParsing.Hashing.{near_erc712_domain}
use aurora_engine.MetaParsing.MetaCall.{parse_meta_call}
use aurora_engine.Contract.Machine.{
  Function, task, to_deploy_code, to_call, to_raw_call, to_meta_call, to_view, Machine, caller,
  ends, serve,
}
use aurora_engine.Contract.Machine.Models.{Models}
use aurora_engine.Contract.Machine.Globals.{Matches, Simulates}
use aurora_engine.Contract.Machine.Manages.{run_task, run_task-manage, with_args}
use aurora_engine.Contract.Machine.Executes.{
  answers, call-called, deploy_code-created, execute-executed, run-ends_run,
  process_exit_reason-ends,
}

module _ (p : Platform) where
  open p use {World}

  -- An exported function by its name.
  unfoldable pub run : Function → World → Outcome World
  run (task t) w = run_task p t w
  run to_deploy_code w = Views.deploy_code p w
  run to_call w = Views.call p w
  run to_raw_call w = raw_call p w
  run to_meta_call w = meta_call p w
  run to_view w = Views.view p w

  module _ (w : World) (m : Machine) (r : Models p w m) where
    deploy_code-serve :
        Simulates p w (Views.deploy_code p w) (serve p (p.context w) (answers p w) to_deploy_code m)
    unfolding Views.deploy_code serve
    deploy_code-serve = rw (r.state) (
        Related-then (Matches p w) (caller p (p.context w)) _ _ (λ origin e. run-ends_run p w _ _ (
          deploy_code-created p w m r (new_with_state p m.state origin) origin 0
            (p.context w).input)))

    call-serve : Simulates p w (Views.call p w) (serve p (p.context w) (answers p w) to_call m)
    unfolding Views.call serve
    call-serve = rw (r.state) (
        with_args p w m r (p.function_call_args.from_slice (p.context w).input) _ _ (λ args read.
          Related-then (Matches p w) (caller p (p.context w)) _ _ (λ origin e.
            run-ends_run p w _ _ (
              call-called p w m r (new_with_state p m.state origin) origin args.contract 0
                args.input))))

    raw_call-serve :
        Simulates p w (raw_call p w) (serve p (p.context w) (answers p w) to_raw_call m)
    unfolding raw_call serve
    raw_call-serve = rw (r.state) (
        with_args p w m r (decode p.rlp (p.context w).input) _ _ (λ signed read.
          Related-then (Matches p w) (check_chain p (chain_id signed) m.state) _ _ (λ u right.
            Related-then (Matches p w) (sender p.primitives p.crypto p.rlp signed) _ _ (λ found e.
              Related-then (Matches p w) (signer_of found) _ _ (λ signer s. run-ends_run p w _ _ (
                execute-executed p w m r (new_with_state p m.state signer) signer
                  signed.transaction.to signed.transaction.value signed.transaction.input))))))

    meta_call-serve :
        Simulates p w (meta_call p w) (serve p (p.context w) (answers p w) to_meta_call m)
    unfolding meta_call serve
    meta_call-serve = rw (r.state) (
        Related-then (Matches p w) (p.from_big_endian m.state.chain_id) _ _ (λ chain e.
          Related-then (Matches p w)
            (or_panic (
              parse_meta_call p.primitives p.crypto p.meta p.meta_call_args
                (near_erc712_domain p.primitives p.crypto chain) (current_account_id p w)
                (read_input p w)))
            _ _
            (λ args parsed. run-ends_run p w _ _ (
              call-called p w m r (new_with_state p m.state args.sender) args.sender
                args.contract_address args.value args.input))))

    -- The exit of a run whose changes are dropped.
    exit_only :
        (o : Outcome Execution)
        → Simulates p w
            (o >>= (λ e. ok (e.status, e.result)) >>= λ (status, result).
              process_exit_reason p status result w)
            (o >>= λ e. ends e.status e.result m)
    exit_only (ok e) = process_exit_reason-ends p w w m e.status e.result r refl
    exit_only (err k) = refl
    exit_only (panic k) = refl

    exit_view :
        (contract : Outcome Bytes) (value : Outcome ℕ) (run : Bytes → ℕ → Outcome Execution)
        → Simulates p w
            (contract
              >>= (λ c. value >>= (λ v. run c v >>= λ e. ok (e.status, e.result)))
              >>= λ (status, result). process_exit_reason p status result w)
            (contract >>= λ c. value >>= λ v. run c v >>= λ e. ends e.status e.result m)
    exit_view (ok c) (ok v) run = exit_only (run c v)
    exit_view (ok c) (err k) run = refl
    exit_view (ok c) (panic k) run = refl
    exit_view (err k) value run = refl
    exit_view (panic k) value run = refl

    view-serve : Simulates p w (Views.view p w) (serve p (p.context w) (answers p w) to_view m)
    unfolding Views.view serve view
    view-serve = rw (r.state) (
        with_args p w m r (p.view_call_args.from_slice (p.context w).input) _ _ (λ args read.
          Related-then (Matches p w) (p.h160_from_slice args.sender) _ _ (λ origin e.
            rw e (exit_view (p.h160_from_slice args.address) (p.from_big_endian args.amount) _))))

  -- In a world whose storage reads as a machine, a call of any exported function ends as the machine
  -- says: with the same error or panic, or with storage that reads as the machine's next state and
  -- with the same output and deployment. The EVM's answers are those for this world. The number of
  -- the block must have 64 bits.
  pub run-serve :
      (f : Function) (w : World) (m : Machine)
      → Models p w m
      → block_index p w < u64_mod
      → Simulates p w (run f w) (serve p (p.context w) (answers p w) f m)
  unfolding run serve
  run-serve (task t) w m r small = run_task-manage p t w m r small
  run-serve to_deploy_code w m r small = deploy_code-serve w m r
  run-serve to_call w m r small = call-serve w m r
  run-serve to_raw_call w m r small = raw_call-serve w m r
  run-serve to_meta_call w m r small = meta_call-serve w m r
  run-serve to_view w m r small = view-serve w m r

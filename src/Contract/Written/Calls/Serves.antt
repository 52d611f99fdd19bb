-- ===== src/Contract/Written/Calls/Serves.antt =====
-- On the registers of the runtime, the exported functions of src/lib.rs do what the machine does.
use mathlib.Core.Path.{subst}
use aurora_engine.Prelude.{◌<◌, ◌≡◌, refl, sym, none, Outcome, expect, Related, Related-trans}
use aurora_engine.Packages.{u64_mod}
use aurora_engine.Platform.{Platform}
use aurora_engine.Sdk.{block_index, read_input, current_account_id}
use aurora_engine.Sdk.Runtime.{Runtime}
use aurora_engine.Sdk.Deploys.{SameWorld}
use aurora_engine.Sdk.Programs
use aurora_engine.Sdk.Programs.{done}
use aurora_engine.Engine.{new_with_state, get_state}
use aurora_engine.Contract.{predecessor_address}
use aurora_engine.Contract.Views
use aurora_engine.Contract.Raw.{raw_call, check_chain, signer_of}
use aurora_engine.Contract.Meta.{meta_call}
use aurora_engine.Transaction.{chain_id, sender}
use aurora_engine.Transaction.Decoding.{decode}
use aurora_engine.Contract.Machine.{
  Function, task, to_deploy_code, to_call, to_raw_call, to_meta_call, to_view, Machine, serve,
}
use aurora_engine.Contract.Machine.Models.{Models}
use aurora_engine.Contract.Machine.Globals.{Matches}
use aurora_engine.Contract.Machine.Executes.{answers}
use aurora_engine.Contract.Machine.Serves.{run, run-serve}
use aurora_engine.Contract.Written.Fitting.{IsShort}
use aurora_engine.Contract.Written.Manages.{
  run_code, ends-SameWorld, run_task_written, run_task_written-run_task, StateMatches,
}
use aurora_engine.Contract.Written.Does.{
  Ends, read-Ends, read-Ends_nested, known-Ends, step-Ends, step-Ends_nested, call-Reads,
}
use aurora_engine.Contract.Written.Asking.{Interpreter}
use aurora_engine.Contract.Written.Codes.{read_all_input, read_state}
use aurora_engine.Contract.Written.Calls.{
  read_caller, deploy_code_code, call_code, view_code, raw_call_code, meta_call_code,
}
use aurora_engine.Contract.Written.Reads.{read_all_input-Reads, read_state-Reads}
use aurora_engine.Contract.Written.Calls.Exits.{read_caller-Reads}
use aurora_engine.Contract.Written.Calls.Ends.{
  call_written-Ends, deploy_code_written-Ends, view_written-Ends, execute_written-Ends,
}

module _ (p : Platform) (evm : Interpreter p.executor) (w : p.World) where
  deploy_code_code-Ends : Ends p (deploy_code_code p evm) w (Views.deploy_code p w)
  unfolding deploy_code_code Views.deploy_code
  deploy_code_code-Ends =
      known-Ends p w read_all_input _ (read_input p w) _ (read_all_input-Reads p w) (
        read-Ends p w (read_caller p) _ (predecessor_address p w) _ (read_caller-Reads p w)
          (λ origin e.
            read-Ends_nested p w (read_state p) _ (get_state p w) _ _ (read_state-Reads p w)
              (λ state e.
                deploy_code_written-Ends p evm (new_with_state p state origin) w origin 0
                  (read_input p w))))

  call_code-Ends : Ends p (call_code p evm) w (Views.call p w)
  unfolding call_code Views.call
  call_code-Ends = known-Ends p w read_all_input _ (read_input p w) _ (read_all_input-Reads p w) (
      step-Ends p w (expect (p.function_call_args.from_slice (read_input p w))) _ _ (λ args.
        read-Ends p w (read_caller p) _ (predecessor_address p w) _ (read_caller-Reads p w)
          (λ origin e.
            read-Ends_nested p w (read_state p) _ (get_state p w) _ _ (read_state-Reads p w)
              (λ state e.
                call_written-Ends p evm (new_with_state p state origin) w origin args.contract 0
                  args.input))))

  view_code-Ends : Ends p (view_code p evm) w (Views.view p w)
  unfolding view_code Views.view
  view_code-Ends = known-Ends p w read_all_input _ (read_input p w) _ (read_all_input-Reads p w) (
      step-Ends p w (expect (p.view_call_args.from_slice (read_input p w))) _ _ (λ args.
        step-Ends p w (p.h160_from_slice args.sender) _ _ (λ caller.
          read-Ends_nested p w (read_state p) _ (get_state p w) _ _ (read_state-Reads p w)
            (λ state e. step-Ends_nested p w (p.h160_from_slice args.sender) _ _ _ (λ origin.
              step-Ends_nested p w (p.h160_from_slice args.address) _ _ _ (λ contract.
                step-Ends_nested p w (p.from_big_endian args.amount) _ _ _ (λ value.
                  view_written-Ends p evm (new_with_state p state caller) w origin contract value
                    args.input)))))))

  raw_call_code-Ends : Ends p (raw_call_code p evm) w (raw_call p w)
  unfolding raw_call_code raw_call
  raw_call_code-Ends =
      known-Ends p w read_all_input _ (read_input p w) _ (read_all_input-Reads p w) (
        step-Ends p w (expect (decode p.rlp (read_input p w))) _ _ (λ signed.
          read-Ends p w (read_state p) _ (get_state p w) _ (read_state-Reads p w) (λ state e.
            step-Ends p w (check_chain p (chain_id signed) state) _ _ (λ u.
              step-Ends p w (sender p.primitives p.crypto p.rlp signed) _ _ (λ found.
                step-Ends p w (signer_of found) _ _ (λ signer.
                  execute_written-Ends p evm (new_with_state p state signer) w signer
                    signed.transaction.to signed.transaction.value signed.transaction.input))))))

  meta_call_code-Ends : Ends p (meta_call_code p evm) w (meta_call p w)
  unfolding meta_call_code meta_call
  meta_call_code-Ends =
      known-Ends p w read_all_input _ (read_input p w) _ (read_all_input-Reads p w) (
        read-Ends p w (read_state p) _ (get_state p w) _ (read_state-Reads p w) (λ state e.
          step-Ends p w (p.from_big_endian state.chain_id) _ _ (λ chain.
            known-Ends p w (Programs.call Programs.current_account_id done) _
              (current_account_id p w) _
              (call-Reads p Programs.current_account_id w _ refl (λ short. short.account))
              (step-Ends p w _ _ _ (λ args.
                call_written-Ends p evm (new_with_state p state args.sender) w args.sender
                  args.contract_address args.value args.input)))))

module _ (p : Platform) (rt : Runtime p.host p.crypto) (evm : Interpreter p.executor) where
  open rt use {State, world, content}

  -- An exported function by its name.
  unfoldable pub serve_written : Function → State → Outcome State
  serve_written (task t) s = run_task_written p rt t s
  serve_written to_deploy_code s = run_code p rt (deploy_code_code p evm) s
  serve_written to_call s = run_code p rt (call_code p evm) s
  serve_written to_raw_call s = run_code p rt (raw_call_code p evm) s
  serve_written to_meta_call s = run_code p rt (meta_call_code p evm) s
  serve_written to_view s = run_code p rt (view_code p evm) s

  serve_written-run :
      (f : Function) (s : State)
      → IsShort p (world s)
      → content s 1 ≡ none
      → SameWorld p rt (serve_written f s) (run p f (world s))
  unfolding serve_written run
  serve_written-run (task t) s short unset = run_task_written-run_task p rt t s short unset
  serve_written-run to_deploy_code s short unset =
      ends-SameWorld p rt _ (Views.deploy_code p) s short (deploy_code_code-Ends p evm)
  serve_written-run to_call s short unset =
      ends-SameWorld p rt _ (Views.call p) s short (call_code-Ends p evm)
  serve_written-run to_raw_call s short unset =
      ends-SameWorld p rt _ (raw_call p) s short (raw_call_code-Ends p evm)
  serve_written-run to_meta_call s short unset =
      ends-SameWorld p rt _ (meta_call p) s short (meta_call_code-Ends p evm)
  serve_written-run to_view s short unset =
      ends-SameWorld p rt _ (Views.view p) s short (view_code-Ends p evm)

  -- On the registers of the runtime, every exported function ends as the machine says: with the same
  -- error or panic, or with storage that reads as the machine's next state and with the same output
  -- and deployment. The executor asks the engine for what it reads of the accounts, hands back
  -- codes that fit into a register, and answers the machine as it does on the storage at the start.
  -- At the start storage reads as the machine, register 1 is not set, and the input, the account
  -- names and all that is stored fit into a register; the number of the block has 64 bits.
  pub serve_written-serve :
      (f : Function) (s : State) (m : Machine)
      → IsShort p (world s)
      → content s 1 ≡ none
      → Models p (world s) m
      → block_index p (world s) < u64_mod
      → Related
          (StateMatches p rt s)
          (serve_written f s)
          (serve p (p.context (world s)) (answers p (world s)) f m)
  serve_written-serve f s m short unset r small =
      Related-trans (λ s w. world s ≡ w) (Matches p (world s)) (StateMatches p rt s)
        (serve_written f s) (run p f (world s))
        (serve p (p.context (world s)) (answers p (world s)) f m)
        (λ s' w (m', effect) e h. subst (λ v. Matches p (world s) v (m', effect)) (sym e) h)
        (serve_written-run f s short unset) (run-serve p f (world s) m r small)

-- ===== src/Contract/Written/Calls.antt =====
-- The functions of src/lib.rs that run the EVM, call by call of src/sdk.rs, with an executor that
-- asks the engine. The hashes inside a signature check are taken as functions.
pub mod Exits
pub mod Ends
pub mod Serves
use aurora_engine.Prelude.{
  ℕ, true, [], ◌∷◌, Option, none, some, Outcome, expect, panic_utf8, Bytes, codes, slice,
}
use aurora_engine.Storage.{state_key}
use aurora_engine.Parameters.{EngineState, ViewCallArgs}
use aurora_engine.Types.{bytes_to_hex}
use aurora_engine.Evm.{ExitReason, succeed, revert, error, fatal}
use aurora_engine.Platform.{Platform}
use aurora_engine.Sdk.Programs.{
  Program, done, call, panics, attempt, and_then, read_input, return_output, read_storage,
  predecessor_account_id, current_account_id, keccak,
}
use aurora_engine.Engine.{Engine, new_with_state}
use aurora_engine.Engine.Calls.{precompiles, max_gas}
use aurora_engine.Transaction.{chain_id, sender}
use aurora_engine.Transaction.Decoding.{decode}
use aurora_engine.MetaParsing.Hashing.{near_erc712_domain}
use aurora_engine.MetaParsing.MetaCall.{parse_meta_call}
use aurora_engine.Contract.Raw.{check_chain, signer_of}
use aurora_engine.Contract.Meta.{or_panic}
use aurora_engine.Contract.Written.Codes.{Code, step, read_all_input, read_state}
use aurora_engine.Contract.Written.Apply.{apply_written}
use aurora_engine.Contract.Written.Asking.{Interpreter}
use aurora_engine.Contract.Written.Asked.{asked}

unfoldable pub exit_code : ExitReason → Bytes → Code
exit_code succeed result = call (return_output result) done
exit_code revert result =
    and_then (step (bytes_to_hex result)) (λ message. panics (panic_utf8 message))
exit_code error result = panics (panic_utf8 (codes "error"))
exit_code fatal result = panics (panic_utf8 (codes "fatal error"))

module _ (p : Platform) where
  -- `near_account_to_evm_address(&sdk::predecessor_account_id())`, with `sdk::keccak`
  abbrev pub read_caller : Program Bytes
  read_caller = and_then (call predecessor_account_id done) (λ name.
      and_then (call (keccak name) done)
        (λ digest. and_then (step (slice digest 12 32)) (λ tail. step (p.h160_from_slice tail))))

module _ (p : Platform) (evm : Interpreter p.executor) where
  -- `Engine::call` and `Engine::deploy_code`, and the exit
  unfoldable pub call_written : Engine → Bytes → Bytes → ℕ → Bytes → Code
  call_written engine origin contract value input =
      and_then
        (asked p engine (evm.transact_call (precompiles p) origin contract value input max_gas))
        (λ e. and_then (apply_written p e.values e.logs true) (λ _. exit_code e.status e.result))

  unfoldable pub deploy_code_written : Engine → Bytes → ℕ → Bytes → Code
  deploy_code_written engine origin value input =
      and_then (asked p engine (evm.create_address origin)) (λ address.
        and_then (asked p engine (evm.transact_create (precompiles p) origin value input max_gas))
          (λ e. and_then (apply_written p e.values e.logs true) (λ _. exit_code e.status address)))

  unfoldable pub view_written : Engine → Bytes → Bytes → ℕ → Bytes → Code
  view_written engine origin contract value input =
      and_then
        (asked p engine (evm.transact_call (precompiles p) origin contract value input max_gas))
        (λ e. exit_code e.status e.result)

  unfoldable pub deploy_code_code : Code
  deploy_code_code = and_then read_all_input (λ input. and_then (read_caller p) (λ origin.
      and_then (read_state p)
        (λ state. deploy_code_written (new_with_state p state origin) origin 0 input)))

  unfoldable pub call_code : Code
  call_code = and_then read_all_input (λ input.
      and_then (step (expect (p.function_call_args.from_slice input))) (λ args.
        and_then (read_caller p) (λ origin. and_then (read_state p) (λ state.
          call_written (new_with_state p state origin) origin args.contract 0 args.input))))

  unfoldable pub view_code : Code
  view_code = and_then read_all_input (λ input.
      and_then (step (expect (p.view_call_args.from_slice input))) (λ args.
        and_then (step (p.h160_from_slice args.sender)) (λ caller. and_then (read_state p) (λ state.
          and_then (step (p.h160_from_slice args.sender)) (λ origin.
            and_then (step (p.h160_from_slice args.address)) (λ contract.
              and_then (step (p.from_big_endian args.amount)) (λ value.
                view_written (new_with_state p state caller) origin contract value args.input)))))))

  abbrev pub call_or_transfer_written : Engine → Bytes → Bytes → ℕ → Bytes → Code
  call_or_transfer_written engine origin receiver value [] = exit_code fatal []
  call_or_transfer_written engine origin receiver value (b ∷ bs) =
      call_written engine origin receiver value (b ∷ bs)

  unfoldable pub execute_written : Engine → Bytes → Option Bytes → ℕ → Bytes → Code
  execute_written engine origin none value input = deploy_code_written engine origin value input
  execute_written engine origin (some receiver) value input =
      call_or_transfer_written engine origin receiver value input

  unfoldable pub raw_call_code : Code
  raw_call_code = and_then read_all_input (λ input.
      and_then (step (expect (decode p.rlp input))) (λ signed. and_then (read_state p) (λ state.
        and_then (step (check_chain p (chain_id signed) state)) (λ _.
          and_then (step (sender p.primitives p.crypto p.rlp signed)) (λ found.
            and_then (step (signer_of found)) (λ signer.
              let t = signed.transaction in
              execute_written (new_with_state p state signer) signer t.to t.value t.input))))))

  unfoldable pub meta_call_code : Code
  meta_call_code = and_then read_all_input (λ input. and_then (read_state p) (λ state.
      and_then (step (p.from_big_endian state.chain_id)) (λ chain.
        and_then (call current_account_id done) (λ account.
          and_then
            (step (
              or_panic (
                parse_meta_call p.primitives p.crypto p.meta p.meta_call_args
                  (near_erc712_domain p.primitives p.crypto chain) account input)))
            (λ args.
              call_written (new_with_state p state args.sender) args.sender args.contract_address
                args.value args.input)))))

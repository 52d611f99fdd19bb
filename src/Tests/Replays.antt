-- ===== src/Tests/Replays.antt =====
-- What was accepted once is sent again.
use aurora_engine.Prelude.{
  ◌≡◌, ◌↔◌, ◌<◌, refl, arith, true, none, panic, memory_fault, length, replicate, ◌>>=◌,
}
use aurora_engine.Engine.{get_state, new_with_state}
use aurora_engine.Sdk.{read_input}
use aurora_engine.Contract.Users.{by_meta_call, by_raw_call}
use aurora_engine.Contract.Users.History.{none_yet, next, History-globals}
use aurora_engine.Contract.{process_exit_reason}
use aurora_engine.Contract.Meta.{meta_call, HasRunSigned, signed_end}
use aurora_engine.Contract.Raw.{raw_call, execute}
use aurora_engine.Contract.Raw.Signer.{HasRunTransaction}
use aurora_engine.Contract.Replay.{SameRequest, meta_call_again, raw_call_again}
use aurora_engine.Contract.Machine.{to_get_nonce}
use aurora_engine.Contract.Machine.Manages.{run_task}
use aurora_engine.Contract.Machine.Lifetimes.{just_begun}
use aurora_engine.Contract.Machine.Memory.{reads_address, run_task-faults}
use aurora_engine.Demo.{World, platform}
use aurora_engine.Tests.Admin.{called}
use aurora_engine.Tests.Meta.{relayed, after_call, meta_call-ok}
use aurora_engine.Tests.Transactions.{sending, for_any_chain, after, raw_call-ok}

-- The relayer sends the same arguments after the call, in a later block.
abbrev relayed_again : World
relayed_again = record after_call { context = record relayed.context { block_index = 200 } }

relayed_again-SameRequest : SameRequest platform relayed relayed_again
unfolding get_state
relayed_again-SameRequest = record {
  input = refl;
  account = refl;
  state =
      (History-globals platform {first = relayed}
        (next none_yet (λ s. refl) (by_meta_call meta_call-ok))).0;
}

meta_call_again_example :
    (run : HasRunSigned platform relayed after_call) × (meta_call platform relayed_again
      ≡ signed_end platform run.state run.args relayed_again)
meta_call_again_example =
    meta_call_again platform relayed relayed_again meta_call-ok relayed_again-SameRequest

abbrev sent_again : World
sent_again = record after { context = record (sending for_any_chain).context { block_index = 200 } }

sent_again-SameRequest : SameRequest platform (sending for_any_chain) sent_again
unfolding get_state
sent_again-SameRequest = record {
  input = refl;
  account = refl;
  state =
      (History-globals platform {first = sending for_any_chain}
        (next none_yet (λ s. refl) (by_raw_call raw_call-ok))).0;
}

raw_call_again_example :
    (run : HasRunTransaction platform (sending for_any_chain) after) × (raw_call platform sent_again
      ≡ (execute platform
            (new_with_state platform run.state run.signer)
            run.signer
            run.t.transaction.to
            run.t.transaction.value
            run.t.transaction.input
            sent_again
          >>= λ (status, result, end). process_exit_reason platform status result end))
raw_call_again_example =
    raw_call_again platform (sending for_any_chain) sent_again raw_call-ok sent_again-SameRequest

-- An account's nonce is asked for with 21 bytes.
abbrev asking : World
asking = record (called "bob" 100 (replicate 21 1)) { store = λ k. none }

run_task-faults_example :
    (run_task platform to_get_nonce asking ≡ panic memory_fault)
    ↔ ((reads_address to_get_nonce ≡ true) × (20 < length (read_input platform asking)))
run_task-faults_example =
    run_task-faults platform {first = asking} {w = asking} asking to_get_nonce (λ s. refl)
      just_begun (λ s. refl) (omega arith)

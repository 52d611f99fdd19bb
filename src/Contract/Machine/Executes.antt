-- ===== src/Contract/Machine/Executes.antt =====
-- The calls of src/engine.rs into the EVM change the accounts as the machine says.
use aurora_engine.Prelude.{
  ℕ, ◌≡◌, refl, ◌∙◌, Option, none, some, [], ◌∷◌, true, Outcome, ok, ◌>>=◌, Bytes, Related,
  Related-then, Related->>=,
}
use aurora_engine.Host.{Context}
use aurora_engine.Engine.Shown.{Shows, backend-Shows}
use aurora_engine.Evm.{Backend, ExitReason, succeed, revert, error, fatal, Execution, IsExecution}
use aurora_engine.Types.{bytes_to_hex}
use aurora_engine.Platform.{Platform}
use aurora_engine.Engine.{Engine, backend}
use aurora_engine.Engine.ApplyBackend.{apply}
use aurora_engine.Engine.ApplyBackend.Total.{apply-Yields}
use aurora_engine.Engine.ApplyBackend.Frame.{Keeps, apply-Keeps}
use aurora_engine.Engine.Calls.{call, deploy_code, precompiles, max_gas}
use aurora_engine.Contract.{process_exit_reason}
use aurora_engine.Contract.Raw.{execute}
use aurora_engine.Contract.Machine.{
  Machine, Ran, Answers, called, created, executed, with_changes, ends, ends_run,
}
use aurora_engine.Contract.Machine.Models.{Models, Keeps-Models}
use aurora_engine.Contract.Machine.Globals.{Matches, Simulates, returned-Matches}

module _ (p : Platform) where
  open p use {World}

  -- The EVM on the storage of a world.
  abbrev pub answers : World → Answers
  answers w = record {
    of_call = λ engine origin contract value input.
        p.executor.transact_call (precompiles p) (backend p engine w) origin contract value input
          max_gas;
    of_create = λ engine origin value input.
        p.executor.transact_create (precompiles p) (backend p engine w) origin value input max_gas;
    of_address = λ engine origin. p.executor.create_address (backend p engine w) origin;
  }

  -- The EVM answers for a machine, in a call that was given `c`, if it reads a backend that shows the
  -- machine's accounts, the caller and the block.
  pub record IsEvm (c : Context) (m : Machine) (a : Answers) : Type 0 where
    pub shown : Engine → Backend
    pub shows : (engine : Engine) → Shows (shown engine) m.accounts
    pub caller : (engine : Engine) → (shown engine).origin ≡ engine.origin
    pub block : (engine : Engine) → (shown engine).block_number ≡ c.block_index
    pub chain :
        (engine : Engine) → (shown engine).chain_id ≡ p.from_big_endian engine.state.chain_id
    pub calls :
        (engine : Engine) (origin contract : Bytes) (value : ℕ) (input : Bytes)
        → a.of_call engine origin contract value input
          ≡ p.executor.transact_call
              (precompiles p)
              (shown engine)
              origin
              contract
              value
              input
              max_gas
    pub creates :
        (engine : Engine) (origin : Bytes) (value : ℕ) (input : Bytes)
        → a.of_create engine origin value input
          ≡ p.executor.transact_create (precompiles p) (shown engine) origin value input max_gas
    pub addresses :
        (engine : Engine) (origin : Bytes)
        → a.of_address engine origin ≡ p.executor.create_address (shown engine) origin

  pub answers-IsEvm : (w : World) (m : Machine) → Models p w m → IsEvm (p.context w) m (answers w)
  unfolding backend
  answers-IsEvm w m r = record {
    shown = λ engine. backend p engine w;
    shows = λ engine. backend-Shows p engine w m.accounts r.accounts;
    caller = λ engine. refl;
    block = λ engine. refl;
    chain = λ engine. refl;
    calls = λ engine origin contract value input. refl;
    creates = λ engine origin value input. refl;
    addresses = λ engine origin. refl;
  }

  -- A run that started in `w` ends with the status and the result of the machine's, in a world that
  -- reads as the machine's.
  abbrev pub RunMatches : World → ExitReason × Bytes × World → ExitReason × Bytes × Machine → Type 0
  RunMatches w (status, result, w') (status_there, result_there, m) =
      (status ≡ status_there)
      × (result ≡ result_there)
      × Models p w' m
      × (p.deployed w' ≡ p.deployed w)

  abbrev SimulatesRun : World → Outcome (ExitReason × Bytes × World) → Ran → Type 0
  SimulatesRun w run ran = Related (RunMatches w) run ran

  module _ (w : World) (m : Machine) (r : Models p w m) where
    -- The changes of an execution are written.
    applied :
        (e : Execution) (status : ExitReason) (result : Bytes)
        → IsExecution e
        → SimulatesRun w
            (apply p e.values e.logs true w >>= λ w'. ok (status, result, w'))
            (ok (status, result, with_changes e m))
    applied e status result valid =
        let (w', done, changed) =
          apply-Yields p m.accounts e.values e.logs true w r.accounts valid.values_valid
            valid.logs_valid in
        let kept : Keeps p w w' = apply-Keeps p e.values e.logs true w valid.values_valid done in
        rw done (refl, refl, Keeps-Models p r kept changed, kept.same_deployed)

    pub call-called :
        (engine : Engine) (origin contract : Bytes) (value : ℕ) (input : Bytes)
        → SimulatesRun w
            (call p engine origin contract value input w)
            (called p (p.context w) (answers w) engine origin contract value input m)
    unfolding call
    call-called engine origin contract value input =
        Related-then (RunMatches w)
          (p.executor.transact_call (precompiles p) (backend p engine w) origin contract value input
            max_gas)
          _ _
          (λ e ran.
            applied e e.status e.result (p.executor.transact_call-IsExecution _ _ _ _ _ _ _ ran))

    pub deploy_code-created :
        (engine : Engine) (origin : Bytes) (value : ℕ) (input : Bytes)
        → SimulatesRun w
            (deploy_code p engine origin value input w)
            (created p (p.context w) (answers w) engine origin value input m)
    unfolding deploy_code
    deploy_code-created engine origin value input =
        Related-then (RunMatches w) (p.executor.create_address (backend p engine w) origin) _ _
          (λ address made.
            Related-then (RunMatches w)
              (p.executor.transact_create (precompiles p) (backend p engine w) origin value input
                max_gas)
              _ _
              (λ e ran.
                applied e e.status address
                  (p.executor.transact_create-IsExecution _ _ _ _ _ _ ran)))

    pub execute-executed :
        (engine : Engine) (origin : Bytes) (to : Option Bytes) (value : ℕ) (input : Bytes)
        → SimulatesRun w
            (execute p engine origin to value input w)
            (executed p (p.context w) (answers w) engine origin to value input m)
    unfolding execute
    execute-executed engine origin none value input = deploy_code-created engine origin value input
    execute-executed engine origin (some to) value [] = (refl, refl, r, refl)
    execute-executed engine origin (some to) value (b ∷ bs) =
        call-called engine origin to value (b ∷ bs)

  -- The exit of a run.
  pub process_exit_reason-ends :
      (w v : World) (m : Machine) (status : ExitReason) (result : Bytes)
      → Models p v m
      → p.deployed v ≡ p.deployed w
      → Simulates p w (process_exit_reason p status result v) (ends status result m)
  unfolding process_exit_reason
  process_exit_reason-ends w v m succeed result r same =
      let (models, (there, given)) = returned-Matches p v result r in
      (models, (there ∙ same, given))
  process_exit_reason-ends w v m revert result r same =
      Related-then (Matches p w) (bytes_to_hex result) _ _ (λ message e. refl)
  process_exit_reason-ends w v m error result r same = refl
  process_exit_reason-ends w v m fatal result r same = refl

  abbrev pub exits : ExitReason × Bytes × World → Outcome World
  exits (status, result, w') = process_exit_reason p status result w'

  pub run-ends_run :
      (w : World) (run : Outcome (ExitReason × Bytes × World)) (ran : Ran)
      → SimulatesRun w run ran
      → Simulates p w (run >>= exits) (ran >>= ends_run)
  run-ends_run w run ran h =
      Related->>= (RunMatches w) (Matches p w) run ran exits ends_run h
        (λ (status, result, v) (status_there, result_there, m) e
            (same_status, same_result, r, same).
          rw (← same_status, ← same_result) (process_exit_reason-ends w v m status result r same))

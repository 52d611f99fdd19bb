-- ===== src/Tests/Written.antt =====
-- The exported functions on the registers of the runtime at a concrete input.
use aurora_engine.Prelude.{
  Bytes, ◌≡◌, Related, arith, refl, none, some, ok, codes, All, if◌then◌else◌, ◌==◌,
}
use mathlib.Core.Path.{subst}
use aurora_engine.Evm.{Execution}
use aurora_engine.Contract.Machine.{serve, to_call}
use aurora_engine.Contract.Machine.Models.{blank_machine, empty-Models}
use aurora_engine.Contract.Machine.Executes.{answers}
use aurora_engine.Contract.Written.Fitting.{IsShort}
use aurora_engine.Contract.Written.Manages.{StateMatches}
use aurora_engine.Contract.Written.Apply.Fitting.{HasShortCode}
use aurora_engine.Contract.Written.Asking.{Interpreter, answer, ask, for_block_number}
use aurora_engine.Contract.Written.Calls.Serves.{serve_written, serve_written-serve}
use aurora_engine.Demo.{World, CallState, runtime, platform, executor, execution, address_of}
use aurora_engine.Tests.Admin.{called}

execution-HasShortCode :
    (input : Bytes) {e : Execution} → ok (execution input) ≡ ok e → All HasShortCode e.values
execution-HasShortCode input {e} h =
    let same : execution input ≡ e = cc h in
    subst (λ e. All HasShortCode e.values) same (omega arith)

-- An executor that asks for the number of the block.
abbrev interpreter : Interpreter executor
interpreter = record {
  create_address = λ origin. ask for_block_number (λ n. answer (address_of 1));
  transact_create =
      λ c origin value input gas. ask for_block_number (λ n. answer (execution input));
  transact_call =
      λ c origin contract value input gas. ask for_block_number (λ n. answer (execution input));
  create_address-evaluate = λ b origin. refl;
  transact_create-evaluate = λ c b origin value input gas. refl;
  transact_call-evaluate = λ c b origin contract value input gas. refl;
  create-HasShortCode = λ c b origin value input gas short h. execution-HasShortCode input h;
  call-HasShortCode = λ c b origin contract value input gas short h. execution-HasShortCode input h;
}

-- Bob calls, on empty storage.
abbrev calling : World
calling =
    record (called "bob" 100 (
      platform.function_call_args.to_vec (record { contract = address_of 1; input = codes "x" }))) {
        store = λ k. none;
      }

-- The runtime's state at the start, with a value left in register 0.
abbrev starting : CallState
starting = record {
  world = calling;
  held = λ r. if r == 0 then some (codes "stale") else none;
  batches = λ i. none;
  count = 0;
}

calling-IsShort : IsShort platform calling
calling-IsShort = record {
  input = omega arith;
  predecessor = omega arith;
  account = omega arith;
  stored = λ key. tt;
}

serve_written-serve_example :
    Related
      (StateMatches platform runtime starting)
      (serve_written platform runtime interpreter to_call starting)
      (serve platform
        (platform.context calling)
        (answers platform calling)
        to_call
        (blank_machine platform))
serve_written-serve_example =
    serve_written-serve platform runtime interpreter to_call starting (blank_machine platform)
      calling-IsShort refl (empty-Models platform calling (λ s. refl)) (omega arith)

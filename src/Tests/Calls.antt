-- ===== src/Tests/Calls.antt =====
-- Calls into the EVM at concrete inputs.
use aurora_engine.Prelude.{refl, arith, true, none, some, List, [], codes, if◌then◌else◌, ◌==◌}
use aurora_engine.Evm.{Apply}
use aurora_engine.Engine.{Engine, default_state, get_nonce, get_balance, get_code, get_storage}
use aurora_engine.Engine.Abstract.{Accounts, apply_all, Represents}
use aurora_engine.Engine.ApplyBackend.{apply}
use aurora_engine.Engine.ApplyBackend.Total.{Yields, apply-Yields}
use aurora_engine.Contract.Written.Fitting.{IsShort}
use aurora_engine.Contract.Written.Manages.{run_code}
use aurora_engine.Contract.Written.Apply.{apply_written}
use aurora_engine.Contract.Written.Apply.Represents.{EndsAs, apply_written-EndsAs}
use aurora_engine.Demo.{World, CallState, runtime, platform, execution, address_of, word_of}

-- A call of alice at block 100, on empty storage.
abbrev empty : World
empty = record {
  context = record {
    input = codes "input";
    predecessor_account_id = codes "alice";
    current_account_id = codes "aurora";
    block_index = 100;
    block_timestamp = 7;
  };
  store = λ k. none;
  output = none;
  logs = [];
  deployed = [];
}

abbrev engine : Engine
engine = record { state = default_state; origin = address_of 9 }

abbrev pub no_accounts : Accounts
no_accounts a = record { nonce = 0; balance = 0; code = []; cell = λ k. word_of 0 }

empty-Represents : Represents platform empty no_accounts
unfolding get_nonce get_balance get_code get_storage
empty-Represents = record {
  nonces = λ a h. refl;
  balances = λ a h. refl;
  codes = λ a h. refl;
  cells = λ a k h hk. refl;
}

abbrev changes : List Apply
changes = (execution (codes "x")).values

apply-Yields_example :
    Yields platform
      (apply platform changes (execution (codes "x")).logs true empty)
      (apply_all changes no_accounts)
apply-Yields_example =
    apply-Yields platform no_accounts changes (execution (codes "x")).logs true empty
      empty-Represents (omega arith) (omega arith)

-- The runtime's state, with a value left in register 0.
abbrev waiting : CallState
waiting = record {
  world = empty;
  held = λ r. if r == 0 then some (codes "stale") else none;
  batches = λ i. none;
  count = 0;
}

empty-IsShort : IsShort platform empty
empty-IsShort = record {
  input = omega arith;
  predecessor = omega arith;
  account = omega arith;
  stored = λ key. tt;
}

apply_written-EndsAs_example :
    EndsAs platform runtime
      (run_code platform runtime
        (apply_written platform changes (execution (codes "x")).logs true)
        waiting)
      (apply_all changes no_accounts)
apply_written-EndsAs_example =
    apply_written-EndsAs platform runtime no_accounts changes (execution (codes "x")).logs true
      waiting empty-IsShort empty-Represents (omega arith) (omega arith) (omega arith)

-- ===== src/Demo/Runtime.antt =====
-- A runtime with storage as a function, and an executor that always makes the same changes.
use aurora_engine.Prelude.{
  ℕ, ◌≡◌, refl, Option, none, some, List, [], ◌∷◌, ◌++◌, arith, ok, Bytes, bytes_eq, replicate,
  if◌then◌else◌, codes, false,
}
use aurora_engine.Host.{Host, Context}
use aurora_engine.Evm.{Executor, Execution, IsExecution, modify, delete, succeed}
use mathlib.Core.Path.{subst}

pub record World : Type 0 where
  pub context : Context
  pub store : Bytes → Option Bytes
  pub output : Option Bytes
  pub logs : List Bytes
  pub deployed : List (Bytes × Bytes)

abbrev pub host : Host
host = record {
  World = World;
  context = λ w. w.context;
  storage_read = λ w k. w.store k;
  storage_write = λ w k v. record w { store = λ j. if bytes_eq k j then some v else w.store j };
  storage_remove = λ w k. record w { store = λ j. if bytes_eq k j then none else w.store j };
  value_return = λ w v. record w { output = some v };
  returned = λ w. w.output;
  log_utf8 = λ w v. record w { logs = w.logs ++ v ∷ [] };
  deploy_contract = λ w a c. record w { deployed = w.deployed ++ (a, c) ∷ [] };
  deployed = λ w. w.deployed;
  read-write = λ w k v j. refl;
  read-remove = λ w k j. refl;
  read-value_return = λ w v j. refl;
  read-log = λ w v j. refl;
  read-deploy = λ w a c j. refl;
  context-write = λ w k v. refl;
  context-remove = λ w k. refl;
  context-value_return = λ w v. refl;
  context-log = λ w v. refl;
  context-deploy = λ w a c. refl;
  returned-value_return = λ w v. refl;
  deployed-deploy = λ w a c. refl;
  deployed-write = λ w k v. refl;
  deployed-remove = λ w k. refl;
  deployed-value_return = λ w v. refl;
  deployed-log = λ w v. refl;
}

abbrev pub address_of : ℕ → Bytes
address_of n = replicate 20 n

abbrev pub word_of : ℕ → Bytes
word_of n = replicate 32 n

-- One account gets a nonce, a balance, code and two cells, another is deleted; one log.
abbrev pub execution : Bytes → Execution
execution input = record {
  status = succeed;
  result = input;
  values =
      modify (address_of 1) (record { nonce = 1; balance = 1000 }) (some (codes "code"))
        ((word_of 1, word_of 7) ∷ (word_of 2, word_of 0) ∷ []) false
      ∷ delete (address_of 2)
      ∷ [];
  logs = record { address = address_of 1; topics = word_of 3 ∷ []; payload = codes "log" } ∷ [];
}

pub execution-IsExecution :
    (input : Bytes) {e : Execution} → ok (execution input) ≡ ok e → IsExecution e
execution-IsExecution input {e} h =
    let same : execution input ≡ e = cc h in
    subst IsExecution same (record { values_valid = omega arith; logs_valid = omega arith })

abbrev pub executor : Executor
executor = record {
  create_address = λ b caller. ok (address_of 1);
  transact_create = λ p b origin value input gas. ok (execution input);
  transact_call = λ p b origin contract value input gas. ok (execution input);
  transact_create-IsExecution = λ p b origin value input gas h. execution-IsExecution input h;
  transact_call-IsExecution =
      λ p b origin contract value input gas h. execution-IsExecution input h;
}

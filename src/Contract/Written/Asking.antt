-- ===== src/Contract/Written/Asking.antt =====
-- The executor of the `evm` package as code that asks its backend, one method of `Backend` after the
-- other, and what is assumed of it.
use aurora_engine.Prelude.{ℕ, ◌≡◌, Bool, Option, Outcome, ok, panic, ◌>>=◌, Panic, Bytes, All}
use aurora_engine.Evm.{Backend, Basic, Precompiles, Execution, Executor}
use aurora_engine.Sdk.Held.{Short}
use aurora_engine.Contract.Written.Apply.Fitting.{HasShortCode}

-- A call of a method of the backend.
pub data Question : Type 0 where
  for_gas_price for_origin for_block_number for_block_coinbase for_block_timestamp : Question
  for_block_difficulty for_block_gas_limit for_chain_id : Question
  for_block_hash : ℕ → Question
  for_exists : Bytes → Question
  for_basic : Bytes → Question
  for_code : Bytes → Question
  for_storage : Bytes → Bytes → Question
  for_original_storage : Bytes → Bytes → Question

abbrev pub Reply : Question → Type 0
Reply for_gas_price = ℕ
Reply for_origin = Bytes
Reply for_block_number = ℕ
Reply for_block_coinbase = Bytes
Reply for_block_timestamp = ℕ
Reply for_block_difficulty = ℕ
Reply for_block_gas_limit = ℕ
Reply for_chain_id = ℕ
Reply (for_block_hash number) = Bytes
Reply (for_exists address) = Bool
Reply (for_basic address) = Basic
Reply (for_code address) = Bytes
Reply (for_storage address index) = Bytes
Reply (for_original_storage address index) = Option Bytes

abbrev pub reply : Backend → (q : Question) → Outcome (Reply q)
reply b for_gas_price = ok b.gas_price
reply b for_origin = ok b.origin
reply b for_block_number = ok b.block_number
reply b for_block_coinbase = ok b.block_coinbase
reply b for_block_timestamp = ok b.block_timestamp
reply b for_block_difficulty = ok b.block_difficulty
reply b for_block_gas_limit = ok b.block_gas_limit
reply b for_chain_id = b.chain_id
reply b (for_block_hash number) = ok (b.block_hash number)
reply b (for_exists address) = b.exists address
reply b (for_basic address) = b.basic address
reply b (for_code address) = ok (b.code address)
reply b (for_storage address index) = b.storage address index
reply b (for_original_storage address index) = ok (b.original_storage address index)

pub data Asking (A : Type 0) : Type 0 where
  answer : A → Asking A
  ask : (q : Question) → (Reply q → Asking A) → Asking A
  breaks : Panic → Asking A

abbrev pub evaluate : {A : Type 0} → Backend → Asking A → Outcome A
evaluate b (answer a) = ok a
evaluate b (ask q next) = reply b q >>= λ r. evaluate b (next r)
evaluate b (breaks e) = panic e

-- The executor's runs ask the backend. The configuration bounds the code of a new contract, and other
-- code that it hands back it has read.
pub record Interpreter (executor : Executor) : Type 0 where
  pub create_address : Bytes → Asking Bytes
  pub transact_create : Precompiles → Bytes → ℕ → Bytes → ℕ → Asking Execution
  pub transact_call : Precompiles → Bytes → Bytes → ℕ → Bytes → ℕ → Asking Execution
  pub create_address-evaluate :
      (b : Backend) (origin : Bytes)
      → executor.create_address b origin ≡ evaluate b (create_address origin)
  pub transact_create-evaluate :
      (c : Precompiles) (b : Backend) (origin : Bytes) (value : ℕ) (input : Bytes) (gas : ℕ)
      → executor.transact_create c b origin value input gas
        ≡ evaluate b (transact_create c origin value input gas)
  pub transact_call-evaluate :
      (c : Precompiles) (b : Backend) (origin contract : Bytes) (value : ℕ) (input : Bytes)
      (gas : ℕ)
      → executor.transact_call c b origin contract value input gas
        ≡ evaluate b (transact_call c origin contract value input gas)
  pub create-HasShortCode :
      (c : Precompiles) (b : Backend) (origin : Bytes) (value : ℕ) (input : Bytes) (gas : ℕ)
      {e : Execution}
      → ((a : Bytes) → Short (b.code a))
      → executor.transact_create c b origin value input gas ≡ ok e
      → All HasShortCode e.values
  pub call-HasShortCode :
      (c : Precompiles) (b : Backend) (origin contract : Bytes) (value : ℕ) (input : Bytes)
      (gas : ℕ) {e : Execution}
      → ((a : Bytes) → Short (b.code a))
      → executor.transact_call c b origin contract value input gas ≡ ok e
      → All HasShortCode e.values

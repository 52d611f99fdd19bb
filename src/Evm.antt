-- ===== src/Evm.antt =====
-- The interface of the `evm` package that src/engine.rs uses: the backend that an executor reads,
-- the changes that it hands back, and the executor itself, which is a parameter.
use aurora_engine.Prelude.{ℕ, ◌<◌, ◌≡◌, Option, Bool, List, Bytes, AreBytes, All, Outcome, ok}
use aurora_engine.Packages.{IsAddress, IsWord, u256_mod}
use aurora_engine.Types.{Log}

pub record Basic : Type 0 where
  pub balance : ℕ
  pub nonce : ℕ

-- The trait `Backend`.
pub record Backend : Type 0 where
  pub gas_price : ℕ
  pub origin : Bytes
  pub block_hash : ℕ → Bytes
  pub block_number : ℕ
  pub block_coinbase : Bytes
  pub block_timestamp : ℕ
  pub block_difficulty : ℕ
  pub block_gas_limit : ℕ
  pub chain_id : Outcome ℕ
  pub exists : Bytes → Outcome Bool
  pub basic : Bytes → Outcome Basic
  pub code : Bytes → Bytes
  pub storage : Bytes → Bytes → Outcome Bytes
  pub original_storage : Bytes → Bytes → Option Bytes

-- What the executor changed of an account.
pub data Apply : Type 0 where
  modify :
      (address : Bytes) (basic : Basic) (code : Option Bytes) (storage : List (Bytes × Bytes))
      (reset_storage : Bool)
      → Apply
  delete : (address : Bytes) → Apply

abbrev pub IsCell : Bytes × Bytes → Type 0
IsCell (index, value) = IsWord index × IsWord value

-- What the Rust types say: addresses of 20 bytes, words of 32, numbers below 2 ^ 256.
abbrev pub IsApply : Apply → Type 0
IsApply (modify address basic code storage reset_storage) =
    IsAddress address × (basic.nonce < u256_mod) × (basic.balance < u256_mod) × All IsCell storage
IsApply (delete address) = IsAddress address

pub data ExitReason : Type 0 where
  succeed revert error fatal : ExitReason

-- A precompiled contract's answer to an address and an input: `none` where the address is no such
-- contract; an outcome, for the code may panic; the output and the cost.
abbrev pub Precompiles : Type 0
Precompiles = Bytes → Bytes → Option (Outcome (Bytes × ℕ))

pub record Execution : Type 0 where
  pub status : ExitReason
  pub result : Bytes
  pub values : List Apply
  pub logs : List Log

abbrev pub IsLog : Log → Type 0
IsLog log = All IsWord log.topics × All AreBytes log.topics × AreBytes log.payload

-- What a Rust value of the type satisfies.
pub record IsExecution (e : Execution) : Type 0 where
  pub values_valid : All IsApply e.values
  pub logs_valid : All IsLog e.logs

-- `StackExecutor` with the Istanbul configuration: a run reads the backend and the precompiles,
-- and may panic where one of these does. `transact_create` and `transact_call` take the origin,
-- the target, the value, the input and the gas.
pub record Executor : Type 0 where
  pub create_address : Backend → Bytes → Outcome Bytes
  pub transact_create : Precompiles → Backend → Bytes → ℕ → Bytes → ℕ → Outcome Execution
  pub transact_call : Precompiles → Backend → Bytes → Bytes → ℕ → Bytes → ℕ → Outcome Execution
  pub transact_create-IsExecution :
      (p : Precompiles) (b : Backend) (origin : Bytes) (value : ℕ) (input : Bytes) (gas : ℕ)
      {e : Execution}
      → transact_create p b origin value input gas ≡ ok e
      → IsExecution e
  pub transact_call-IsExecution :
      (p : Precompiles) (b : Backend) (origin contract : Bytes) (value : ℕ) (input : Bytes)
      (gas : ℕ) {e : Execution}
      → transact_call p b origin contract value input gas ≡ ok e
      → IsExecution e

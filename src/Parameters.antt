-- ===== src/Parameters.antt =====
-- The Borsh-encoded records: src/parameters.rs, and the engine's state of src/engine.rs.
use aurora_engine.Prelude.{ℕ, ◌<◌, ◌≡◌, Bytes, length}
use aurora_engine.Packages.{IsWord, IsAddress, u64_mod}

pub record NewCallArgs : Type 0 where
  pub chain_id : Bytes
  pub owner_id : Bytes
  pub bridge_prover_id : Bytes
  pub upgrade_delay_blocks : ℕ

pub record MetaCallArgs : Type 0 where
  pub signature : Bytes
  pub v : ℕ
  pub nonce : Bytes
  pub fee_amount : Bytes
  pub fee_address : Bytes
  pub contract_address : Bytes
  pub value : Bytes
  pub method_def : Bytes
  pub args : Bytes

pub record FunctionCallArgs : Type 0 where
  pub contract : Bytes
  pub input : Bytes

pub record ViewCallArgs : Type 0 where
  pub sender : Bytes
  pub address : Bytes
  pub amount : Bytes
  pub input : Bytes

pub record GetStorageAtArgs : Type 0 where
  pub address : Bytes
  pub key : Bytes

pub record BeginChainArgs : Type 0 where
  pub chain_id : Bytes

-- `EngineState`.
pub record EngineState : Type 0 where
  pub chain_id : Bytes
  pub owner_id : Bytes
  pub bridge_prover_id : Bytes
  pub upgrade_delay_blocks : ℕ

-- `impl From<NewCallArgs> for EngineState`.
abbrev pub from_new_call_args : NewCallArgs → EngineState
from_new_call_args args = record {
  chain_id = args.chain_id;
  owner_id = args.owner_id;
  bridge_prover_id = args.bridge_prover_id;
  upgrade_delay_blocks = args.upgrade_delay_blocks;
}

-- What the Rust types say of the fields: a `[u8; 32]` and a `u64`.
pub record IsEngineState (s : EngineState) : Type 0 where
  pub chain_id_word : IsWord s.chain_id
  pub delay_u64 : s.upgrade_delay_blocks < u64_mod

pub record IsNewCallArgs (a : NewCallArgs) : Type 0 where
  pub chain_id_word : IsWord a.chain_id
  pub delay_u64 : a.upgrade_delay_blocks < u64_mod

pub record IsFunctionCallArgs (a : FunctionCallArgs) : Type 0 where
  pub contract_address : IsAddress a.contract

pub record IsViewCallArgs (a : ViewCallArgs) : Type 0 where
  pub sender_address : IsAddress a.sender
  pub address_address : IsAddress a.address
  pub amount_word : IsWord a.amount

pub record IsGetStorageAtArgs (a : GetStorageAtArgs) : Type 0 where
  pub address_address : IsAddress a.address
  pub key_word : IsWord a.key

pub record IsBeginChainArgs (a : BeginChainArgs) : Type 0 where
  pub chain_id_word : IsWord a.chain_id

pub record BeginBlockArgs : Type 0 where
  pub hash : Bytes
  pub coinbase : Bytes
  pub timestamp : Bytes
  pub number : Bytes
  pub difficulty : Bytes
  pub gaslimit : Bytes

pub record IsBeginBlockArgs (a : BeginBlockArgs) : Type 0 where
  pub hash_word : IsWord a.hash
  pub coinbase_word : IsWord a.coinbase
  pub timestamp_word : IsWord a.timestamp
  pub number_word : IsWord a.number
  pub difficulty_word : IsWord a.difficulty
  pub gaslimit_word : IsWord a.gaslimit

pub record IsMetaCallArgs (a : MetaCallArgs) : Type 0 where
  pub signature_length : length a.signature ≡ 64
  pub v_byte : a.v < 256
  pub nonce_word : IsWord a.nonce
  pub fee_amount_word : IsWord a.fee_amount
  pub fee_address_address : IsAddress a.fee_address
  pub contract_address_address : IsAddress a.contract_address
  pub value_word : IsWord a.value

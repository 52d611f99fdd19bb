-- ===== src/Platform.antt =====
-- All that the contract takes from outside the repository.
use aurora_engine.Packages.{Primitives, Crypto, Codec}
use aurora_engine.Host.{Host}
use aurora_engine.Evm.{Executor}
use aurora_engine.Parameters.{
  EngineState, IsEngineState, NewCallArgs, IsNewCallArgs, FunctionCallArgs, IsFunctionCallArgs,
  ViewCallArgs, IsViewCallArgs, GetStorageAtArgs, IsGetStorageAtArgs, BeginChainArgs,
  IsBeginChainArgs, BeginBlockArgs, IsBeginBlockArgs, MetaCallArgs, IsMetaCallArgs,
}
use aurora_engine.MetaParsing.Syntax.{MetaPackages}
use aurora_engine.Transaction.Rlp.{Rlp}

pub record Platform : Type 1 where
  pub primitives : Primitives
  pub open primitives use *
  pub crypto : Crypto
  pub open crypto use *
  pub host : Host
  pub open host use *
  pub executor : Executor
  pub states : Codec EngineState IsEngineState
  pub new_call_args : Codec NewCallArgs IsNewCallArgs
  pub function_call_args : Codec FunctionCallArgs IsFunctionCallArgs
  pub view_call_args : Codec ViewCallArgs IsViewCallArgs
  pub get_storage_at_args : Codec GetStorageAtArgs IsGetStorageAtArgs
  pub begin_chain_args : Codec BeginChainArgs IsBeginChainArgs
  pub begin_block_args : Codec BeginBlockArgs IsBeginBlockArgs
  pub meta_call_args : Codec MetaCallArgs IsMetaCallArgs
  pub meta : MetaPackages
  pub rlp : Rlp

-- ===== src/Contract/Machine.antt =====
-- The contract of src/lib.rs as a machine on accounts: what each exported function does, without
-- keys, encodings and the order of writes. The EVM answers the machine's questions.
pub mod Models
pub mod Globals
pub mod Manages
pub mod Executes
pub mod Serves
pub mod Lifetimes
pub mod Upgrades
pub mod Stagings
pub mod Provenance
pub mod Memory
use aurora_engine.Prelude.{
  ℕ, ◌≡◌, Option, none, some, [], ◌∷◌, ◌++◌, Outcome, ok, panic, panic_utf8, ◌>>=◌, ◌>>◌, expect,
  Bytes, codes, leb, if◌then◌else◌, bytes_eq, le_bytes, abort,
}
use aurora_engine.Types.{near_account_to_evm_address}
use aurora_engine.Parameters.{EngineState, from_new_call_args}
use aurora_engine.Evm.{ExitReason, succeed, revert, error, fatal, Execution}
use aurora_engine.Host.{Context}
use aurora_engine.Platform.{Platform}
use aurora_engine.Sdk.{fill_buffer, panic_hex}
use aurora_engine.Engine.{Engine, new_with_state}
use aurora_engine.Engine.Abstract.{Accounts, apply_all}
use aurora_engine.Contract.{add_u64, not_allowed}
use aurora_engine.Contract.Admin.Upgrade.{too_early}
use aurora_engine.Contract.Meta.{or_panic}
use aurora_engine.Contract.Raw.{check_chain, signer_of}
use aurora_engine.Transaction.{chain_id, sender}
use aurora_engine.Transaction.Decoding.{decode}
use aurora_engine.MetaParsing.Hashing.{near_erc712_domain}
use aurora_engine.MetaParsing.MetaCall.{parse_meta_call}

-- The exported functions that do not run the EVM. The text of the version is a part of the build.
pub data Task : Type 0 where
  to_new to_get_owner to_get_bridge_provider to_get_chain_id : Task
  to_get_version : Bytes → Task
  to_get_upgrade_index to_stage_upgrade to_deploy_upgrade to_begin_chain to_begin_block : Task
  to_get_code to_get_balance to_get_nonce to_get_storage_at : Task

-- All exported functions.
pub data Function : Type 0 where
  task : Task → Function
  to_deploy_code to_call to_raw_call to_meta_call to_view : Function

pub record Machine : Type 0 where
  pub state : EngineState
  pub upgrade : Option Bytes
  pub upgrade_block : Option ℕ
  pub accounts : Accounts

-- What a call does besides its changes.
pub data Effect : Type 0 where
  silent : Effect
  returning : Bytes → Effect
  deploying : Bytes → Effect

-- What the EVM makes of a call and of a creation, and the address of a new contract.
pub record Answers : Type 0 where
  pub of_call : Engine → Bytes → Bytes → ℕ → Bytes → Outcome Execution
  pub of_create : Engine → Bytes → ℕ → Bytes → Outcome Execution
  pub of_address : Engine → Bytes → Outcome Bytes

abbrev pub End : Type 0
End = Outcome (Machine × Effect)

abbrev pub Ran : Type 0
Ran = Outcome (ExitReason × Bytes × Machine)

abbrev pub with_changes : Execution → Machine → Machine
with_changes e m = record m { accounts = apply_all e.values m.accounts }

abbrev pub ends : ExitReason → Bytes → Machine → End
ends succeed result m = ok (m, returning result)
ends revert result m = panic_hex result
ends error result m = panic (panic_utf8 (codes "error"))
ends fatal result m = panic (panic_utf8 (codes "fatal error"))

abbrev pub ends_run : ExitReason × Bytes × Machine → End
ends_run (status, result, m) = ends status result m

abbrev pub deploys : Option Bytes → Machine → End
deploys none m = panic abort
deploys (some code) m = ok (record m { upgrade = none }, deploying code)

module _ (p : Platform) (c : Context) where
  abbrev pub only_owner : EngineState → Outcome (Unit {0})
  only_owner state =
      if bytes_eq state.owner_id c.predecessor_account_id then ok tt else panic not_allowed

  abbrev pub only_owner_if_any : Bytes → EngineState → Outcome (Unit {0})
  only_owner_if_any [] state = ok tt
  only_owner_if_any (b ∷ bs) state = only_owner state

  abbrev pub caller : Outcome Bytes
  caller = near_account_to_evm_address p.primitives p.crypto c.predecessor_account_id

  -- The functions that do not run the EVM.
  pub manage : Task → Machine → End
  manage to_new m = do
    only_owner_if_any m.state.owner_id m.state
    args ← expect (p.new_call_args.from_slice c.input)
    ok (record m { state = from_new_call_args args }, silent)
  manage (to_get_version version) m = ok (m, returning version)
  manage to_get_owner m = ok (m, returning m.state.owner_id)
  manage to_get_bridge_provider m = ok (m, returning m.state.bridge_prover_id)
  manage to_get_chain_id m = ok (m, returning m.state.chain_id)
  manage to_get_upgrade_index m = do
    index ← expect m.upgrade_block
    sum ← add_u64 index m.state.upgrade_delay_blocks
    ok (m, returning (le_bytes 8 sum))
  manage to_stage_upgrade m = do
    only_owner m.state
    ok (record m { upgrade = some c.input; upgrade_block = some c.block_index }, silent)
  manage to_deploy_upgrade m = do
    index ← expect m.upgrade_block
    sum ← add_u64 index m.state.upgrade_delay_blocks
    if leb c.block_index sum then panic too_early else deploys m.upgrade m
  manage to_begin_chain m = do
    only_owner m.state
    args ← expect (p.begin_chain_args.from_slice c.input)
    ok (record m { state = record m.state { chain_id = args.chain_id } }, silent)
  manage to_begin_block m = do
    only_owner m.state
    _ ← expect (p.begin_block_args.from_slice c.input)
    ok (m, silent)
  manage to_get_code m = do
    address ← fill_buffer 20 c.input
    ok (m, returning (m.accounts address).code)
  manage to_get_balance m = do
    address ← fill_buffer 20 c.input
    ok (m, returning (p.to_big_endian (m.accounts address).balance))
  manage to_get_nonce m = do
    address ← fill_buffer 20 c.input
    ok (m, returning (p.to_big_endian (m.accounts address).nonce))
  manage to_get_storage_at m = do
    args ← expect (p.get_storage_at_args.from_slice c.input)
    ok (m, returning ((m.accounts args.address).cell args.key))

module _ (p : Platform) (c : Context) (a : Answers) where
  abbrev pub called : Engine → Bytes → Bytes → ℕ → Bytes → Machine → Ran
  called engine origin contract value input m = do
    e ← a.of_call engine origin contract value input
    ok (e.status, e.result, with_changes e m)

  abbrev pub created : Engine → Bytes → ℕ → Bytes → Machine → Ran
  created engine origin value input m = do
    address ← a.of_address engine origin
    e ← a.of_create engine origin value input
    ok (e.status, address, with_changes e m)

  -- A transaction without data to a contract would be a transfer of balance, and there is none.
  abbrev pub executed : Engine → Bytes → Option Bytes → ℕ → Bytes → Machine → Ran
  executed engine origin none value input m = created engine origin value input m
  executed engine origin (some to) value [] m = ok (fatal, [], m)
  executed engine origin (some to) value (b ∷ bs) m = called engine origin to value (b ∷ bs) m

  -- All functions.
  pub serve : Function → Machine → End
  unfolding manage near_erc712_domain parse_meta_call
  serve to_deploy_code m = do
    origin ← caller p c
    created (new_with_state p m.state origin) origin 0 c.input m >>= ends_run
  serve to_call m = do
    args ← expect (p.function_call_args.from_slice c.input)
    origin ← caller p c
    called (new_with_state p m.state origin) origin args.contract 0 args.input m >>= ends_run
  serve to_raw_call m = do
    signed ← expect (decode p.rlp c.input)
    check_chain p (chain_id signed) m.state
    found ← sender p.primitives p.crypto p.rlp signed
    signer ← signer_of found
    let t = signed.transaction
    executed (new_with_state p m.state signer) signer t.to t.value t.input m >>= ends_run
  serve to_meta_call m = do
    chain ← p.from_big_endian m.state.chain_id
    args ← or_panic (
        parse_meta_call p.primitives p.crypto p.meta p.meta_call_args
          (near_erc712_domain p.primitives p.crypto chain) c.current_account_id c.input)
    called (new_with_state p m.state args.sender) args.sender args.contract_address args.value
          args.input m
        >>= ends_run
  serve to_view m = do
    args ← expect (p.view_call_args.from_slice c.input)
    origin ← p.h160_from_slice args.sender
    contract ← p.h160_from_slice args.address
    value ← p.from_big_endian args.amount
    e ← a.of_call (new_with_state p m.state origin) origin contract value args.input
    ends e.status e.result m
  serve (task t) m = manage p c t m

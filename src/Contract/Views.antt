-- ===== src/Contract/Views.antt =====
-- The functions of src/lib.rs that read accounts, and the calls of contracts by NEAR accounts.
use aurora_engine.Prelude.{Outcome, ok, ◌>>=◌, expect}
use aurora_engine.Types.{u256_to_arr}
use aurora_engine.Platform.{Platform}
use aurora_engine.Sdk.{read_input, read_input_arr20, return_output}
use aurora_engine.Engine
use aurora_engine.Engine.Calls.{deploy_code_with_input, call_with_args, view_with_args}
use aurora_engine.Contract.{predecessor_address, process_exit_reason}

module _ (p : Platform) where
  open p use {World}

  unfoldable pub deploy_code : World → Outcome World
  deploy_code w = do
    let input = read_input p w
    origin ← predecessor_address p w
    engine ← Engine.new p origin w
    (status, address, w') ← deploy_code_with_input p engine input w
    process_exit_reason p status address w'

  unfoldable pub call : World → Outcome World
  call w = do
    args ← expect (p.function_call_args.from_slice (read_input p w))
    origin ← predecessor_address p w
    engine ← Engine.new p origin w
    (status, result, w') ← call_with_args p engine args w
    process_exit_reason p status result w'

  unfoldable pub view : World → Outcome World
  view w = do
    args ← expect (p.view_call_args.from_slice (read_input p w))
    sender ← p.h160_from_slice args.sender
    engine ← Engine.new p sender w
    (status, result) ← view_with_args p engine args w
    process_exit_reason p status result w

  unfoldable pub get_code : World → Outcome World
  get_code w = do
    address ← read_input_arr20 p w
    ok (return_output p (Engine.get_code p address w) w)

  unfoldable pub get_balance : World → Outcome World
  get_balance w = do
    address ← read_input_arr20 p w
    balance ← Engine.get_balance p address w
    ok (return_output p (u256_to_arr p.primitives balance) w)

  unfoldable pub get_nonce : World → Outcome World
  get_nonce w = do
    address ← read_input_arr20 p w
    nonce ← Engine.get_nonce p address w
    ok (return_output p (u256_to_arr p.primitives nonce) w)

  unfoldable pub get_storage_at : World → Outcome World
  get_storage_at w = do
    args ← expect (p.get_storage_at_args.from_slice (read_input p w))
    value ← Engine.get_storage p args.address args.key w
    ok (return_output p value w)

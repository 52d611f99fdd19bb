-- ===== src/Contract/Users.antt =====
-- The exported functions of src/lib.rs that anyone may call, as steps, and what no sequence of them
-- changes.
pub mod History
use mathlib.Core.Path.{subst}
use aurora_engine.Prelude.{
  ℕ, ◌≡◌, refl, ◌∙◌, ap, Option, none, some, [], ◌∷◌, true, Outcome, ok, ◌>>=◌, >>=-ok, ok_inj,
  expect, Bytes,
}
use aurora_engine.Storage.Keys.{Slot, engine_state}
use aurora_engine.Evm.{ExitReason}
use aurora_engine.Platform.{Platform}
use aurora_engine.Sdk.{read_input, read_input_arr20, return_output}
use aurora_engine.Engine
use aurora_engine.Engine.Slots.{content}
use aurora_engine.Engine.ApplyBackend.Frame.{Keeps, Keeps-refl, Keeps-trans, is_global}
use aurora_engine.Engine.Calls.Keeps.{call-Keeps, deploy_code-Keeps}
use aurora_engine.Engine.Calls.{deploy_code_with_input, call_with_args, view_with_args}
use aurora_engine.Contract.{predecessor_address, process_exit_reason}
use aurora_engine.Contract.Views.{
  deploy_code, call, view, get_code, get_balance, get_nonce, get_storage_at,
}
use aurora_engine.Contract.Meta.{meta_call, meta_call-HasRunSigned, process_exit_reason-ok}
use aurora_engine.Contract.Raw.{raw_call, execute}
use aurora_engine.Contract.Raw.Signer.{raw_call-HasRunTransaction}

module _ (p : Platform) where
  open p use {World}

  -- A call that has not panicked.
  pub data UserStep (w w' : World) : Type 0 where
    by_deploy_code : deploy_code p w ≡ ok w' → UserStep w w'
    by_call : call p w ≡ ok w' → UserStep w w'
    by_raw_call : raw_call p w ≡ ok w' → UserStep w w'
    by_meta_call : meta_call p w ≡ ok w' → UserStep w w'
    by_view : view p w ≡ ok w' → UserStep w w'
    by_get_code : get_code p w ≡ ok w' → UserStep w w'
    by_get_balance : get_balance p w ≡ ok w' → UserStep w w'
    by_get_nonce : get_nonce p w ≡ ok w' → UserStep w w'
    by_get_storage_at : get_storage_at p w ≡ ok w' → UserStep w w'

  return_output-Keeps : (result : Bytes) (w : World) → Keeps p w (return_output p result w)
  return_output-Keeps result w = record {
    globals = λ s h. p.read-value_return w result _;
    same_context = p.context-value_return w result;
    same_deployed = p.deployed-value_return w result;
  }

  exit-Keeps :
      (v w : World) (status : ExitReason) (result : Bytes) {w' : World}
      → Keeps p v w
      → process_exit_reason p status result w ≡ ok w'
      → Keeps p v w'
  exit-Keeps v w status result k e = Keeps-trans p k (
      subst (Keeps p w) (process_exit_reason-ok p status result w e).1
        (return_output-Keeps result w))

  execute-Keeps :
      (engine : Engine.Engine) (signer : Bytes) (to : Option Bytes) (value : ℕ) (input : Bytes)
      (w : World) {r : ExitReason × Bytes × World}
      → execute p engine signer to value input w ≡ ok r
      → Keeps p w r.2
  unfolding execute
  execute-Keeps engine signer none value input w e =
      deploy_code-Keeps p engine signer value input w e
  execute-Keeps engine signer (some a) value [] w {r} e = subst (Keeps p w) (cc e) (Keeps-refl p w)
  execute-Keeps engine signer (some a) value (b ∷ bs) w e =
      call-Keeps p engine signer a value (b ∷ bs) w e

  pub UserStep-Keeps : (w : World) {w' : World} → UserStep w w' → Keeps p w w'
  unfolding deploy_code call view get_code get_balance get_nonce get_storage_at
  UserStep-Keeps w (by_deploy_code e) =
      let (origin, _, e1) = >>=-ok (predecessor_address p w) _ e in
      let (engine, _, e2) = >>=-ok (Engine.new p origin w) _ e1 in
      let ((status, address, after), ran, e3) =
        >>=-ok (deploy_code_with_input p engine (read_input p w) w) _ e2 in
      exit-Keeps w after status address
        (deploy_code-Keeps p engine engine.origin 0 (read_input p w) w ran) e3
  UserStep-Keeps w (by_call e) =
      let (args, _, e1) = >>=-ok (expect (p.function_call_args.from_slice (read_input p w))) _ e in
      let (origin, _, e2) = >>=-ok (predecessor_address p w) _ e1 in
      let (engine, _, e3) = >>=-ok (Engine.new p origin w) _ e2 in
      let ((status, result, after), ran, e4) = >>=-ok (call_with_args p engine args w) _ e3 in
      exit-Keeps w after status result
        (call-Keeps p engine engine.origin args.contract 0 args.input w ran) e4
  UserStep-Keeps w {w'} (by_raw_call e) =
      let h = raw_call-HasRunTransaction p w e in
      Keeps-trans p (execute-Keeps _ _ _ _ _ w h.run)
        (subst (Keeps p h.after) h.returned (return_output-Keeps h.result h.after))
  UserStep-Keeps w {w'} (by_meta_call e) =
      let h = meta_call-HasRunSigned p w e in
      Keeps-trans p (call-Keeps p _ _ _ _ _ w h.run)
        (subst (Keeps p h.after) h.returned (return_output-Keeps h.result h.after))
  UserStep-Keeps w (by_view e) =
      let (args, _, e1) = >>=-ok (expect (p.view_call_args.from_slice (read_input p w))) _ e in
      let (sender, _, e2) = >>=-ok (p.h160_from_slice args.sender) _ e1 in
      let (engine, _, e3) = >>=-ok (Engine.new p sender w) _ e2 in
      let ((status, result), _, e4) = >>=-ok (view_with_args p engine args w) _ e3 in
      exit-Keeps w w status result (Keeps-refl p w) e4
  UserStep-Keeps w (by_get_code e) =
      let (address, _, e1) = >>=-ok (read_input_arr20 p w) _ e in
      subst (Keeps p w) (ok_inj e1) (return_output-Keeps _ w)
  UserStep-Keeps w (by_get_balance e) =
      let (address, _, e1) = >>=-ok (read_input_arr20 p w) _ e in
      let (balance, _, e2) = >>=-ok (Engine.get_balance p address w) _ e1 in
      subst (Keeps p w) (ok_inj e2) (return_output-Keeps _ w)
  UserStep-Keeps w (by_get_nonce e) =
      let (address, _, e1) = >>=-ok (read_input_arr20 p w) _ e in
      let (nonce, _, e2) = >>=-ok (Engine.get_nonce p address w) _ e1 in
      subst (Keeps p w) (ok_inj e2) (return_output-Keeps _ w)
  UserStep-Keeps w (by_get_storage_at e) =
      let (args, _, e1) = >>=-ok (expect (p.get_storage_at_args.from_slice (read_input p w))) _ e in
      let (value, _, e2) = >>=-ok (Engine.get_storage p args.address args.key w) _ e1 in
      subst (Keeps p w) (ok_inj e2) (return_output-Keeps _ w)

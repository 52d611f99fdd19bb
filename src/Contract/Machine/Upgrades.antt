-- ===== src/Contract/Machine/Upgrades.antt =====
-- The machine's functions that run the EVM do not touch a staged upgrade.
use mathlib.Core.Path.{subst}
use aurora_engine.Prelude.{
  ◌≢◌, ℕ, ◌≡◌, refl, sym, ◌∙◌, ap, Option, none, some, [], ◌∷◌, ok, ◌>>=◌, >>=-ok, ok_inj, expect,
  Bytes,
}
use aurora_engine.Types.{bytes_to_hex}
use aurora_engine.Evm.{ExitReason, succeed, revert, error, fatal, Execution}
use aurora_engine.Host.{Context}
use aurora_engine.Platform.{Platform}
use aurora_engine.Engine.{Engine, new_with_state}
use aurora_engine.Contract.Raw.{check_chain, signer_of}
use aurora_engine.Contract.Meta.{or_panic}
use aurora_engine.Transaction.{chain_id, sender}
use aurora_engine.Transaction.Decoding.{decode}
use aurora_engine.MetaParsing.Hashing.{near_erc712_domain}
use aurora_engine.MetaParsing.MetaCall.{parse_meta_call}
use aurora_engine.Contract.Machine.{
  Task, Function, task, to_deploy_code, to_call, to_raw_call, to_meta_call, to_view, Machine,
  Effect, Answers, End, Ran, caller, serve, ends, ends_run, called, created, executed, with_changes,
}

-- A machine with this upgrade.
pub record SameUpgrade (m m' : Machine) : Type 0 where
  pub code : m'.upgrade ≡ m.upgrade
  pub block : m'.upgrade_block ≡ m.upgrade_block

pub SameUpgrade-refl : (m : Machine) → SameUpgrade m m
SameUpgrade-refl m = record { code = refl; block = refl }

abbrev pub finished : Machine → Effect → End
finished m e = ok (m, e)

pub end_of : {m n : Machine} {d e : Effect} → finished m d ≡ finished n e → m ≡ n
end_of h = ap (λ t. t.0) (ok_inj h)

pub SameUpgrade-end :
    {k m n : Machine} {d e : Effect}
    → SameUpgrade k m
    → finished m d ≡ finished n e
    → SameUpgrade k n
SameUpgrade-end s h = record {
  code = ap (λ x. x.upgrade) (sym (end_of h)) ∙ s.code;
  block = ap (λ x. x.upgrade_block) (sym (end_of h)) ∙ s.block;
}

ends-SameUpgrade :
    (k : Machine) (status : ExitReason) (result : Bytes) (m : Machine) {n : Machine} {e : Effect}
    → SameUpgrade k m
    → ends status result m ≡ finished n e
    → SameUpgrade k n
ends-SameUpgrade k succeed result m s h = SameUpgrade-end s h
ends-SameUpgrade k revert result m s h = cc (>>=-ok (bytes_to_hex result) _ h).2
ends-SameUpgrade k error result m s h = cc h
ends-SameUpgrade k fatal result m s h = cc h

-- What a run leaves to be ended.
abbrev KeepsUpgrade : Machine → Ran → Type 0
KeepsUpgrade m ran =
    (status : ExitReason) (result : Bytes) (after : Machine)
    → ran ≡ ok (status, result, after)
    → SameUpgrade m after

run-SameUpgrade :
    (m : Machine) (ran : Ran) {n : Machine} {e : Effect}
    → KeepsUpgrade m ran
    → (ran >>= ends_run) ≡ finished n e
    → SameUpgrade m n
run-SameUpgrade m ran k h =
    let ((status, result, after), e1, h1) = >>=-ok ran _ h in
    ends-SameUpgrade m status result after (k status result after e1) h1

abbrev ended : ExitReason → Bytes → Machine → Ran
ended status result m = ok (status, result, m)

with_changes-SameUpgrade :
    (x : Execution) (m : Machine) {status status_there : ExitReason} {result result_there : Bytes}
    {n : Machine}
    → ended status result (with_changes x m) ≡ ended status_there result_there n
    → SameUpgrade m n
with_changes-SameUpgrade x m {n} h =
    let same : with_changes x m ≡ n = cc h in
    subst (SameUpgrade m) same (record { code = refl; block = refl })

module _ (p : Platform) (c : Context) (a : Answers) (m : Machine) where
  called-KeepsUpgrade :
      (engine : Engine) (origin contract : Bytes) (value : ℕ) (input : Bytes)
      → KeepsUpgrade m (called p c a engine origin contract value input m)
  called-KeepsUpgrade engine origin contract value input status result after h =
      let (x, ran, h1) = >>=-ok (a.of_call engine origin contract value input) _ h in
      with_changes-SameUpgrade x m h1

  created-KeepsUpgrade :
      (engine : Engine) (origin : Bytes) (value : ℕ) (input : Bytes)
      → KeepsUpgrade m (created p c a engine origin value input m)
  created-KeepsUpgrade engine origin value input status result after h =
      let (address, made, h1) = >>=-ok (a.of_address engine origin) _ h in
      let (x, ran, h2) = >>=-ok (a.of_create engine origin value input) _ h1 in
      with_changes-SameUpgrade x m h2

  executed-KeepsUpgrade :
      (engine : Engine) (origin : Bytes) (to : Option Bytes) (value : ℕ) (input : Bytes)
      → KeepsUpgrade m (executed p c a engine origin to value input m)
  executed-KeepsUpgrade engine origin none value input status result after h =
      created-KeepsUpgrade engine origin value input status result after h
  executed-KeepsUpgrade engine origin (some to) value [] status result after h =
      let same : m ≡ after = cc h in subst (SameUpgrade m) same (SameUpgrade-refl m)
  executed-KeepsUpgrade engine origin (some to) value (b ∷ bs) status result after h =
      called-KeepsUpgrade engine origin to value (b ∷ bs) status result after h

  -- No function that runs the EVM touches an upgrade.
  pub serve-SameUpgrade :
      (f : Function) {n : Machine} {e : Effect}
      → ((t : Task) → f ≢ task t)
      → serve p c a f m ≡ finished n e
      → SameUpgrade m n
  unfolding serve
  serve-SameUpgrade (task t) other h = absurd (other t refl)
  serve-SameUpgrade to_deploy_code other h =
      let (origin, _, h1) = >>=-ok (caller p c) _ h in
      run-SameUpgrade m _ (created-KeepsUpgrade (new_with_state p m.state origin) origin 0 c.input)
        h1
  serve-SameUpgrade to_call other h =
      let (args, _, h1) = >>=-ok (expect (p.function_call_args.from_slice c.input)) _ h in
      let (origin, _, h2) = >>=-ok (caller p c) _ h1 in
      run-SameUpgrade m _
        (called-KeepsUpgrade (new_with_state p m.state origin) origin args.contract 0 args.input) h2
  serve-SameUpgrade to_raw_call other h =
      let (signed, _, h1) = >>=-ok (expect (decode p.rlp c.input)) _ h in
      let (_, _, h2) = >>=-ok (check_chain p (chain_id signed) m.state) _ h1 in
      let (found, _, h3) = >>=-ok (sender p.primitives p.crypto p.rlp signed) _ h2 in
      let (signer, _, h4) = >>=-ok (signer_of found) _ h3 in
      let t = signed.transaction in
      run-SameUpgrade m _
        (executed-KeepsUpgrade (new_with_state p m.state signer) signer t.to t.value t.input) h4
  serve-SameUpgrade to_meta_call other h =
      let (chain, _, h1) = >>=-ok (p.from_big_endian m.state.chain_id) _ h in
      let (args, _, h2) =
        >>=-ok
          (or_panic (
            parse_meta_call p.primitives p.crypto p.meta p.meta_call_args
              (near_erc712_domain p.primitives p.crypto chain) c.current_account_id c.input))
          _ h1 in
      run-SameUpgrade m _
        (called-KeepsUpgrade (new_with_state p m.state args.sender) args.sender
          args.contract_address args.value args.input)
        h2
  serve-SameUpgrade to_view other h =
      let (args, _, h1) = >>=-ok (expect (p.view_call_args.from_slice c.input)) _ h in
      let (origin, _, h2) = >>=-ok (p.h160_from_slice args.sender) _ h1 in
      let (contract, _, h3) = >>=-ok (p.h160_from_slice args.address) _ h2 in
      let (value, _, h4) = >>=-ok (p.from_big_endian args.amount) _ h3 in
      let (x, _, h5) =
        >>=-ok (a.of_call (new_with_state p m.state origin) origin contract value args.input) _
          h4 in
      ends-SameUpgrade m x.status x.result m (SameUpgrade-refl m) h5

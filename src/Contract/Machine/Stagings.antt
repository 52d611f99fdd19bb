-- ===== src/Contract/Machine/Stagings.antt =====
-- What each function of the machine does to a staged upgrade.
use aurora_engine.Prelude.{
  ℕ, ◌≡◌, ◌<◌, ◌+◌, refl, sym, ap, Option, none, some, ok, panic, >>=-ok, ok_inj, expect, expect-ok,
  Bytes, bytes_eq_iff, leb, if◌then◌else◌, arith, inl, inr, Bool-cases,
}
use aurora_engine.Parameters.{EngineState}
use aurora_engine.Host.{Context}
use aurora_engine.Platform.{Platform}
use aurora_engine.Sdk.{fill_buffer}
use aurora_engine.Contract.{add_u64}
use aurora_engine.Contract.Admin.Upgrade.{too_early}
use aurora_engine.Contract.Machine.{
  Task, Function, task, to_new, to_get_version, to_get_owner, to_get_bridge_provider,
  to_get_chain_id, to_get_upgrade_index, to_stage_upgrade, to_deploy_upgrade, to_begin_chain,
  to_begin_block, to_get_code, to_get_balance, to_get_nonce, to_get_storage_at, Machine, Effect,
  deploying, Answers, only_owner, only_owner_if_any, manage, serve, deploys,
}
use aurora_engine.Contract.Machine.Upgrades.{
  SameUpgrade, SameUpgrade-end, finished, end_of, serve-SameUpgrade,
}

-- What one call does to a staged upgrade: nothing, or the owner has staged its input, or its
-- code is taken away.
pub data UpgradeChange (c : Context) (f : Function) (m m' : Machine) : Type 0 where
  kept : SameUpgrade m m' → UpgradeChange c f m m'
  staged :
      f ≡ task to_stage_upgrade
      → m.state.owner_id ≡ c.predecessor_account_id
      → m'.upgrade ≡ some c.input
      → m'.upgrade_block ≡ some c.block_index
      → UpgradeChange c f m m'
  gone : m'.upgrade ≡ none → UpgradeChange c f m m'

-- What a deployment has met.
pub record HasDeployed (c : Context) (m m' : Machine) (effect : Effect) : Type 0 where
  pub code : Bytes
  pub block : ℕ
  pub was_staged : m.upgrade ≡ some code
  pub was_staged_at : m.upgrade_block ≡ some block
  pub late : block + m.state.upgrade_delay_blocks < c.block_index
  pub taken : m'.upgrade ≡ none
  pub effect_is : effect ≡ deploying code

only_owner-ok :
    (p : Platform) (c : Context) (state : EngineState) {u : Unit}
    → only_owner p c state ≡ ok u
    → state.owner_id ≡ c.predecessor_account_id
only_owner-ok p c state h = ground (arith, bytes_eq_iff state.owner_id c.predecessor_account_id)

module _ (p : Platform) (c : Context) (m : Machine) where
  deploys-HasDeployed :
      (o : Option Bytes) (block : ℕ) {n : Machine} {e : Effect}
      → m.upgrade ≡ o
      → m.upgrade_block ≡ some block
      → block + m.state.upgrade_delay_blocks < c.block_index
      → deploys o m ≡ finished n e
      → HasDeployed c m n e
  deploys-HasDeployed none block is at late h = cc h
  deploys-HasDeployed (some code) block is at late h = record {
    code = code;
    block = block;
    was_staged = is;
    was_staged_at = at;
    late = late;
    taken = ap (λ x. x.upgrade) (sym (end_of h));
    effect_is = sym (ap (λ t. t.1) (ok_inj h));
  }

  past_delay :
      (sum : ℕ) {n : Machine} {e : Effect}
      → (if leb c.block_index sum then panic too_early else deploys m.upgrade m) ≡ finished n e
      → (sum < c.block_index) × (deploys m.upgrade m ≡ finished n e)
  past_delay sum h = elim (Bool-cases (leb c.block_index sum)) [
    | inl early ↦ cc (early, h)
    | inr late ↦ (ground arith, rw late at h)
  ]

  pub manage-HasDeployed :
      {n : Machine} {e : Effect}
      → manage p c to_deploy_upgrade m ≡ finished n e
      → HasDeployed c m n e
  unfolding manage
  manage-HasDeployed h =
      let (index, e1, h1) = >>=-ok (expect m.upgrade_block) _ h in
      let (sum, e2, h2) = >>=-ok (add_u64 index m.state.upgrade_delay_blocks) _ h1 in
      let (late, done) = past_delay sum h2 in
      let is_sum : sum ≡ index + m.state.upgrade_delay_blocks = ground arith in
      deploys-HasDeployed m.upgrade index refl (expect-ok m.upgrade_block e1) (omega arith) done

  keeps :
      (f : Function) {n n' : Machine} {e e' : Effect}
      → n.upgrade ≡ m.upgrade
      → n.upgrade_block ≡ m.upgrade_block
      → finished n e ≡ finished n' e'
      → UpgradeChange c f m n'
  keeps f code block h = kept (SameUpgrade-end (record { code = code; block = block }) h)

  manage-UpgradeChange :
      (t : Task) {n : Machine} {e : Effect}
      → manage p c t m ≡ finished n e
      → UpgradeChange c (task t) m n
  unfolding manage
  manage-UpgradeChange to_new h =
      let (_, _, h1) = >>=-ok (only_owner_if_any p c m.state.owner_id m.state) _ h in
      let (args, _, h2) = >>=-ok (expect (p.new_call_args.from_slice c.input)) _ h1 in
      keeps _ refl refl h2
  manage-UpgradeChange (to_get_version version) h = keeps _ refl refl h
  manage-UpgradeChange to_get_owner h = keeps _ refl refl h
  manage-UpgradeChange to_get_bridge_provider h = keeps _ refl refl h
  manage-UpgradeChange to_get_chain_id h = keeps _ refl refl h
  manage-UpgradeChange to_get_upgrade_index h =
      let (index, e1, h1) = >>=-ok (expect m.upgrade_block) _ h in
      let (sum, e2, h2) = >>=-ok (add_u64 index m.state.upgrade_delay_blocks) _ h1 in
      keeps _ refl refl h2
  manage-UpgradeChange to_stage_upgrade h =
      let (_, owner, h1) = >>=-ok (only_owner p c m.state) _ h in
      staged refl (only_owner-ok p c m.state owner) (ap (λ x. x.upgrade) (sym (end_of h1)))
        (ap (λ x. x.upgrade_block) (sym (end_of h1)))
  manage-UpgradeChange to_deploy_upgrade h = let d = manage-HasDeployed h in gone d.taken
  manage-UpgradeChange to_begin_chain h =
      let (_, _, h1) = >>=-ok (only_owner p c m.state) _ h in
      let (args, _, h2) = >>=-ok (expect (p.begin_chain_args.from_slice c.input)) _ h1 in
      keeps _ refl refl h2
  manage-UpgradeChange to_begin_block h =
      let (_, _, h1) = >>=-ok (only_owner p c m.state) _ h in
      let (args, _, h2) = >>=-ok (expect (p.begin_block_args.from_slice c.input)) _ h1 in
      keeps _ refl refl h2
  manage-UpgradeChange to_get_code h =
      let (_, _, h1) = >>=-ok (fill_buffer 20 c.input) _ h in keeps _ refl refl h1
  manage-UpgradeChange to_get_balance h =
      let (_, _, h1) = >>=-ok (fill_buffer 20 c.input) _ h in keeps _ refl refl h1
  manage-UpgradeChange to_get_nonce h =
      let (_, _, h1) = >>=-ok (fill_buffer 20 c.input) _ h in keeps _ refl refl h1
  manage-UpgradeChange to_get_storage_at h =
      let (args, _, h2) = >>=-ok (expect (p.get_storage_at_args.from_slice c.input)) _ h in
      keeps _ refl refl h2

  pub serve-UpgradeChange :
      (f : Function) (a : Answers) {n : Machine} {e : Effect}
      → serve p c a f m ≡ finished n e
      → UpgradeChange c f m n
  unfolding serve
  serve-UpgradeChange (task t) a h = manage-UpgradeChange t h
  serve-UpgradeChange f a h = kept (serve-SameUpgrade p c a m f (λ t. cc) h)

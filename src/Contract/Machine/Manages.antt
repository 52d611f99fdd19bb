-- ===== src/Contract/Machine/Manages.antt =====
-- The functions of src/lib.rs that do not run the EVM do what the machine does.
use aurora_engine.Prelude.{
  ℕ, ◌<◌, ◌≡◌, refl, Option, some, [], ◌∷◌, Bool, true, false, Outcome, ok, panic, ◌>>=◌, ◌>>◌,
  expect, expect-ok, Bytes, arith, leb, le_bytes, if◌then◌else◌, length, length-append,
  length-replicate, replicate, ◌-◌, Related-then,
}
use aurora_engine.Packages.{IsAddress, u64_mod}
use aurora_engine.Parameters.{EngineState, from_new_call_args}
use aurora_engine.Storage.{code_key}
use aurora_engine.Platform.{Platform}
use aurora_engine.Engine.{set_state}
use aurora_engine.Sdk.{fill_buffer, block_index, self_deploy}
use aurora_engine.Contract.{add_u64, require_owner_only}
use aurora_engine.Contract.Admin.{
  require_owner_if_any, new, get_version, get_owner, get_bridge_provider, get_chain_id,
  get_upgrade_index, stage_upgrade, deploy_upgrade, begin_chain, begin_block,
}
use aurora_engine.Contract.Admin.Upgrade.{too_early}
use aurora_engine.Contract.Views.{get_code, get_balance, get_nonce, get_storage_at}
use aurora_engine.Contract.Machine.{
  Task, to_new, to_get_version, to_get_owner, to_get_bridge_provider, to_get_chain_id,
  to_get_upgrade_index, to_stage_upgrade, to_deploy_upgrade, to_begin_chain, to_begin_block,
  to_get_code, to_get_balance, to_get_nonce, to_get_storage_at, Machine, End, manage, deploys,
  silent, only_owner, only_owner_if_any,
}
use aurora_engine.Contract.Machine.Models.{Models}
use aurora_engine.Contract.Machine.Globals.{
  Matches, Simulates, returned-Matches, set_state-Matches, staged-Matches, deploy_removed-deploys,
}

-- A buffer of 20 bytes holds an address.
fill_buffer-IsAddress : (input : Bytes) {a : Bytes} → fill_buffer 20 input ≡ ok a → IsAddress a
fill_buffer-IsAddress input {a} e = ground (
  arith,
  length-append input (replicate {A = ℕ} (20 - length input) 0),
  length-replicate {A = ℕ} (20 - length input) 0,
)

module _ (p : Platform) where
  open p use {World}

  -- The function of the contract.
  unfoldable pub run_task : Task → World → Outcome World
  run_task to_new w = new p w
  run_task (to_get_version version) w = get_version p version w
  run_task to_get_owner w = get_owner p w
  run_task to_get_bridge_provider w = get_bridge_provider p w
  run_task to_get_chain_id w = get_chain_id p w
  run_task to_get_upgrade_index w = get_upgrade_index p w
  run_task to_stage_upgrade w = stage_upgrade p w
  run_task to_deploy_upgrade w = deploy_upgrade p w
  run_task to_begin_chain w = begin_chain p w
  run_task to_begin_block w = begin_block p w
  run_task to_get_code w = get_code p w
  run_task to_get_balance w = get_balance p w
  run_task to_get_nonce w = get_nonce p w
  run_task to_get_storage_at w = get_storage_at p w

  module _ (w : World) (m : Machine) (r : Models p w m) where
    guarded :
        (guard : Outcome (Unit {0})) (run : Outcome World) (end : End)
        → Simulates p w run end
        → Simulates p w (guard >> run) (guard >> end)
    guarded guard run end h = Related-then (Matches p w) guard (λ u. run) (λ u. end) (λ u passed. h)

    pub with_args :
        {A : Type 0} (o : Option A) (run : A → Outcome World) (end : A → End)
        → ((args : A) → o ≡ some args → Simulates p w (run args) (end args))
        → Simulates p w (expect o >>= run) (expect o >>= end)
    with_args o run end h =
        Related-then (Matches p w) (expect o) run end (λ args read. h args (expect-ok o read))

    new_args :
        Simulates p w
          (expect (p.new_call_args.from_slice (p.context w).input) >>= λ args.
            ok (set_state p (from_new_call_args args) w))
          (expect (p.new_call_args.from_slice (p.context w).input) >>= λ args.
            ok (record m { state = from_new_call_args args }, silent))
    new_args = with_args (p.new_call_args.from_slice (p.context w).input) _ _ (λ args read.
        let valid = p.new_call_args.from_slice-IsValue _ read in
        set_state-Matches p w m r (from_new_call_args args)
          (record { chain_id_word = valid.chain_id_word; delay_u64 = valid.delay_u64 }))

    owner_if_any :
        (owner : Bytes) (state : EngineState) (run : Outcome World) (end : End)
        → Simulates p w run end
        → Simulates p w
            (require_owner_if_any p owner state w >> run)
            (only_owner_if_any p (p.context w) owner state >> end)
    unfolding require_owner_only
    owner_if_any [] state run end h = h
    owner_if_any (c ∷ cs) state run end h = guarded (only_owner p (p.context w) state) run end h

    new-manage : Simulates p w (new p w) (manage p (p.context w) to_new m)
    unfolding new manage
    new-manage = rw (r.state) (owner_if_any m.state.owner_id m.state _ _ new_args)

    get_upgrade_index-manage :
        Simulates p w (get_upgrade_index p w) (manage p (p.context w) to_get_upgrade_index m)
    unfolding get_upgrade_index manage
    get_upgrade_index-manage =
        rw (r.state, r.upgrade_block)
          (Related-then (Matches p w) (expect m.upgrade_block) _ _ (λ index _.
            Related-then (Matches p w) (add_u64 index m.state.upgrade_delay_blocks) _ _
              (λ sum _. returned-Matches p w (le_bytes 8 sum) r)))

    deploy_upgrade-manage :
        Simulates p w (deploy_upgrade p w) (manage p (p.context w) to_deploy_upgrade m)
    unfolding deploy_upgrade manage
    deploy_upgrade-manage =
        rw (r.state, r.upgrade_block)
          (Related-then (Matches p w) (expect m.upgrade_block) _ _ (λ index _.
            Related-then (Matches p w) (add_u64 index m.state.upgrade_delay_blocks) _ _
              (λ sum _. after_delay (leb (block_index p w) sum))))
      where
        after_delay :
            (early : Bool)
            → Simulates p w
                (if early then panic too_early else self_deploy p code_key w)
                (if early then panic too_early else deploys m.upgrade m)
        after_delay true = refl
        after_delay false =
            simp (← r.upgrade) (deploy_removed-deploys p w m r (p.storage_read w code_key))

    stage_upgrade-manage :
        block_index p w < u64_mod
        → Simulates p w (stage_upgrade p w) (manage p (p.context w) to_stage_upgrade m)
    unfolding stage_upgrade manage require_owner_only
    stage_upgrade-manage small =
        rw (r.state) (
          guarded (only_owner p (p.context w) m.state) (ok _) (ok _) (staged-Matches p w m r small))

    begin_chain-manage : Simulates p w (begin_chain p w) (manage p (p.context w) to_begin_chain m)
    unfolding begin_chain manage require_owner_only
    begin_chain-manage = rw (r.state) (
        guarded (only_owner p (p.context w) m.state) _ _ (
          with_args (p.begin_chain_args.from_slice (p.context w).input)
            (λ args. ok (set_state p (record m.state { chain_id = args.chain_id }) w))
            (λ args. ok (record m { state = record m.state { chain_id = args.chain_id } }, silent))
            (λ args read.
              let valid = p.begin_chain_args.from_slice-IsValue _ read in
              set_state-Matches p w m r (record m.state { chain_id = args.chain_id })
                (record {
                  chain_id_word = valid.chain_id_word;
                  delay_u64 = r.state_valid.delay_u64;
                }))))

    begin_block-manage : Simulates p w (begin_block p w) (manage p (p.context w) to_begin_block m)
    unfolding begin_block manage require_owner_only
    begin_block-manage = rw (r.state) (
        guarded (only_owner p (p.context w) m.state) _ _ (
          with_args (p.begin_block_args.from_slice (p.context w).input) (λ args. ok w)
            (λ args. ok (m, silent)) (λ args read. (r, refl))))

    at_address :
        (run : Bytes → Outcome World) (end : Bytes → End)
        → ((a : Bytes) → IsAddress a → Simulates p w (run a) (end a))
        → Simulates p w
            (fill_buffer 20 (p.context w).input >>= run)
            (fill_buffer 20 (p.context w).input >>= end)
    at_address run end h =
        Related-then (Matches p w) (fill_buffer 20 (p.context w).input) run end
          (λ a e. h a (fill_buffer-IsAddress _ e))

    get_code-manage : Simulates p w (get_code p w) (manage p (p.context w) to_get_code m)
    unfolding get_code manage
    get_code-manage = at_address _ _ (λ a h. rw (r.accounts.codes a h) (returned-Matches p w _ r))

    get_balance-manage : Simulates p w (get_balance p w) (manage p (p.context w) to_get_balance m)
    unfolding get_balance manage
    get_balance-manage =
        at_address _ _ (λ a h. rw (r.accounts.balances a h) (returned-Matches p w _ r))

    get_nonce-manage : Simulates p w (get_nonce p w) (manage p (p.context w) to_get_nonce m)
    unfolding get_nonce manage
    get_nonce-manage = at_address _ _ (λ a h. rw (r.accounts.nonces a h) (returned-Matches p w _ r))

    get_storage_at-manage :
        Simulates p w (get_storage_at p w) (manage p (p.context w) to_get_storage_at m)
    unfolding get_storage_at manage
    get_storage_at-manage =
        with_args (p.get_storage_at_args.from_slice (p.context w).input) _ _ (λ args read.
          let valid = p.get_storage_at_args.from_slice-IsValue _ read in
          rw (r.accounts.cells args.address args.key valid.address_address valid.key_word)
            (returned-Matches p w _ r))

  -- Every function that does not run the EVM.
  pub run_task-manage :
      (t : Task) (w : World) (m : Machine)
      → Models p w m
      → block_index p w < u64_mod
      → Simulates p w (run_task t w) (manage p (p.context w) t m)
  unfolding run_task manage get_version get_owner get_bridge_provider get_chain_id
  run_task-manage to_new w m r small = new-manage w m r
  run_task-manage (to_get_version version) w m r small = returned-Matches p w version r
  run_task-manage to_get_owner w m r small = rw (r.state) (returned-Matches p w _ r)
  run_task-manage to_get_bridge_provider w m r small = rw (r.state) (returned-Matches p w _ r)
  run_task-manage to_get_chain_id w m r small = rw (r.state) (returned-Matches p w _ r)
  run_task-manage to_get_upgrade_index w m r small = get_upgrade_index-manage w m r
  run_task-manage to_stage_upgrade w m r small = stage_upgrade-manage w m r small
  run_task-manage to_deploy_upgrade w m r small = deploy_upgrade-manage w m r
  run_task-manage to_begin_chain w m r small = begin_chain-manage w m r
  run_task-manage to_begin_block w m r small = begin_block-manage w m r
  run_task-manage to_get_code w m r small = get_code-manage w m r
  run_task-manage to_get_balance w m r small = get_balance-manage w m r
  run_task-manage to_get_nonce w m r small = get_nonce-manage w m r
  run_task-manage to_get_storage_at w m r small = get_storage_at-manage w m r

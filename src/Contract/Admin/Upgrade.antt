-- ===== src/Contract/Admin/Upgrade.antt =====
-- Staging and deploying new code, src/lib.rs.
use mathlib.Core.Path.{subst}
use aurora_engine.Prelude.{
  ℕ, ◌+◌, ◌<◌, ◌≡◌, refl, ◌∙◌, ap, some, Panic, Outcome, ok, panic, panic_utf8, abort, >>=-ok,
  Bytes, codes, arith, leb, if◌then◌else◌, le_bytes, le_value-le_bytes, length-le_bytes, append-nil,
}
use aurora_engine.Packages.{u64_mod}
use aurora_engine.Parameters.{EngineState}
use aurora_engine.Storage.{code_key, code_stage_key}
use aurora_engine.Storage.Keys.{staged_code, staged_at}
use aurora_engine.Host.{Context}
use aurora_engine.Platform.{Platform}
use aurora_engine.Sdk.{read_input, block_index, current_account_id, u64_of}
use aurora_engine.Engine.{get_state}
use aurora_engine.Engine.Slots.{content, content-write}
use aurora_engine.Contract.{require_owner_only}
use aurora_engine.Contract.Admin.{stage_upgrade, deploy_upgrade}

abbrev pub too_early : Panic
too_early = panic_utf8 (codes "ERR_NOT_ALLOWED:TOO_EARLY")

-- A number that was stored in 8 bytes is read back.
pub u64_of-le_bytes : (n : ℕ) → n < u64_mod → u64_of (some (le_bytes 8 n)) ≡ ok (some n)
u64_of-le_bytes n h = rw (length-le_bytes 8 n, append-nil, le_value-le_bytes 8 n h) refl

module _ (p : Platform) where
  open p use {World, storage_remove, deploy_contract}

  -- What a staging leaves in storage.
  record Staged (w w' : World) : Type 0 where
    code : content p w' staged_code ≡ some (read_input p w)
    at : content p w' staged_at ≡ some (le_bytes 8 (block_index p w))

  stage_upgrade-Staged : (w : World) {w' : World} → stage_upgrade p w ≡ ok w' → Staged w w'
  unfolding stage_upgrade
  stage_upgrade-Staged w {w'} h =
      let (state, _, h1) = >>=-ok (get_state p w) _ h in
      let (_, _, done) = >>=-ok (require_owner_only p state w) _ h1 in
      let stored = p.storage_write w code_key (read_input p w) in
      let result : p.storage_write stored code_stage_key (le_bytes 8 (block_index p stored)) ≡ w' =
        cc done in
      subst (Staged w) result (record {
        code =
            content-write p stored staged_at staged_code tt tt _
            ∙ content-write p w staged_code staged_code tt tt (read_input p w);
        at =
            content-write p stored staged_at staged_at tt tt _
            ∙ ap (λ (c : Context). some (le_bytes 8 c.block_index))
                (p.context-write w code_key (read_input p w));
      })

  -- What `deploy_upgrade` does at block `now`, with the code staged at block `at`.
  abbrev pub deploy_at : World → ℕ → ℕ → ℕ → Bytes → Outcome World
  deploy_at w at delay now code =
      if leb u64_mod (at + delay)
      then panic abort
      else if leb now (at + delay)
      then panic too_early
      else ok (deploy_contract (storage_remove w code_key) (current_account_id p w) code)

  -- Code that `stage_upgrade` has stored in one block is what `deploy_upgrade` deploys to the
  -- contract's own account in a later call, if nothing of this was stored anew between: exactly in
  -- the blocks more than `upgrade_delay_blocks` behind it. Up to there it panics with
  -- ERR_NOT_ALLOWED:TOO_EARLY, and where the sum of block and delay passes `u64` it always panics.
  pub deploy-stage_upgrade :
      (w w' v : World) (state : EngineState)
      → stage_upgrade p w ≡ ok w'
      → block_index p w < u64_mod
      → content p v staged_code ≡ content p w' staged_code
      → content p v staged_at ≡ content p w' staged_at
      → get_state p v ≡ ok state
      → deploy_upgrade p v
        ≡ deploy_at v
            (block_index p w)
            state.upgrade_delay_blocks
            (block_index p v)
            (read_input p w)
  unfolding deploy_upgrade
  deploy-stage_upgrade w w' v state h small same_code same_at e =
      let staged = stage_upgrade-Staged w h in
      rw (e, same_at ∙ staged.at, u64_of-le_bytes (block_index p w) small, same_code ∙ staged.code)
        (ground arith)

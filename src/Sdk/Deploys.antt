-- ===== src/Sdk/Deploys.antt =====
-- `self_deploy` of src/sdk.rs on the registers of the runtime.
use aurora_engine.Prelude.{
  ℕ, ◌≡◌, refl, ◌∙◌, Option, none, some, Outcome, ok, ◌>>=◌, Bytes, Option-cases, inl, inr, Related,
}
use aurora_engine.Platform.{Platform}
use aurora_engine.Sdk
use aurora_engine.Sdk.Runtime.{Runtime, Source, hold_found}
use aurora_engine.Sdk.Wasm
use aurora_engine.Sdk.Held.{Short, ShortIfAny, hold-Short, content_here}

-- What is stored under the key, or else what the register already holds.
abbrev pub stored_or_held : Option Bytes → Option Bytes → Option Bytes
stored_or_held (some code) held = some code
stored_or_held none held = held

module _ (p : Platform) (rt : Runtime p.host p.crypto) where
  open rt use {State, world, put, set_world, content, batch_account}

  -- The same world in the end, or the same error or panic.
  abbrev pub SameWorld : Outcome State → Outcome p.World → Type 0
  SameWorld m n = Related (λ s w. world s ≡ w) m n

  deploys :
      (i : ℕ) (a code : Bytes) (s : State) (w : p.World)
      → batch_account s i ≡ some a
      → content s 1 ≡ some code
      → world s ≡ w
      → SameWorld
          (rt.promise_batch_action_deploy_contract i (Source.register 1) s)
          (ok (p.deploy_contract w a code))
  deploys i a code s w b e k =
      rw (rt.promise_batch_action_deploy_contract_lem i (Source.register 1) s, e, b, k)
        (rt.world-set_world _ s)

  after_removal :
      (stored : Option Bytes) (i : ℕ) (a key : Bytes) (s : State) (w : p.World)
      → ShortIfAny stored
      → batch_account s i ≡ some a
      → a ≡ Sdk.current_account_id p w
      → world s ≡ p.storage_remove w key
      → SameWorld
          (hold_found rt.registers 1 stored s >>= λ (found, t).
            rt.promise_batch_action_deploy_contract i (Source.register 1) t)
          (Sdk.deploy_removed p (stored_or_held stored (content s 1)) key w)
  after_removal (some code) i a key s w f b e k =
      rw (hold-Short rt.registers 1 code s f, ← e)
        (deploys i a code (put 1 code s) (p.storage_remove w key) (rt.batch-put 1 code s i ∙ b)
          (content_here rt.registers 1 code s) (rt.world-put 1 code s ∙ k))
  after_removal none i a key s w f b e k = elim (Option-cases (content s 1)) [
    | inl c ↦ rw (rt.promise_batch_action_deploy_contract_lem i (Source.register 1) s, c) refl
    | inr (old, c) ↦ rw (c, ← e) (deploys i a old s (p.storage_remove w key) b c k)
  ]

  -- The staged code is removed from storage and deployed to the contract's own account. Where no
  -- code is stored, the call is aborted if register 1 is not set, and otherwise what an earlier
  -- function has left in register 1 is deployed as the contract's code. No value that goes through a
  -- register may exceed it.
  pub self_deploy-deploy_removed :
      (code_key : Bytes) (s : State)
      → Short (p.context (world s)).current_account_id
      → ShortIfAny (p.storage_read (world s) code_key)
      → SameWorld (Wasm.self_deploy rt code_key s) (
          Sdk.deploy_removed p
            (stored_or_held (p.storage_read (world s) code_key) (content s 1))
            code_key
            (world s))
  unfolding Wasm.self_deploy
  self_deploy-deploy_removed code_key s f g =
      let w : p.World = world s in
      let a : Bytes = (p.context w).current_account_id in
      let s1 : State = put 0 a s in
      let s2 : State = (rt.new_batch a s1).1 in
      let i : ℕ = (rt.new_batch a s1).0 in
      let same_world : world s2 ≡ w = rt.world-new_batch a s1 ∙ rt.world-put 0 a s in
      let s3 : State = set_world (p.storage_remove w code_key) s2 in
      let register : content s3 1 ≡ content s 1 =
        rt.content-set_world _ s2 1 ∙ rt.content-new_batch a s1 1 ∙ rt.content-put 0 a s 1 in
      rw
        (
          rt.current_account_id_lem 0 s,
          hold-Short rt.registers 0 a s f,
          rt.promise_batch_create_lem (Source.register 0) s1,
          content_here rt.registers 0 a s,
          rt.storage_remove_lem code_key 1 s2,
          same_world,
          ← register,
        )
        (after_removal (p.storage_read w code_key) i a code_key s3 w g
          (rt.batch-set_world _ s2 i ∙ rt.batch-new_batch a s1) refl (rt.world-set_world _ s2))

-- ===== src/Host.antt =====
-- The functions of the NEAR runtime that src/sdk.rs imports, at the level of one call of the
-- contract: a world with what the call was given, the contract's storage, and what the call has
-- returned, logged and asked to deploy. The registers, through which values go to the contract and
-- which it reads at once, are in Sdk.Runtime. Gas is not modelled.
use aurora_engine.Prelude.{
  ℕ, ◌≡◌, Option, none, some, List, [], ◌∷◌, ◌++◌, Bytes, bytes_eq, if◌then◌else◌,
}

pub record Context : Type 0 where
  pub input : Bytes
  pub predecessor_account_id : Bytes
  pub current_account_id : Bytes
  pub block_index : ℕ
  pub block_timestamp : ℕ

pub record Host : Type 1 where
  pub World : Type 0
  pub context : World → Context
  pub storage_read : World → Bytes → Option Bytes
  pub storage_write : World → Bytes → Bytes → World
  pub storage_remove : World → Bytes → World
  pub value_return : World → Bytes → World
  pub returned : World → Option Bytes
  pub log_utf8 : World → Bytes → World
  -- `promise_batch_create` and `promise_batch_action_deploy_contract`: to an account, a code
  pub deploy_contract : World → Bytes → Bytes → World
  pub deployed : World → List (Bytes × Bytes)
  -- A read sees the last write or removal of its key, and nothing else changes storage.
  pub read-write :
      (w : World) (k v j : Bytes)
      → storage_read (storage_write w k v) j ≡ (if bytes_eq k j then some v else storage_read w j)
  pub read-remove :
      (w : World) (k j : Bytes)
      → storage_read (storage_remove w k) j ≡ (if bytes_eq k j then none else storage_read w j)
  pub read-value_return :
      (w : World) (v j : Bytes) → storage_read (value_return w v) j ≡ storage_read w j
  pub read-log : (w : World) (v j : Bytes) → storage_read (log_utf8 w v) j ≡ storage_read w j
  pub read-deploy :
      (w : World) (a c j : Bytes) → storage_read (deploy_contract w a c) j ≡ storage_read w j
  -- What the call was given stays as it is.
  pub context-write : (w : World) (k v : Bytes) → context (storage_write w k v) ≡ context w
  pub context-remove : (w : World) (k : Bytes) → context (storage_remove w k) ≡ context w
  pub context-value_return : (w : World) (v : Bytes) → context (value_return w v) ≡ context w
  pub context-log : (w : World) (v : Bytes) → context (log_utf8 w v) ≡ context w
  pub context-deploy : (w : World) (a c : Bytes) → context (deploy_contract w a c) ≡ context w
  -- The output is the last value returned.
  pub returned-value_return : (w : World) (v : Bytes) → returned (value_return w v) ≡ some v
  -- Deployments are promises, which only the one function makes.
  pub deployed-deploy :
      (w : World) (a c : Bytes) → deployed (deploy_contract w a c) ≡ deployed w ++ (a, c) ∷ []
  pub deployed-write : (w : World) (k v : Bytes) → deployed (storage_write w k v) ≡ deployed w
  pub deployed-remove : (w : World) (k : Bytes) → deployed (storage_remove w k) ≡ deployed w
  pub deployed-value_return : (w : World) (v : Bytes) → deployed (value_return w v) ≡ deployed w
  pub deployed-log : (w : World) (v : Bytes) → deployed (log_utf8 w v) ≡ deployed w

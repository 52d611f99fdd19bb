-- ===== src/Sdk/Runtime.antt =====
-- The functions that the `exports` of src/sdk.rs import from the NEAR runtime, as NEAR documents
-- them. A value goes to the contract through a register: a slot of the call in which the runtime
-- puts it, and from which the contract copies it. The state of a call is a world, as in Host, with
-- the registers.
use aurora_engine.Prelude.{
  ℕ, ◌-◌, ◌^◌, ◌≡◌, Option, none, some, Outcome, ok, panic, abort, expect, ◌>>=◌, Bytes, length,
  leb, ◌==◌, if◌then◌else◌,
}
use aurora_engine.Packages.{Crypto}
use aurora_engine.Host.{Host}

-- No register holds more than 100 MiB.
abbrev pub max_register_size : ℕ
max_register_size = 104857600

-- A length and a pointer: to memory, or, with the length `u64::MAX`, the number of a register.
pub data Source : Type 0 where
  memory : Bytes → Source
  register : ℕ → Source

-- `register_len`, which is `u64::MAX` for a register that is not set.
abbrev pub len_of : Option Bytes → ℕ
len_of none = 2 ^ 64 - 1
len_of (some bytes) = length bytes

pub record Registers (h : Host) : Type 1 where
  pub State : Type 0
  pub world : State → h.World
  pub set_world : h.World → State → State
  pub content : State → ℕ → Option Bytes
  pub put : ℕ → Bytes → State → State
  pub content-put :
      (r : ℕ) (v : Bytes) (s : State) (j : ℕ)
      → content (put r v s) j ≡ (if r == j then some v else content s j)
  pub content-set_world :
      (w : h.World) (s : State) (j : ℕ) → content (set_world w s) j ≡ content s j
  pub world-put : (r : ℕ) (v : Bytes) (s : State) → world (put r v s) ≡ world s
  pub world-set_world : (w : h.World) (s : State) → world (set_world w s) ≡ w

module _ {h : Host} (g : Registers h) where
  open g use {State, world, content, put}

  -- The runtime puts a value into a register, or ends the call where the value is too long.
  abbrev pub hold : ℕ → Bytes → State → Outcome State
  hold r v s = if leb (length v) max_register_size then ok (put r v s) else panic abort

  -- A value that may be there goes into a register, and the answer is 1 or 0.
  abbrev pub hold_found : ℕ → Option Bytes → State → Outcome (ℕ × State)
  hold_found r none s = ok (0, s)
  hold_found r (some v) s = hold r v s >>= λ s'. ok (1, s')

  -- An unset register ends the call.
  abbrev pub source_bytes : Source → State → Outcome Bytes
  source_bytes (memory bytes) s = ok bytes
  source_bytes (register r) s = expect (content s r)

  abbrev pub is_there : Option Bytes → ℕ
  is_there none = 0
  is_there (some v) = 1

pub record Runtime (h : Host) (c : Crypto) : Type 1 where
  pub registers : Registers h
  pub open registers use *
  -- Registers
  pub register_len : ℕ → State → ℕ
  pub register_len_lem : (r : ℕ) (s : State) → register_len r s ≡ len_of (content s r)
  pub read_register : ℕ → State → Outcome Bytes
  pub read_register_lem : (r : ℕ) (s : State) → read_register r s ≡ expect (content s r)
  -- Context
  pub input : ℕ → State → Outcome State
  pub input_lem : (r : ℕ) (s : State) → input r s ≡ hold registers r (h.context (world s)).input s
  pub current_account_id : ℕ → State → Outcome State
  pub current_account_id_lem :
      (r : ℕ) (s : State)
      → current_account_id r s ≡ hold registers r (h.context (world s)).current_account_id s
  pub predecessor_account_id : ℕ → State → Outcome State
  pub predecessor_account_id_lem :
      (r : ℕ) (s : State)
      → predecessor_account_id r s ≡ hold registers r (h.context (world s)).predecessor_account_id s
  pub block_index : State → ℕ
  pub block_index_lem : (s : State) → block_index s ≡ (h.context (world s)).block_index
  pub block_timestamp : State → ℕ
  pub block_timestamp_lem : (s : State) → block_timestamp s ≡ (h.context (world s)).block_timestamp
  pub storage_usage : State → ℕ
  -- Economics: the deposit is written as 16 bytes, the lowest first.
  pub attached_deposit : State → Bytes
  pub length-attached_deposit : (s : State) → length (attached_deposit s) ≡ 16
  pub prepaid_gas : State → ℕ
  -- Hashes
  pub sha256 : Bytes → ℕ → State → Outcome State
  pub sha256_lem : (v : Bytes) (r : ℕ) (s : State) → sha256 v r s ≡ hold registers r (c.sha256 v) s
  pub keccak256 : Bytes → ℕ → State → Outcome State
  pub keccak256_lem :
      (v : Bytes) (r : ℕ) (s : State) → keccak256 v r s ≡ hold registers r (c.keccak v) s
  -- Results and logs
  pub value_return : Bytes → State → State
  pub value_return_lem :
      (v : Bytes) (s : State) → value_return v s ≡ set_world (h.value_return (world s) v) s
  pub log_utf8 : Bytes → State → State
  pub log_utf8_lem : (v : Bytes) (s : State) → log_utf8 v s ≡ set_world (h.log_utf8 (world s) v) s
  -- Storage: a value that is replaced or removed goes into the register.
  pub storage_write : Bytes → Source → ℕ → State → Outcome (ℕ × State)
  pub storage_write_lem :
      (key : Bytes) (value : Source) (r : ℕ) (s : State)
      → storage_write key value r s ≡ (
          source_bytes registers value s >>= λ v.
          hold_found registers r
            (h.storage_read (world s) key)
            (set_world (h.storage_write (world s) key v) s))
  pub storage_read : Bytes → ℕ → State → Outcome (ℕ × State)
  pub storage_read_lem :
      (key : Bytes) (r : ℕ) (s : State)
      → storage_read key r s ≡ hold_found registers r (h.storage_read (world s) key) s
  pub storage_remove : Bytes → ℕ → State → Outcome (ℕ × State)
  pub storage_remove_lem :
      (key : Bytes) (r : ℕ) (s : State)
      → storage_remove key r s
        ≡ hold_found registers r
            (h.storage_read (world s) key)
            (set_world (h.storage_remove (world s) key) s)
  pub storage_has_key : Bytes → State → ℕ
  pub storage_has_key_lem :
      (key : Bytes) (s : State)
      → storage_has_key key s ≡ is_there registers (h.storage_read (world s) key)
  -- Promises: an account, a method, arguments, an amount of 16 bytes and gas
  pub promise_create : Bytes → Bytes → Bytes → Bytes → ℕ → State → ℕ × State
  pub promise_then : ℕ → Bytes → Bytes → Bytes → Bytes → ℕ → State → ℕ × State
  pub promise_return : ℕ → State → State
  pub promise_results_count : State → ℕ
  pub promise_batch_action_transfer : ℕ → Bytes → State → State
  -- The account of a batch of actions, and a new batch
  pub batch_account : State → ℕ → Option Bytes
  pub new_batch : Bytes → State → ℕ × State
  pub batch-new_batch :
      (a : Bytes) (s : State) → batch_account (new_batch a s).1 (new_batch a s).0 ≡ some a
  pub world-new_batch : (a : Bytes) (s : State) → world (new_batch a s).1 ≡ world s
  pub content-new_batch :
      (a : Bytes) (s : State) (r : ℕ) → content (new_batch a s).1 r ≡ content s r
  pub batch-put :
      (r : ℕ) (v : Bytes) (s : State) (i : ℕ) → batch_account (put r v s) i ≡ batch_account s i
  pub batch-set_world :
      (w : h.World) (s : State) (i : ℕ) → batch_account (set_world w s) i ≡ batch_account s i
  pub promise_batch_create : Source → State → Outcome (ℕ × State)
  pub promise_batch_create_lem :
      (account : Source) (s : State)
      → promise_batch_create account s
        ≡ (source_bytes registers account s >>= λ a. ok (new_batch a s))
  pub promise_batch_action_deploy_contract : ℕ → Source → State → Outcome State
  pub promise_batch_action_deploy_contract_lem :
      (i : ℕ) (code : Source) (s : State)
      → promise_batch_action_deploy_contract i code s ≡ (
          source_bytes registers code s >>= λ b.
          expect (batch_account s i) >>= λ a. ok (set_world (h.deploy_contract (world s) a b) s))

-- ===== src/Contract/Machine/Lifetimes.antt =====
-- All that can happen to the contract of src/lib.rs from its deployment on: sequences of calls of
-- its functions by anyone.
use aurora_engine.Prelude.{ℕ, ◌<◌, ◌≡◌, Option, ok, Bytes, Related-ok}
use aurora_engine.Packages.{IsAddress, IsWord, u64_mod}
use aurora_engine.Parameters.{EngineState, IsEngineState}
use aurora_engine.Storage.{code_stage_key}
use aurora_engine.Storage.Keys.{Slot}
use aurora_engine.Host.{Context}
use aurora_engine.Platform.{Platform}
use aurora_engine.Sdk.{block_index, read_u64}
use aurora_engine.Engine.{get_state, get_nonce, get_balance, get_storage}
use aurora_engine.Engine.Slots.{content}
use aurora_engine.Contract.Machine.{Function, Machine, Effect, Answers, serve}
use aurora_engine.Contract.Machine.Models.{Models, Models-same}
use aurora_engine.Contract.Machine.Globals.{Matches}
use aurora_engine.Contract.Machine.Executes.{answers, IsEvm, answers-IsEvm}
use aurora_engine.Contract.Machine.Serves.{run, run-serve}

module _ (p : Platform) where
  open p use {World}

  -- Calls that have not panicked, one after the other. Between two of them the runtime sets a new
  -- context, with a block number of 64 bits, and keeps the storage.
  pub data Lifetime (first : World) : World → Type 0 where
    just_begun : Lifetime first first
    called_then :
        {u v w : World} (f : Function)
        → Lifetime first u
        → ((s : Slot) → content p v s ≡ content p u s)
        → block_index p v < u64_mod
        → run p f v ≡ ok w
        → Lifetime first w

  -- What the machine may come to.
  pub data Reaches (first : Machine) : Machine → Type 0 where
    at_once : Reaches first first
    served_then :
        {m m' : Machine} (f : Function) (c : Context) (a : Answers) (effect : Effect)
        → Reaches first m
        → IsEvm p c m a
        → serve p c a f m ≡ ok (m', effect)
        → Reaches first m'

  -- A lifetime of the contract that starts in a world which reads as a machine ends in one that
  -- reads as a machine which the first one reaches: each call is a step of the machine, in which
  -- the EVM is shown the machine's accounts.
  pub Lifetime-Reaches :
      {first w : World} {start : Machine}
      → Models p first start
      → Lifetime first w
      → (m : Machine) × Reaches start m × Models p w m
  Lifetime-Reaches {start} r just_begun = (start, at_once, r)
  Lifetime-Reaches {first} {w} {start} r (called_then {u} {v} f before same small done) =
      let (m, reached, here) = Lifetime-Reaches r before in
      let there : Models p v m = Models-same p here same in
      let ((m', effect), served, (models, _)) =
        Related-ok (Matches p v) (run p f v) (serve p (p.context v) (answers p v) f m)
          (run-serve p f v m there small) done in
      (
        m',
        served_then f (p.context v) (answers p v) effect reached (answers-IsEvm p v m there) served,
        models,
      )

  -- Storage can be read.
  pub record IsReadable (w : World) : Type 0 where
    pub state : (s : EngineState) × (get_state p w ≡ ok s) × IsEngineState s
    pub block : (n : Option ℕ) × (read_u64 p code_stage_key w ≡ ok n)
    pub nonce : (a : Bytes) → IsAddress a → (n : ℕ) × (get_nonce p a w ≡ ok n)
    pub balance : (a : Bytes) → IsAddress a → (n : ℕ) × (get_balance p a w ≡ ok n)
    pub cell : (a k : Bytes) → IsAddress a → IsWord k → (v : Bytes) × (get_storage p a k w ≡ ok v)

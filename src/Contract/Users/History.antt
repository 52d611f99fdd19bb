-- ===== src/Contract/Users/History.antt =====
-- Sequences of calls of src/lib.rs by anyone, and what they leave alone.
use aurora_engine.Prelude.{◌≡◌, refl, ◌∙◌, ap, true, expect}
use aurora_engine.Storage.Keys.{Slot, engine_state}
use aurora_engine.Platform.{Platform}
use aurora_engine.Engine.{get_state, value_or, default_state}
use aurora_engine.Engine.Slots.{content}
use aurora_engine.Engine.ApplyBackend.Frame.{is_global}
use aurora_engine.Contract.Users.{UserStep, UserStep-Keeps}

module _ (p : Platform) where
  open p use {World}

  -- Calls one after the other. Between two of them the runtime sets a new context and keeps the
  -- storage, and a call that panics is none.
  pub data History (first : World) : World → Type 0 where
    none_yet : History first first
    next :
        {w v w' : World}
        → History first w
        → ((s : Slot) → content p v s ≡ content p w s)
        → UserStep p v w'
        → History first w'

  History-content :
      {first w : World} (s : Slot)
      → is_global s ≡ true
      → History first w
      → content p w s ≡ content p first s
  History-content s g none_yet = refl
  History-content s g (next {w} {v} before same step) =
      (UserStep-Keeps p v step).globals s g ∙ same s ∙ History-content s g before

  -- However often anyone calls contracts, sends transactions and meta-transactions, deploys and
  -- reads, in whatever order and from whatever accounts: the engine's state (owner, chain, bridge and
  -- upgrade delay), the staged code and its block are what they were.
  pub History-globals :
      {first w : World}
      → History first w
      → (get_state p w ≡ get_state p first)
        × ((s : Slot) → is_global s ≡ true → content p w s ≡ content p first s)
  unfolding get_state
  History-globals {first} {w} h = (
    ap (value_or (λ bytes. expect (p.states.from_slice bytes)) default_state)
        (History-content engine_state refl h),
    λ s g. History-content s g h,
  )

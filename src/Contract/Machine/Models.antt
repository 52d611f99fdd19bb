-- ===== src/Contract/Machine/Models.antt =====
-- When storage reads as a machine, and what leaves it so.
use aurora_engine.Prelude.{
  ℕ, ◌≡◌, refl, ◌∙◌, ap, Option, none, some, [], ◌∷◌, ◌++◌, false, ok, arith, expect, Bytes,
}
use aurora_engine.Parameters.{EngineState, IsEngineState}
use aurora_engine.Storage.{code_stage_key, nonce, balance, code}
use aurora_engine.Storage.Keys.{Slot, IsSlot, account, cell, engine_state, staged_code, staged_at}
use aurora_engine.Platform.{Platform}
use aurora_engine.Sdk.{read_u64, u64_of, current_account_id, return_output}
use aurora_engine.Engine.{
  get_state, value_or, default_state, get_nonce, get_balance, get_code, get_storage, zero_word,
}
use aurora_engine.Engine.Abstract.{Accounts, Represents}
use aurora_engine.Engine.Slots.{content}
use aurora_engine.Engine.ApplyBackend.Frame.{is_global, Keeps}
use aurora_engine.Contract.Machine.{Machine, Effect, silent, returning, deploying}

-- The world's storage reads as this machine.
pub record Models (p : Platform) (w : p.World) (m : Machine) : Type 0 where
  pub state : get_state p w ≡ ok m.state
  pub state_valid : IsEngineState m.state
  pub upgrade : content p w staged_code ≡ m.upgrade
  pub upgrade_block : read_u64 p code_stage_key w ≡ ok m.upgrade_block
  pub accounts : Represents p w m.accounts

module _ (p : Platform) where
  open p use {World, returned, deployed}

  -- A call that starts in `w` and ends in `w'` has had this effect.
  abbrev pub Happens : World → World → Effect → Type 0
  Happens w w' silent = deployed w' ≡ deployed w
  Happens w w' (returning result) = (deployed w' ≡ deployed w) × (returned w' ≡ some result)
  Happens w w' (deploying bytes) = deployed w' ≡ deployed w ++ (current_account_id p w, bytes) ∷ []

  -- The places of accounts hold the same.
  abbrev pub SameAccounts : World → World → Type 0
  SameAccounts w v = (s : Slot) → IsSlot s → is_global s ≡ false → content p v s ≡ content p w s

  pub Represents-SameAccounts :
      {w v : World} {accounts : Accounts}
      → Represents p w accounts
      → SameAccounts w v
      → Represents p v accounts
  unfolding get_nonce get_balance get_code get_storage
  Represents-SameAccounts r same = record {
    nonces =
        λ a h. ap (value_or p.from_big_endian 0) (same (account nonce a) h refl) ∙ r.nonces a h;
    balances =
        λ a h. ap (value_or p.from_big_endian 0) (same (account balance a) h refl) ∙ r.balances a h;
    codes = λ a h. rw (same (account code a) h refl) (r.codes a h);
    cells = λ a k h hk.
        ap (value_or p.h256_from_slice zero_word) (same (cell a k) (h, hk) refl) ∙ r.cells a k h hk;
  }

  pub state_at :
      {w v : World} {state : EngineState}
      → content p v engine_state ≡ content p w engine_state
      → get_state p w ≡ ok state
      → get_state p v ≡ ok state
  unfolding get_state
  state_at same e =
      ap (value_or (λ bytes. expect (p.states.from_slice bytes)) default_state) same ∙ e

  pub block_at :
      {w v : World} {block : Option ℕ}
      → content p v staged_at ≡ content p w staged_at
      → read_u64 p code_stage_key w ≡ ok block
      → read_u64 p code_stage_key v ≡ ok block
  block_at same e = ap u64_of same ∙ e

  -- Storage that holds the same reads as the same machine.
  pub Models-same :
      {w v : World} {m : Machine}
      → Models p w m
      → ((s : Slot) → content p v s ≡ content p w s)
      → Models p v m
  Models-same r same = record {
    state = state_at (same engine_state) r.state;
    state_valid = r.state_valid;
    upgrade = same staged_code ∙ r.upgrade;
    upgrade_block = block_at (same staged_at) r.upgrade_block;
    accounts = Represents-SameAccounts r.accounts (λ s h l. same s);
  }

  pub return_output-Models :
      {w : World} {m : Machine} (result : Bytes)
      → Models p w m
      → Models p (return_output p result w) m
  return_output-Models {w} result r = Models-same r (λ s. p.read-value_return w result _)

  -- A change of accounts alone.
  pub Keeps-Models :
      {w v : World} {m : Machine} {accounts : Accounts}
      → Models p w m
      → Keeps p w v
      → Represents p v accounts
      → Models p v (record m { accounts = accounts })
  Keeps-Models r k changed = record {
    state = state_at (k.globals engine_state refl) r.state;
    state_valid = r.state_valid;
    upgrade = k.globals staged_code refl ∙ r.upgrade;
    upgrade_block = block_at (k.globals staged_at refl) r.upgrade_block;
    accounts = changed;
  }

  -- Storage in which nothing was written.
  abbrev pub blank_machine : Machine
  blank_machine = record {
    state = default_state;
    upgrade = none;
    upgrade_block = none;
    accounts = λ a. record { nonce = 0; balance = 0; code = []; cell = λ k. zero_word };
  }

  pub empty-Models : (w : World) → ((s : Slot) → content p w s ≡ none) → Models p w blank_machine
  unfolding get_state get_nonce get_balance get_code get_storage
  empty-Models w empty = record {
    state =
        ap (value_or (λ bytes. expect (p.states.from_slice bytes)) default_state)
          (empty engine_state);
    state_valid = record { chain_id_word = refl; delay_u64 = omega arith };
    upgrade = empty staged_code;
    upgrade_block = ap u64_of (empty staged_at);
    accounts = record {
      nonces = λ a h. ap (value_or p.from_big_endian 0) (empty (account nonce a));
      balances = λ a h. ap (value_or p.from_big_endian 0) (empty (account balance a));
      codes = λ a h. rw (empty (account code a)) refl;
      cells = λ a k h hk. ap (value_or p.h256_from_slice zero_word) (empty (cell a k));
    };
  }

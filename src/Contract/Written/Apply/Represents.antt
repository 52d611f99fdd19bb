-- ===== src/Contract/Written/Apply/Represents.antt =====
-- `apply` of src/engine.rs, call by call of src/sdk.rs on the registers of the runtime, implements
-- the abstract changes of accounts.
use mathlib.Core.Path.{subst}
use aurora_engine.Prelude.{◌≡◌, refl, sym, ◌∙◌, Bool, List, Outcome, ok, err, panic, ok_inj, All}
use aurora_engine.Sdk.Deploys.{SameWorld}
use aurora_engine.Types.{Log}
use aurora_engine.Evm.{Apply, IsApply, IsLog}
use aurora_engine.Platform.{Platform}
use aurora_engine.Sdk.Runtime.{Runtime}
use aurora_engine.Engine.Abstract.{Accounts, apply_all, Represents}
use aurora_engine.Engine.ApplyBackend.{apply}
use aurora_engine.Engine.ApplyBackend.Total.{apply-Yields}
use aurora_engine.Contract.Written.Fitting.{IsShort}
use aurora_engine.Contract.Written.Manages.{run_code, ends-SameWorld}
use aurora_engine.Contract.Written.Apply.{apply_written}
use aurora_engine.Contract.Written.Apply.Described.{apply-Ends}
use aurora_engine.Contract.Written.Apply.Fitting.{HasShortCode, apply_written-FitsIfShort}

module _ (p : Platform) (rt : Runtime p.host p.crypto) where
  open rt use {State, world}

  -- The code on registers ends, in a state whose storage reads as these accounts.
  abbrev pub EndsAs : Outcome State → Accounts → Type 0
  EndsAs m accounts = (s : State) × (m ≡ ok s) × Represents p (world s) accounts

  same_end :
      (m : Outcome State) (n : Outcome p.World) (w : p.World)
      → SameWorld p rt m n
      → n ≡ ok w
      → (s : State) × (m ≡ ok s) × (world s ≡ w)
  same_end (ok s) (ok v) w h e = (s, refl, h ∙ ok_inj e)
  same_end (ok s) (err d) w h e = absurd h
  same_end (ok s) (panic q) w h e = absurd h
  same_end (err d) (ok v) w h e = absurd h
  same_end (err d) (err a) w h e = cc e
  same_end (err d) (panic q) w h e = absurd h
  same_end (panic q) (ok v) w h e = absurd h
  same_end (panic q) (err d) w h e = absurd h
  same_end (panic q) (panic a) w h e = cc e

  -- On the registers of the runtime, whatever they hold, applying an executor's changes and logs
  -- returns, and storage then reads as the accounts changed one by one. The storage of the start
  -- reads as the accounts, the changes and logs are well-formed, and the input, the account names,
  -- what is stored and the new codes fit into a register.
  pub apply_written-EndsAs :
      (accounts : Accounts) (values : List Apply) (logs : List Log) (delete_empty : Bool)
      (s : State)
      → IsShort p (world s)
      → Represents p (world s) accounts
      → All IsApply values
      → All HasShortCode values
      → All IsLog logs
      → EndsAs
          (run_code p rt (apply_written p values logs delete_empty) s)
          (apply_all values accounts)
  apply_written-EndsAs accounts values logs delete_empty s short r hv hc hl =
      let (w, returned, represents) =
        apply-Yields p accounts values logs delete_empty (world s) r hv hl in
      let (s', ended, same) =
        same_end (run_code p rt (apply_written p values logs delete_empty) s)
          (apply p values logs delete_empty (world s)) w
          (ends-SameWorld p rt (apply_written p values logs delete_empty)
            (apply p values logs delete_empty) s short
            (λ w. record {
              runs = apply-Ends p delete_empty values logs w;
              fits = apply_written-FitsIfShort p values logs delete_empty hv hc w;
            }))
          returned in
      (s', ended, subst (λ v. Represents p v (apply_all values accounts)) (sym same) represents)

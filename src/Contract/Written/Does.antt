-- ===== src/Contract/Written/Does.antt =====
-- Code over the functions of src/sdk.rs, step by step: how it ends, and that what it moves through
-- registers fits there where all that is stored does.
use mathlib.Core.Path.{subst}
use aurora_engine.Prelude.{
  ◌≡◌, refl, sym, ◌∙◌, ap, Outcome, ok, err, panic, ◌>>=◌, >>=-ok, >>=_assoc, ok_inj,
}
use aurora_engine.Platform.{Platform}
use aurora_engine.Sdk.Programs.{
  Program, Operation, Answer, done, call, attempt, and_then, described, Fits, run_described,
  run_described-and_then, FitsAll, FitsAll-and_then,
}
use aurora_engine.Contract.Written.Codes.{Code, step}
use aurora_engine.Contract.Written.Fitting.{IsShort}

module _ (p : Platform) where
  open p use {World}

  pub record Does {A : Type 0} (c : Program A) (w : World) (o : Outcome (A × World)) : Type 0 where
    pub runs : run_described p c w ≡ o
    pub fits : IsShort p w → FitsAll p c w

  abbrev pub unchanged : {A : Type 0} → Outcome A → World → Outcome (A × World)
  unchanged o w = o >>= λ a. ok (a, w)

  -- The code reads, and leaves the world as it is.
  abbrev pub Reads : {A : Type 0} → Program A → World → Outcome A → Type 0
  Reads c w o = Does c w (unchanged o w)

  -- The code ends as the function.
  abbrev pub Ends : Code → World → Outcome World → Type 0
  Ends c w o = Does c w (o >>= λ v. ok (tt, v))

  module _ {A B : Type 0} (w : World) where
    read_then :
        (c : Program A) (next : A → Program B) (o : Outcome A) (end : A → Outcome (B × World))
        → Reads c w o
        → ((a : A) → o ≡ ok a → Does (next a) w (end a))
        → Does (and_then c next) w (o >>= end)
    read_then c next o end r h = record {
      runs =
          run_described-and_then p c next w
          ∙ ap (λ m. m >>= λ (a, v). run_described p (next a) v) r.runs
          ∙ goes_on o (λ a e. (h a e).runs);
      fits = λ short. FitsAll-and_then p c next w (r.fits short) (λ a v e.
          let (b, found, same) = >>=-ok o _ (sym r.runs ∙ e) in
          let eq = ok_inj same in
          subst (λ t. FitsAll p (next (t.0)) (t.1)) eq ((h b found).fits short));
    }
      where
        goes_on :
            (o : Outcome A)
            → ((a : A) → o ≡ ok a → run_described p (next a) w ≡ end a)
            → (unchanged o w >>= λ (a, v). run_described p (next a) v) ≡ (o >>= end)
        goes_on (ok a) k = k a refl
        goes_on (err e) k = refl
        goes_on (panic e) k = refl

  module _ {A B : Type 0} (w : World) where
    pub read-Reads :
        (c : Program A) (next : A → Program B) (o : Outcome A) (result : A → Outcome B)
        → Reads c w o
        → ((a : A) → o ≡ ok a → Reads (next a) w (result a))
        → Reads (and_then c next) w (o >>= result)
    read-Reads c next o result r h =
        subst (Does (and_then c next) w) (sym (>>=_assoc o result (λ b. ok (b, w))))
          (read_then w c next o (λ a. unchanged (result a) w) r h)

  module _ {A : Type 0} (w : World) where
    pub read-Ends :
        (c : Program A) (next : A → Code) (o : Outcome A) (end : A → Outcome World)
        → Reads c w o
        → ((a : A) → o ≡ ok a → Ends (next a) w (end a))
        → Ends (and_then c next) w (o >>= end)
    read-Ends c next o end r h =
        subst (Does (and_then c next) w) (sym (>>=_assoc o end (λ v. ok (tt, v))))
          (read_then w c next o (λ a. end a >>= λ v. ok (tt, v)) r h)

    -- The same where the function goes on in two parts.
    pub read-Ends_nested :
        {B : Type 0} (c : Program A) (next : A → Code) (o : Outcome A) (f : A → Outcome B)
        (g : B → Outcome World)
        → Reads c w o
        → ((a : A) → o ≡ ok a → Ends (next a) w (f a >>= g))
        → Ends (and_then c next) w (o >>= f >>= g)
    read-Ends_nested c next o f g r h =
        subst (Ends (and_then c next) w) (sym (>>=_assoc o f g))
          (read-Ends c next o (λ a. f a >>= g) r h)

    -- A read that always has a value.
    pub known-Ends :
        (c : Program A) (next : A → Code) (a : A) (end : Outcome World)
        → Reads c w (ok a)
        → Ends (next a) w end
        → Ends (and_then c next) w end
    known-Ends c next a end r h =
        read-Ends c next (ok a) (λ b. end) r (λ b e. subst (λ b. Ends (next b) w end) (ok_inj e) h)

    -- A step without the runtime.
    pub attempt-Reads : (o : Outcome A) → Reads (attempt o done) w o
    attempt-Reads (ok a) = record { runs = refl; fits = λ short. tt }
    attempt-Reads (err e) = record { runs = refl; fits = λ short. tt }
    attempt-Reads (panic e) = record { runs = refl; fits = λ short. tt }

    pub step-Ends :
        (o : Outcome A) (next : A → Code) (end : A → Outcome World)
        → ((a : A) → Ends (next a) w (end a))
        → Ends (and_then (step o) next) w (o >>= end)
    step-Ends o next end h = read-Ends (step o) next o end (attempt-Reads o) (λ a e. h a)

    pub step-Ends_nested :
        {B : Type 0} (o : Outcome A) (next : A → Code) (f : A → Outcome B) (g : B → Outcome World)
        → ((a : A) → Ends (next a) w (f a >>= g))
        → Ends (and_then (step o) next) w (o >>= f >>= g)
    step-Ends_nested o next f g h =
        read-Ends_nested (step o) next o f g (attempt-Reads o) (λ a e. h a)

  -- A function of src/sdk.rs that reads, and may panic.
  pub asks-Reads :
      (q : Operation) (w : World) (o : Outcome (Answer q))
      → described p q w ≡ unchanged o w
      → (IsShort p w → Fits p q w)
      → Reads (call q done) w o
  asks-Reads q w o e fits = record {
    runs = ap (λ m. m >>= λ (a, v). ok (a, v)) e ∙ twice o;
    fits = λ short. (fits short, λ b v d. tt);
  }
    where
      twice : (o : Outcome (Answer q)) → (unchanged o w >>= λ (a, v). ok (a, v)) ≡ unchanged o w
      twice (ok a) = refl
      twice (err e) = refl
      twice (panic e) = refl

  -- One that always has a value.
  pub call-Reads :
      (q : Operation) (w : World) (a : Answer q)
      → described p q w ≡ ok (a, w)
      → (IsShort p w → Fits p q w)
      → Reads (call q done) w (ok a)
  call-Reads q w a e fits = record { runs = rw e refl; fits = λ short. (fits short, λ b v d. tt) }

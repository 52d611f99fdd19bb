-- ===== src/Prelude/Results.antt =====
-- The outcome of Rust code that may return an error or panic.
use mathlib.Core.Path.{◌≡◌, refl, ap, ◌∙◌}
use mathlib.Core.Option.{Option, none, some}
use aurora_engine.Prelude.ByteStrings.{Bytes}

-- src/types.rs, `ErrorKind`.
pub data ErrorKind : Type 0 where
  argument_parse_error : ErrorKind
  invalid_meta_transaction_method_name : ErrorKind
  invalid_meta_transaction_function_arg : ErrorKind
  invalid_ec_recover_signature : ErrorKind

-- How a call ends without a value: by `panic_utf8` with a message, by a Rust panic (`expect`,
-- `unwrap`, an index or a slice out of range, an arithmetic overflow, `todo!()`), which aborts, or
-- by a write behind the end of a buffer, after which nothing is defined. `out_of_fuel` is the end of
-- a loop of the model whose fuel is used up.
pub data Panic : Type 0 where
  panic_utf8 : Bytes → Panic
  abort : Panic
  memory_fault : Panic
  out_of_fuel : Panic

pub data Outcome {ℓ} (A : Type ℓ) : Type ℓ where
  ok : A → Outcome A
  err : ErrorKind → Outcome A
  panic : Panic → Outcome A

infixl 5 ◌>>=◌ ◌>>◌
abbrev pub ◌>>=◌ {ℓ κ} : {A : Type ℓ} {B : Type κ} → Outcome A → (A → Outcome B) → Outcome B
ok a >>= f = f a
err e >>= f = err e
panic p >>= f = panic p

abbrev pub ◌>>◌ {ℓ} : {B : Type ℓ} → Outcome (Unit {0}) → Outcome B → Outcome B
m >> k = m >>= λ _. k

-- `.ok_or(e)?`
abbrev pub ok_or {ℓ} : {A : Type ℓ} → Option A → ErrorKind → Outcome A
ok_or none e = err e
ok_or (some a) e = ok a

-- `.expect(..)` and `.unwrap()`
abbrev pub expect {ℓ} : {A : Type ℓ} → Option A → Outcome A
expect none = panic abort
expect (some a) = ok a

-- No panic.
abbrev pub Returns {ℓ} : {A : Type ℓ} → Outcome A → Type 0
Returns (ok a) = Unit {0}
Returns (err e) = Unit {0}
Returns (panic p) = ⊥

-- A chain that succeeds has succeeded at each step.
pub >>=-ok {ℓ κ} :
    {A : Type ℓ} {B : Type κ} (step : Outcome A) (next : A → Outcome B) {result : B}
    → (step >>= next) ≡ ok result
    → (value : A) × (step ≡ ok value) × (next value ≡ ok result)
>>=-ok (panic _) next e = cc
>>=-ok (err _) next e = cc
>>=-ok (ok value) next e = (value, refl, e)

pub ok_or-ok {ℓ} :
    {A : Type ℓ} (o : Option A) (e : ErrorKind) {a : A} → ok_or o e ≡ ok a → o ≡ some a
ok_or-ok none e h = cc
ok_or-ok (some b) e h = cc

pub expect-ok {ℓ} : {A : Type ℓ} (o : Option A) {a : A} → expect o ≡ ok a → o ≡ some a
expect-ok none h = cc
expect-ok (some b) h = cc

pub >>=-Returns {ℓ κ} :
    {A : Type ℓ} {B : Type κ} (step : Outcome A) (next : A → Outcome B)
    → Returns step
    → ((a : A) → step ≡ ok a → Returns (next a))
    → Returns (step >>= next)
>>=-Returns (ok a) next h k = k a refl
>>=-Returns (err e) next h k = tt
>>=-Returns (panic p) next h k = h

-- A chain goes on with what its first step has returned.
pub >>=-next {ℓ κ} :
    {A : Type ℓ} {B : Type κ} (step : Outcome A) (next : A → Outcome B) {value : A}
    → step ≡ ok value
    → (step >>= next) ≡ next value
>>=-next step next e = ap (λ s. s >>= next) e

pub >>=_assoc {ℓ κ ι} :
    {A : Type ℓ} {B : Type κ} {C : Type ι} (m : Outcome A) (f : A → Outcome B) (g : B → Outcome C)
    → (m >>= f >>= g) ≡ (m >>= λ a. f a >>= g)
>>=_assoc (ok a) f g = refl
>>=_assoc (err e) f g = refl
>>=_assoc (panic q) f g = refl

-- Chains that go on alike.
pub >>=_cong {ℓ κ} :
    {A : Type ℓ} {B : Type κ} (o : Outcome A) (f g : A → Outcome B)
    → ((a : A) → f a ≡ g a)
    → (o >>= f) ≡ (o >>= g)
>>=_cong (ok a) f g h = h a
>>=_cong (err e) f g h = refl
>>=_cong (panic e) f g h = refl

pub ok_inj {ℓ} : {A : Type ℓ} {a b : A} → ok a ≡ ok b → a ≡ b
ok_inj e = cc e

-- The same kind of end: both with a value, or both with the same error or panic.
abbrev pub Alike {ℓ κ} : {A : Type ℓ} {B : Type κ} → Outcome A → Outcome B → Type 0
Alike (ok a) (ok b) = Unit {0}
Alike (err e) (err d) = e ≡ d
Alike (panic p) (panic q) = p ≡ q
Alike _ _ = ⊥

pub Alike->>= {ℓ κ} :
    {A B : Type ℓ} {C D : Type κ} (m : Outcome A) (n : Outcome B) (f : A → Outcome C)
    (g : B → Outcome D)
    → Alike m n
    → ((a : A) (b : B) → Alike (f a) (g b))
    → Alike (m >>= f) (n >>= g)
Alike->>= (ok a) (ok b) f g h k = k a b
Alike->>= (err e) (err d) f g h k = h
Alike->>= (panic p) (panic q) f g h k = h
Alike->>= (ok a) (err d) f g h k = absurd h
Alike->>= (ok a) (panic q) f g h k = absurd h
Alike->>= (err e) (ok b) f g h k = absurd h
Alike->>= (err e) (panic q) f g h k = absurd h
Alike->>= (panic p) (ok b) f g h k = absurd h
Alike->>= (panic p) (err d) f g h k = absurd h

-- Two chains with the same first step.
pub Alike-then {ℓ κ} :
    {A : Type ℓ} {C D : Type κ} (m : Outcome A) (f : A → Outcome C) (g : A → Outcome D)
    → ((a : A) → Alike (f a) (g a))
    → Alike (m >>= f) (m >>= g)
Alike-then (ok a) f g k = k a
Alike-then (err e) f g k = refl
Alike-then (panic p) f g k = refl

-- A chain whose second step always has a value.
pub Alike->>=-right {ℓ κ} :
    {A B : Type ℓ} {C : Type κ} (m : Outcome A) (n : Outcome B) (g : B → Outcome C)
    → Alike m n
    → ((b : B) → (c : C) × (g b ≡ ok c))
    → Alike m (n >>= g)
Alike->>=-right (ok a) (ok b) g h k = let (c, e) = k b in rw e tt
Alike->>=-right (err e) (err d) g h k = h
Alike->>=-right (panic p) (panic q) g h k = h
Alike->>=-right (ok a) (err d) g h k = absurd h
Alike->>=-right (ok a) (panic q) g h k = absurd h
Alike->>=-right (err e) (ok b) g h k = absurd h
Alike->>=-right (err e) (panic q) g h k = absurd h
Alike->>=-right (panic p) (ok b) g h k = absurd h
Alike->>=-right (panic p) (err d) g h k = absurd h

-- A chain whose first two steps end alike, where the first has a value.
pub Alike-ok {ℓ κ} :
    {A : Type ℓ} {B : Type κ} (m : Outcome A) (n : Outcome B) {a : A}
    → Alike m n
    → m ≡ ok a
    → (b : B) × (n ≡ ok b)
Alike-ok (ok a) (ok b) h e = (b, refl)
Alike-ok (ok a) (err d) h e = absurd h
Alike-ok (ok a) (panic q) h e = absurd h
Alike-ok (err d) n h e = cc e
Alike-ok (panic q) n h e = cc e

-- The same kind of end: both with values that are in relation, or both with the same error or panic.
abbrev pub Related {ℓ κ} :
    {A : Type ℓ} {B : Type κ} → (A → B → Type 0) → Outcome A → Outcome B → Type 0
Related R (ok a) (ok b) = R a b
Related R (err e) (err d) = e ≡ d
Related R (panic p) (panic q) = p ≡ q
Related R _ _ = ⊥

-- Two chains whose first steps are in relation.
pub Related->>= {ℓ κ ι} :
    {A : Type ℓ} {B : Type κ} {C D : Type ι} (R : A → B → Type 0) (S : C → D → Type 0)
    (m : Outcome A) (n : Outcome B) (f : A → Outcome C) (g : B → Outcome D)
    → Related R m n
    → ((a : A) (b : B) → m ≡ ok a → R a b → Related S (f a) (g b))
    → Related S (m >>= f) (n >>= g)
Related->>= R S (ok a) (ok b) f g h k = k a b refl h
Related->>= R S (err e) (err d) f g h k = h
Related->>= R S (panic p) (panic q) f g h k = h
Related->>= R S (ok a) (err d) f g h k = absurd h
Related->>= R S (ok a) (panic q) f g h k = absurd h
Related->>= R S (err e) (ok b) f g h k = absurd h
Related->>= R S (err e) (panic q) f g h k = absurd h
Related->>= R S (panic p) (ok b) f g h k = absurd h
Related->>= R S (panic p) (err d) f g h k = absurd h

-- Two chains with the same first step.
pub Related-then {ℓ ι} :
    {A : Type ℓ} {C D : Type ι} (S : C → D → Type 0) (m : Outcome A) (f : A → Outcome C)
    (g : A → Outcome D)
    → ((a : A) → m ≡ ok a → Related S (f a) (g a))
    → Related S (m >>= f) (m >>= g)
Related-then S (ok a) f g k = k a refl
Related-then S (err e) f g k = refl
Related-then S (panic p) f g k = refl

-- What the first of two related outcomes returns.
pub Related-ok {ℓ κ} :
    {A : Type ℓ} {B : Type κ} (R : A → B → Type 0) (m : Outcome A) (n : Outcome B) {a : A}
    → Related R m n
    → m ≡ ok a
    → (b : B) × (n ≡ ok b) × R a b
Related-ok R (ok a) (ok b) h e = (b, refl, rw (← ok_inj e) h)
Related-ok R (ok a) (err d) h e = absurd h
Related-ok R (ok a) (panic q) h e = absurd h
Related-ok R (err d) n h e = cc e
Related-ok R (panic q) n h e = cc e

-- Three outcomes, of which the second is related to both others.
pub Related-trans {ℓ κ ι} :
    {A : Type ℓ} {B : Type κ} {C : Type ι} (R : A → B → Type 0) (S : B → C → Type 0)
    (T : A → C → Type 0) (m : Outcome A) (n : Outcome B) (o : Outcome C)
    → ((a : A) (b : B) (c : C) → R a b → S b c → T a c)
    → Related R m n
    → Related S n o
    → Related T m o
Related-trans R S T (ok a) (ok b) (ok c) k h j = k a b c h j
Related-trans R S T (err a) (err b) (err c) k h j = h ∙ j
Related-trans R S T (panic a) (panic b) (panic c) k h j = h ∙ j
Related-trans R S T (ok a) (ok b) (err c) k h j = absurd j
Related-trans R S T (ok a) (ok b) (panic c) k h j = absurd j
Related-trans R S T (err a) (err b) (ok c) k h j = absurd j
Related-trans R S T (err a) (err b) (panic c) k h j = absurd j
Related-trans R S T (panic a) (panic b) (ok c) k h j = absurd j
Related-trans R S T (panic a) (panic b) (err c) k h j = absurd j
Related-trans R S T (ok a) (err b) o k h j = absurd h
Related-trans R S T (ok a) (panic b) o k h j = absurd h
Related-trans R S T (err a) (ok b) o k h j = absurd h
Related-trans R S T (err a) (panic b) o k h j = absurd h
Related-trans R S T (panic a) (ok b) o k h j = absurd h
Related-trans R S T (panic a) (err b) o k h j = absurd h

-- A chain that ends with a step that always has a value.
pub Related-ends {ℓ κ ι} :
    {A : Type ℓ} {B : Type κ} {C : Type ι} (R : A → B → Type 0) (S : C → B → Type 0) (m : Outcome A)
    (n : Outcome B) (f : A → C)
    → ((a : A) (b : B) → R a b → S (f a) b)
    → Related R m n
    → Related S (m >>= λ a. ok (f a)) n
Related-ends R S (ok a) (ok b) f k h = k a b h
Related-ends R S (err a) (err b) f k h = h
Related-ends R S (panic a) (panic b) f k h = h
Related-ends R S (ok a) (err b) f k h = absurd h
Related-ends R S (ok a) (panic b) f k h = absurd h
Related-ends R S (err a) (ok b) f k h = absurd h
Related-ends R S (err a) (panic b) f k h = absurd h
Related-ends R S (panic a) (ok b) f k h = absurd h
Related-ends R S (panic a) (err b) f k h = absurd h

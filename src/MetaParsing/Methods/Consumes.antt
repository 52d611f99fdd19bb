-- ===== src/MetaParsing/Methods/Consumes.antt =====
-- The parsers of method definitions in src/meta_parsing.rs take a front part of their text.
use aurora_engine.Prelude.{
  ℕ, inl, inr, ◌+◌, ◌≤◌, ◌≡◌, refl, sym, ◌∙◌, ap, some, [], ◌∷◌, ◌++◌, append_assoc, arith, Outcome,
  ok, err, panic, ◌>>=◌, Returns, Bytes, length, take, drop, ◌==◌, length-append, take-append-drop,
  length-take, Bool-cases, Option-cases,
}
use aurora_engine.MetaParsing.Methods.{
  is_arg_start, arg_chars, split_at, parse_ident, find, parse_type_raw, consume,
}

module _ {ℓ} {A : Type ℓ} (remains : A → Bytes) where
  -- No panic, and on success `text` is a part of at least `n` bytes and what remains.
  abbrev pub Consumes : ℕ → Bytes → Outcome A → Type 0
  Consumes n text (ok a) = (front : Bytes) × (text ≡ front ++ remains a) × (n ≤ length front)
  Consumes n text (err e) = Unit
  Consumes n text (panic p) = ⊥

  Consumes-append :
      (n k : ℕ) (text mid front : Bytes) (o : Outcome A)
      → text ≡ front ++ mid
      → n ≤ length front
      → Consumes k mid o
      → Consumes (n + k) text o
  Consumes-append n k text mid front (ok a) e h (front', e', h') = (
    front ++ front',
    e ∙ ap (λ x. front ++ x) e' ∙ sym (append_assoc front front' _),
    omega (arith, length-append front front'),
  )
  Consumes-append n k text mid front (err _) e h c = c
  Consumes-append n k text mid front (panic _) e h c = c

  pub Consumes-Returns : (n : ℕ) (text : Bytes) (o : Outcome A) → Consumes n text o → Returns o
  Consumes-Returns n text (ok a) h = tt
  Consumes-Returns n text (err e) h = tt
  Consumes-Returns n text (panic p) h = h

  pub Consumes-weaken :
      (n k : ℕ) (text : Bytes) (o : Outcome A) → k ≤ n → Consumes n text o → Consumes k text o
  Consumes-weaken n k text (ok a) h (front, e, l) = (front, e, omega arith)
  Consumes-weaken n k text (err e) h c = c
  Consumes-weaken n k text (panic p) h c = c

  pub Consumes-after :
      {B : Type ℓ} (n : ℕ) (text : Bytes) (m : Outcome B) (f : B → Outcome A)
      → Returns m
      → ((b : B) → Consumes n text (f b))
      → Consumes n text (m >>= f)
  Consumes-after n text (ok b) f h k = k b
  Consumes-after n text (err e) f h k = tt
  Consumes-after n text (panic p) f h k = h

module _ {ℓ κ} {A : Type ℓ} {B : Type κ} (remains : A → Bytes) (remains' : B → Bytes) where
  pub Consumes->>= :
      (n k : ℕ) (text : Bytes) (m : Outcome A) (f : A → Outcome B)
      → Consumes remains n text m
      → ((a : A) → length (remains a) + n ≤ length text → Consumes remains' k (remains a) (f a))
      → Consumes remains' (n + k) text (m >>= f)
  Consumes->>= n k text (ok a) f (front, e, h) next =
      let shorter : length (remains a) + n ≤ length text =
        omega (arith, ap length e, length-append front (remains a)) in
      Consumes-append remains' n k text (remains a) front (f a) e h (next a shorter)
  Consumes->>= n k text (err _) f h next = tt
  Consumes->>= n k text (panic _) f h next = h

abbrev pub rest_of {ℓ} : {A : Type ℓ} → A × Bytes → Bytes
rest_of p = p.1

abbrev pub all_of : Bytes → Bytes
all_of remains = remains

pub split_at-ok :
    (i : ℕ) (text : Bytes) → i ≤ length text → split_at i text ≡ ok (take i text, drop i text)
unfolding split_at
split_at-ok i text h = ground arith

split_at-Consumes :
    (n i : ℕ) (text : Bytes) → n ≤ i → i ≤ length text → Consumes rest_of n text (split_at i text)
split_at-Consumes n i text below h =
    rw (split_at-ok i text h)
      (take i text, sym (take-append-drop i text), omega (arith, length-take i text h))

arg_chars-length : (text : Bytes) → arg_chars text ≤ length text
unfolding arg_chars
arg_chars-length [] = omega arith
arg_chars-length (c ∷ cs) = ground (arith, arg_chars-length cs)

pub parse_ident-Consumes : (text : Bytes) → Consumes rest_of 1 text (parse_ident text)
unfolding parse_ident
parse_ident-Consumes [] = tt
parse_ident-Consumes (c ∷ cs) = elim (Bool-cases (is_arg_start c)) [
  | inr e ↦ rw e tt
  | inl e ↦ rw e (
      split_at-Consumes 1 (arg_chars cs + 1) (c ∷ cs) (omega arith)
        (omega (arith, arg_chars-length cs)))
]

find-length : (c : ℕ) (text : Bytes) {i : ℕ} → find c text ≡ some i → i ≤ length text
unfolding find
find-length c [] h = ground arith
find-length c (d ∷ ds) h = elim (Option-cases (find c ds)) [
  | inl none_left ↦ ground arith
  | inr (j, e) ↦ ground (arith, find-length c ds e)
]

pub parse_type_raw-Consumes : (text : Bytes) → Consumes rest_of 0 text (parse_type_raw text)
unfolding parse_type_raw
parse_type_raw-Consumes text = elim (Option-cases (find b' ' text)) [
  | inl e ↦ rw e tt
  | inr (i, e) ↦ rw e (split_at-Consumes 0 i text (omega arith) (find-length b' ' text e))
]

pub consume-Consumes : (c : ℕ) (text : Bytes) → Consumes all_of 1 text (consume c text)
unfolding consume
consume-Consumes c [] = tt
consume-Consumes c (d ∷ ds) = elim (Bool-cases (d == c)) [
  | inl e ↦ rw e (d ∷ [], refl, omega arith)
  | inr e ↦ rw e tt
]

abbrev pub nothing : (text : Bytes) → (front : Bytes) × (text ≡ front ++ text) × (0 ≤ length front)
nothing text = ([], refl, omega arith)

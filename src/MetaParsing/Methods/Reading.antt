-- ===== src/MetaParsing/Methods/Reading.antt =====
-- The parsers of src/meta_parsing.rs on names, types and arguments that are written out.
use aurora_engine.Prelude.{
  ℕ, ◌+◌, ◌≡◌, refl, ◌∙◌, ap, true, false, [], ◌∷◌, ◌++◌, some, arith, ok, >>=-next, Bytes, All,
  length, ◌==◌, length-append, take-append, drop-append,
}
use aurora_engine.MetaParsing.Syntax.{Arg, MetaPackages}
use aurora_engine.MetaParsing.ArgTypes.{parse_type}
use aurora_engine.MetaParsing.Methods.{
  is_arg_start, is_arg_char, arg_chars, split_at, parse_ident, find, parse_type_raw, consume,
  parse_arg,
}
use aurora_engine.MetaParsing.Methods.Consumes.{split_at-ok}

-- A letter or `_`, and then letters, digits and `_`.
abbrev pub IsIdent : Bytes → Type 0
IsIdent [] = ⊥
IsIdent (c ∷ cs) = (is_arg_start c ≡ true) × All (λ d. is_arg_char d ≡ true) cs

-- What can follow a name.
abbrev pub Stops : Bytes → Type 0
Stops [] = Unit
Stops (c ∷ cs) = is_arg_char c ≡ false

abbrev pub HasNoSpace : Bytes → Type 0
HasNoSpace = All (λ c. (c == b' ') ≡ false)

arg_chars-append :
    (cs rest : Bytes)
    → All (λ d. is_arg_char d ≡ true) cs
    → Stops rest
    → arg_chars (cs ++ rest) ≡ length cs
unfolding arg_chars
arg_chars-append [] [] h s = refl
arg_chars-append [] (c ∷ rest) h s = rw s refl
arg_chars-append (c ∷ cs) rest (hc, h) s = rw (hc, arg_chars-append cs rest h s) (omega arith)

split_at-append :
    (front rest : Bytes) (i : ℕ) → i ≡ length front → split_at i (front ++ rest) ≡ ok (front, rest)
split_at-append front rest i e =
    rw
      (
        e,
        split_at-ok (length front) (front ++ rest) (omega (arith, length-append front rest)),
        take-append,
        drop-append,
      )
      refl

pub parse_ident-append :
    (name rest : Bytes) → IsIdent name → Stops rest → parse_ident (name ++ rest) ≡ ok (name, rest)
unfolding parse_ident
parse_ident-append [] rest h s = absurd h
parse_ident-append (c ∷ cs) rest (hc, h) s =
    rw (hc, arg_chars-append cs rest h s)
      (split_at-append (c ∷ cs) rest (length cs + 1) (omega arith))

find-append :
    (raw rest : Bytes) → HasNoSpace raw → find b' ' (raw ++ b' ' ∷ rest) ≡ some (length raw)
unfolding find
find-append [] rest h = refl
find-append (c ∷ cs) rest (hc, h) = rw (hc, find-append cs rest h) (ap some (omega arith))

parse_type_raw-append :
    (raw rest : Bytes)
    → HasNoSpace raw
    → parse_type_raw (raw ++ b' ' ∷ rest) ≡ ok (raw, b' ' ∷ rest)
unfolding parse_type_raw
parse_type_raw-append raw rest h =
    rw (find-append raw rest h) (split_at-append raw (b' ' ∷ rest) (length raw) refl)

-- An argument, and what follows.
abbrev pub arg_text : Arg → Bytes → Bytes
arg_text a rest = a.type_raw ++ b' ' ∷ (a.name ++ rest)

module _ (m : MetaPackages) where
  -- An argument whose type, in its own words, is `a.t`.
  pub record IsArg (a : Arg) : Type 0 where
    pub type_start : (c : ℕ) × (cs : Bytes) × (a.type_raw ≡ c ∷ cs) × (is_arg_start c ≡ true)
    pub no_space : HasNoSpace a.type_raw
    pub parses : parse_type m a.type_raw ≡ ok a.t
    pub is_name : IsIdent a.name

  pub parse_arg-arg_text :
      (a : Arg) (rest : Bytes) → IsArg a → Stops rest → parse_arg m (arg_text a rest) ≡ ok (a, rest)
  unfolding parse_arg consume
  parse_arg-arg_text a rest h s =
      >>=-next (parse_type_raw (arg_text a rest)) _
        (parse_type_raw-append a.type_raw (a.name ++ rest) h.no_space)
      ∙ >>=-next (parse_type m a.type_raw) _ h.parses
      ∙ >>=-next (parse_ident (a.name ++ rest)) _ (parse_ident-append a.name rest h.is_name s)

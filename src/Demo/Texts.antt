-- ===== src/Demo/Texts.antt =====
-- A reader of JSON texts: a text in quotes is a string, any other an object of two members.
use aurora_engine.Prelude.{
  ℕ, ◌≡◌, refl, ap, false, Option, some, none, List, [], ◌∷◌, ◌++◌, codes, ◌==◌, if◌then◌else◌,
}
use aurora_engine.Json.{F64}
use aurora_engine.Json.Texts.{Parsed, Members, end, Rjson, text_bytes}

abbrev without_last : List ℕ → List ℕ
without_last [] = []
without_last (c ∷ []) = []
without_last (c ∷ d ∷ chars) = c ∷ without_last (d ∷ chars)

pub without_last-append : (chars : List ℕ) (c : ℕ) → without_last (chars ++ c ∷ []) ≡ chars
without_last-append [] c = refl
without_last-append (d ∷ []) c = refl
without_last-append (d ∷ e ∷ chars) c = ap (λ r. d ∷ r) (without_last-append (e ∷ chars) c)

abbrev pub members : Members
members = Members.member (codes "to") (Parsed.string (codes "bob")) (
    Members.member (codes "amount") (Parsed.number (F64.scaled false 1 0))
      (Members.member (codes "amount") (Parsed.number (F64.scaled false 5 1)) end))

abbrev parse : List ℕ → ℕ → Option Parsed
parse [] i = none
parse (c ∷ chars) i =
    if c == b'"'
    then some (Parsed.string (text_bytes (without_last chars)))
    else some (Parsed.object members)

abbrev pub rjson : Rjson
rjson = record {
  parse = parse;
  parse-string =
      λ chars h. ap (λ t. some (Parsed.string (text_bytes t))) (without_last-append chars b'"');
}

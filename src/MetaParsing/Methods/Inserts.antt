-- ===== src/MetaParsing/Methods/Inserts.antt =====
-- The `HashMap` of types in src/meta_parsing.rs: what an insertion changes.
use aurora_engine.Prelude.{
  ◌≡◌, refl, ◌∙◌, ap, false, none, some, List, [], ◌∷◌, Bytes, bytes_eq, bytes_eq_iff,
  if◌then◌else◌, Bool-cases, inl, inr, arith,
}
use aurora_engine.MetaParsing.Syntax.{Method}
use aurora_engine.MetaParsing.Methods.{find_type, without_type, insert_type}

abbrev pub Types : Type 0
Types = List (Bytes × Method)

-- No name stands twice.
abbrev pub IsMap : Types → Type 0
IsMap [] = Unit
IsMap ((name, t) ∷ types) = (find_type types name ≡ none) × IsMap types

find_type-without_same : (k : Bytes) (types : Types) → find_type (without_type k types) k ≡ none
find_type-without_same k [] = refl
find_type-without_same k ((j, u) ∷ types) = elim (Bool-cases (bytes_eq j k)) [
  | inl e ↦ rw e (find_type-without_same k types)
  | inr e ↦ rw (e, e) (find_type-without_same k types)
]

find_type-without :
    (k n : Bytes) (types : Types)
    → bytes_eq k n ≡ false
    → find_type (without_type k types) n ≡ find_type types n
find_type-without k n [] h = refl
find_type-without k n ((j, u) ∷ types) h = elim (Bool-cases (bytes_eq j k)) [
  | inl e ↦
      let other : bytes_eq j n ≡ false =
        ground (arith, bytes_eq_iff j k, bytes_eq_iff k n, bytes_eq_iff j n) in
      rw (e, other) (find_type-without k n types h)
  | inr e ↦ rw e (ap (λ o. if bytes_eq j n then some u else o) (find_type-without k n types h))
]

-- A type is found under its name, and no other name finds another type.
pub find_type-insert_type :
    (name : Bytes) (t : Method) (types : Types) (n : Bytes)
    → find_type (insert_type name t types) n
      ≡ (if bytes_eq name n then some t else find_type types n)
find_type-insert_type name t types n = elim (Bool-cases (bytes_eq name n)) [
  | inl e ↦ rw e refl
  | inr e ↦ rw e (find_type-without name n types e)
]

none_without :
    (k n : Bytes) (types : Types)
    → find_type types n ≡ none
    → find_type (without_type k types) n ≡ none
none_without k n types h = elim (Bool-cases (bytes_eq k n)) [
  | inl e ↦
      let same : k ≡ n = (bytes_eq_iff k n).0 e in rw (← same) (find_type-without_same k types)
  | inr e ↦ find_type-without k n types e ∙ h
]

without_type-IsMap : (k : Bytes) (types : Types) → IsMap types → IsMap (without_type k types)
without_type-IsMap k [] h = tt
without_type-IsMap k ((j, u) ∷ types) (absent, h) = elim (Bool-cases (bytes_eq j k)) [
  | inl e ↦ rw e (without_type-IsMap k types h)
  | inr e ↦ rw e (none_without k j types absent, without_type-IsMap k types h)
]

pub insert_type-IsMap :
    (name : Bytes) (t : Method) (types : Types) → IsMap types → IsMap (insert_type name t types)
insert_type-IsMap name t types h =
    (find_type-without_same name types, without_type-IsMap name types h)

-- ===== src/MetaParsing/Methods/Covers.antt =====
-- `MethodAndTypes::parse` of src/meta_parsing.rs takes a text apart without a gap, and stores the last
-- type of each name.
use mathlib.Core.Path.{subst}
use aurora_engine.Prelude.{
  ℕ, zero, suc, ◌≡◌, refl, sym, ◌∙◌, ap, Bool, true, false, Option, none, some, List, [], ◌∷◌, ◌++◌,
  append_assoc, append-nil, ok, ok_inj, length, >>=-ok, Bytes, bytes_eq, if◌then◌else◌,
}
use aurora_engine.MetaParsing.Syntax.{Method, MetaPackages, MethodAndTypes}
use aurora_engine.MetaParsing.Methods.{
  parse_method, types_loop, parse_method_and_types, find_type, insert_type,
}
use aurora_engine.MetaParsing.Methods.Inserts.{
  Types, IsMap, find_type-insert_type, insert_type-IsMap,
}
use aurora_engine.MetaParsing.Methods.Splits.{parse_method-raw}

abbrev pub texts : List Method → Bytes
texts [] = []
texts (t ∷ types) = t.raw ++ texts types

abbrev pub names : List Method → List Bytes
names [] = []
names (t ∷ types) = t.name ∷ names types

abbrev pub or_else : Option Method → Option Method → Option Method
or_else (some t) other = some t
or_else none other = other

-- The last type of this name.
abbrev pub last_named : List Method → Bytes → Option Method
last_named [] name = none
last_named (t ∷ types) name =
    or_else (last_named types name) (if bytes_eq t.name name then some t else none)

abbrev inserted : Types → List Method → Types
inserted parsed [] = parsed
inserted parsed (t ∷ types) = inserted (insert_type t.name t parsed) types

or_else-if :
    (b : Bool) (o r : Option Method) (t : Method)
    → or_else o (if b then some t else r) ≡ or_else (or_else o (if b then some t else none)) r
or_else-if b (some u) r t = refl
or_else-if true none r t = refl
or_else-if false none r t = refl

find_type-inserted :
    (parsed : Types) (types : List Method) (name : Bytes)
    → find_type (inserted parsed types) name
      ≡ or_else (last_named types name) (find_type parsed name)
find_type-inserted parsed [] name = refl
find_type-inserted parsed (t ∷ types) name =
    find_type-inserted (insert_type t.name t parsed) types name
    ∙ ap (or_else (last_named types name)) (find_type-insert_type t.name t parsed name)
    ∙ or_else-if (bytes_eq t.name name) (last_named types name) (find_type parsed name) t

inserted-IsMap :
    (parsed : Types) (types : List Method) → IsMap parsed → IsMap (inserted parsed types)
inserted-IsMap parsed [] h = h
inserted-IsMap parsed (t ∷ types) h =
    inserted-IsMap (insert_type t.name t parsed) types (insert_type-IsMap t.name t parsed h)

or_else-none : (o : Option Method) → or_else o none ≡ o
or_else-none none = refl
or_else-none (some t) = refl

module _ (m : MetaPackages) where
  -- Each type is what `Method::parse` reads of the text from there on.
  abbrev pub AreParsed : List Method → Type 0
  AreParsed [] = Unit
  AreParsed (t ∷ types) =
      (parse_method m (t.raw ++ texts types) ≡ ok (t, texts types)) × AreParsed types

  -- What the text of a definition holds, and what is kept of it.
  pub record Covers (text : Bytes) (d : MethodAndTypes) : Type 0 where
    pub types : List Method
    pub whole : d.method.raw ++ texts types ≡ text
    pub method_parsed : parse_method m text ≡ ok (d.method, texts types)
    pub types_parsed : AreParsed types
    pub in_order : d.type_sequences ≡ names types
    pub last_found : (name : Bytes) → find_type d.types name ≡ last_named types name
    pub is_map : IsMap d.types

  -- What the loop has read, and what it has stored.
  record Reads (sequences : List Bytes) (parsed : Types) (text : Bytes) (end : List Bytes × Types)
      : Type 0 where
    types : List Method
    whole : texts types ≡ text
    are_parsed : AreParsed types
    in_order : end.0 ≡ sequences ++ names types
    stored : end.1 ≡ inserted parsed types

  types_loop-Reads :
      (fuel : ℕ) (sequences : List Bytes) (parsed : Types) (text : Bytes) {end : List Bytes × Types}
      → types_loop m fuel sequences parsed text ≡ ok end
      → Reads sequences parsed text end
  unfolding types_loop
  types_loop-Reads fuel sequences parsed [] {end} e = record {
    types = [];
    whole = refl;
    are_parsed = tt;
    in_order = rw append-nil (sym (ap (λ r. r.0) (ok_inj e)));
    stored = sym (ap (λ r. r.1) (ok_inj e));
  }
  types_loop-Reads zero sequences parsed (c ∷ cs) e = cc
  types_loop-Reads (suc fuel) sequences parsed (c ∷ cs) e =
      let ((ty, rest), e1, e2) = >>=-ok (parse_method m (c ∷ cs)) _ e in
      let (whole, _) = parse_method-raw m (c ∷ cs) e1 in
      let r = types_loop-Reads fuel _ (insert_type ty.name ty parsed) rest e2 in
      record {
        types = ty ∷ r.types;
        whole = ap (λ x. ty.raw ++ x) r.whole ∙ whole;
        are_parsed = (rw (r.whole, whole, e1) refl, r.are_parsed);
        in_order = r.in_order ∙ append_assoc sequences (ty.name ∷ []) (names r.types);
        stored = r.stored;
      }

  -- A parsed definition has nothing else in it than its method and its types: their own texts, put
  -- together in the order of the text, are the text, each is what the method parser reads from
  -- there on, and `type_sequences` has the types' names in that order. The map has each name once,
  -- and under it the last type of that name.
  pub parse_method_and_types-Covers :
      (text : Bytes) {definition : MethodAndTypes}
      → parse_method_and_types m text ≡ ok definition
      → Covers text definition
  unfolding parse_method_and_types
  parse_method_and_types-Covers text {definition} e =
      let ((method, rest), e1, e2) = >>=-ok (parse_method m text) _ e in
      let ((sequences, parsed), e3, e4) = >>=-ok (types_loop m (length rest) [] [] rest) _ e2 in
      let (whole, _) = parse_method-raw m text e1 in
      let r = types_loop-Reads (length rest) [] [] rest e3 in
      subst (Covers text) (ok_inj e4) (record {
        types = r.types;
        whole = ap (λ x. method.raw ++ x) r.whole ∙ whole;
        method_parsed = rw r.whole e1;
        types_parsed = r.are_parsed;
        in_order = r.in_order;
        last_found = λ name.
            ap (λ s. find_type s name) r.stored
            ∙ find_type-inserted [] r.types name
            ∙ or_else-none (last_named r.types name);
        is_map = subst IsMap (sym r.stored) (inserted-IsMap [] r.types tt);
      })

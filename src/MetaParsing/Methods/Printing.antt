-- ===== src/MetaParsing/Methods/Printing.antt =====
-- Definitions written out are parsed back: `Method::parse` and `MethodAndTypes::parse` of
-- src/meta_parsing.rs.
use aurora_engine.Prelude.{
  ℕ, zero, suc, ◌+◌, ◌-◌, ◌≤◌, ◌<◌, ◌≡◌, refl, sym, ◌∙◌, ap, true, List, [], ◌∷◌, ◌++◌,
  append_assoc, append-nil, arith, ok, >>=-next, ◌>>=◌, Bytes, All, length, length-append,
}
use aurora_engine.MetaParsing.Syntax.{Arg, Method, MetaPackages}
use aurora_engine.MetaParsing.Methods.{
  is_arg_start, is_arg_char, split_at, parse_ident, consume, starts_with, parse_arg, args_loop,
  some_args, parse_args, parse_method, types_loop, parse_method_and_types, insert_type,
}
use aurora_engine.MetaParsing.Methods.Consumes.{split_at-ok}
use aurora_engine.MetaParsing.Methods.Splits.{take_front}
use aurora_engine.MetaParsing.Methods.Reading.{
  IsIdent, Stops, IsArg, arg_text, parse_ident-append, parse_arg-arg_text,
}

-- The arguments after the first one, and what follows.
abbrev pub more_args : List Arg → Bytes → Bytes
more_args [] rest = rest
more_args (a ∷ args) rest = b',' ∷ arg_text a (more_args args rest)

-- The arguments and the closing parenthesis, and what follows.
abbrev pub args_text : List Arg → Bytes → Bytes
args_text [] rest = b')' ∷ rest
args_text (a ∷ args) rest = arg_text a (more_args args (b')' ∷ rest))

abbrev pub method_text : Bytes → List Arg → Bytes → Bytes
method_text name args rest = name ++ b'(' ∷ args_text args rest

-- Long enough that each argument has a turn.
length-more_args :
    (args : List Arg) (rest : Bytes) → length args + length rest ≤ length (more_args args rest)
length-more_args [] rest = omega arith
length-more_args (a ∷ args) rest = omega (
  arith,
  length-more_args args rest,
  length-append a.type_raw (b' ' ∷ (a.name ++ more_args args rest)),
  length-append a.name (more_args args rest),
)

more_args-Stops : (args : List Arg) (rest : Bytes) → Stops (more_args args (b')' ∷ rest))
unfolding is_arg_char
more_args-Stops [] rest = refl
more_args-Stops (a ∷ args) rest = refl

arg_text-append : (a : Arg) (x y : Bytes) → arg_text a (x ++ y) ≡ arg_text a x ++ y
arg_text-append a x y = simp (append_assoc)

more_args-append : (args : List Arg) (x y : Bytes) → more_args args (x ++ y) ≡ more_args args x ++ y
more_args-append [] x y = refl
more_args-append (a ∷ args) x y =
    ap (λ t. b',' ∷ t)
      (ap (arg_text a) (more_args-append args x y) ∙ arg_text-append a (more_args args x) y)

args_text-append :
    (args : List Arg) (rest : Bytes) → args_text args rest ≡ args_text args [] ++ rest
args_text-append [] rest = refl
args_text-append (a ∷ args) rest =
    ap (arg_text a) (more_args-append args (b')' ∷ []) rest)
    ∙ arg_text-append a (more_args args (b')' ∷ [])) rest

method_text-append :
    (name : Bytes) (args : List Arg) (rest : Bytes)
    → method_text name args rest ≡ method_text name args [] ++ rest
method_text-append name args rest =
    ap (λ t. name ++ b'(' ∷ t) (args_text-append args rest)
    ∙ sym (append_assoc name (b'(' ∷ args_text args []) rest)

module _ (m : MetaPackages) where
  args_loop-more_args :
      (args read : List Arg) (fuel : ℕ) (rest : Bytes)
      → All (IsArg m) args
      → length args < fuel
      → args_loop m fuel read (more_args args (b')' ∷ rest)) ≡ ok (read ++ args, b')' ∷ rest)
  unfolding args_loop starts_with consume
  args_loop-more_args args read zero rest h l = absurd (omega arith)
  args_loop-more_args [] read (suc fuel) rest h l = rw append-nil refl
  args_loop-more_args (a ∷ args) read (suc fuel) rest (ha, h) l =
      >>=-next (parse_arg m (arg_text a (more_args args (b')' ∷ rest)))) _
        (parse_arg-arg_text m a (more_args args (b')' ∷ rest)) ha (more_args-Stops args rest))
      ∙ args_loop-more_args args (read ++ a ∷ []) fuel rest h (omega arith)
      ∙ ap (λ x. ok (x, b')' ∷ rest)) (append_assoc read (a ∷ []) args)

  some_args-start :
      (text : Bytes) (c : ℕ) (cs : Bytes)
      → text ≡ c ∷ cs
      → is_arg_start c ≡ true
      → some_args m text
        ≡ (parse_arg m text >>= λ (arg, r). args_loop m (length r + 1) (arg ∷ []) r)
  unfolding some_args
  some_args-start text c cs e s = rw (e, s) refl

  some_args-args_text :
      (args : List Arg) (rest : Bytes)
      → All (IsArg m) args
      → some_args m (args_text args rest) ≡ ok (args, b')' ∷ rest)
  unfolding some_args is_arg_start
  some_args-args_text [] rest h = refl
  some_args-args_text (a ∷ args) rest (ha, h) =
      let (c, cs, front, letter) = ha.type_start in
      let after = more_args args (b')' ∷ rest) in
      some_args-start (arg_text a after) c (cs ++ b' ' ∷ (a.name ++ after))
        (ap (λ x. x ++ b' ' ∷ (a.name ++ after)) front) letter
      ∙ >>=-next (parse_arg m (arg_text a after)) _
          (parse_arg-arg_text m a after ha (more_args-Stops args rest))
      ∙ args_loop-more_args args (a ∷ []) (length after + 1) rest h
          (omega (arith, length-more_args args (b')' ∷ rest)))

  parse_args-args_text :
      (args : List Arg) (rest : Bytes)
      → All (IsArg m) args
      → parse_args m (b'(' ∷ args_text args rest) ≡ ok (args, rest)
  unfolding parse_args consume
  parse_args-args_text args rest h =
      >>=-next (some_args m (args_text args rest)) _ (some_args-args_text args rest h)

  -- A method with these names and types, written out.
  abbrev pub written_method : Bytes → List Arg → Method
  written_method name args = record { name = name; raw = method_text name args []; args = args }

  parse_method-method_text :
      (name : Bytes) (args : List Arg) (rest : Bytes)
      → IsIdent name
      → All (IsArg m) args
      → parse_method m (method_text name args rest) ≡ ok (written_method name args, rest)
  unfolding parse_method is_arg_char
  parse_method-method_text name args rest hn h =
      let text = method_text name args rest in
      let whole : text ≡ method_text name args [] ++ rest = method_text-append name args rest in
      >>=-next (parse_ident text) _ (parse_ident-append name (b'(' ∷ args_text args rest) hn refl)
      ∙ >>=-next (parse_args m (b'(' ∷ args_text args rest)) _ (parse_args-args_text args rest h)
      ∙ >>=-next (split_at (length text - length rest) text) _
          (split_at-ok (length text - length rest) text (omega arith))
      ∙ ap (λ x. ok (record { name = name; raw = x; args = args }, rest))
          (take_front (method_text name args []) rest text whole)

  -- A name and arguments that can be read back.
  pub record IsHeading (h : Bytes × List Arg) : Type 0 where
    pub is_name : IsIdent h.0
    pub are_args : All (IsArg m) h.1

  -- The types of a definition, one behind the other.
  abbrev pub types_text : List (Bytes × List Arg) → Bytes
  types_text [] = []
  types_text ((name, args) ∷ types) = method_text name args (types_text types)

  abbrev pub type_names : List (Bytes × List Arg) → List Bytes
  type_names [] = []
  type_names ((name, args) ∷ types) = name ∷ type_names types

  -- The map after all insertions.
  abbrev pub inserted : List (Bytes × Method) → List (Bytes × List Arg) → List (Bytes × Method)
  inserted parsed [] = parsed
  inserted parsed ((name, args) ∷ types) =
      inserted (insert_type name (written_method name args) parsed) types

  types_loop-types_text :
      (types : List (Bytes × List Arg)) (fuel : ℕ) (sequences : List Bytes)
      (parsed : List (Bytes × Method))
      → All IsHeading types
      → length (types_text types) ≤ fuel
      → types_loop m fuel sequences parsed (types_text types)
        ≡ ok (sequences ++ type_names types, inserted parsed types)
  unfolding types_loop
  types_loop-types_text [] fuel sequences parsed h l = rw append-nil refl
  types_loop-types_text (([], args) ∷ types) fuel sequences parsed (ht, h) l = absurd (ht.is_name)
  types_loop-types_text ((c ∷ cs, args) ∷ types) zero sequences parsed (ht, h) l =
      absurd (omega arith)
  types_loop-types_text ((c ∷ cs, args) ∷ types) (suc fuel) sequences parsed (ht, h) l =
      let rest = types_text types in
      let whole = ap length (method_text-append (c ∷ cs) args rest) in
      let shorter : length rest ≤ fuel =
        omega (arith, whole, length-append (method_text (c ∷ cs) args []) rest) in
      >>=-next (parse_method m (method_text (c ∷ cs) args rest)) _
        (parse_method-method_text (c ∷ cs) args rest ht.is_name ht.are_args)
      ∙ types_loop-types_text types fuel (sequences ++ (c ∷ cs) ∷ [])
          (insert_type (c ∷ cs) (written_method (c ∷ cs) args) parsed) h shorter
      ∙ ap
          (λ x. ok (x, inserted (insert_type (c ∷ cs) (written_method (c ∷ cs) args) parsed) types))
          (append_assoc sequences ((c ∷ cs) ∷ []) (type_names types))

  -- A definition that is written out is parsed back: where the names are made of letters, digits and
  -- `_` and do not start with a digit, and each argument's type has no space, starts with a letter
  -- or `_` and is one that `parse_type` takes, `MethodAndTypes::parse` gives the method, its types'
  -- names in their order and the map from names to types, each with its own text.
  pub parse_method_and_types-types_text :
      (method : Bytes × List Arg) (types : List (Bytes × List Arg))
      → All IsHeading (method ∷ types)
      → parse_method_and_types m (types_text (method ∷ types))
        ≡ ok (record {
          method = written_method method.0 method.1;
          type_sequences = type_names types;
          types = inserted [] types;
        })
  unfolding parse_method_and_types
  parse_method_and_types-types_text (name, args) types (hm, h) =
      let rest = types_text types in
      >>=-next (parse_method m (method_text name args rest)) _
        (parse_method-method_text name args rest hm.is_name hm.are_args)
      ∙ >>=-next (types_loop m (length rest) [] [] rest) _
          (types_loop-types_text types (length rest) [] [] h (omega arith))

-- ===== src/MetaParsing/Methods.antt =====
-- The parser of method definitions in src/meta_parsing.rs: `parse_ident` to `MethodAndTypes::parse`,
-- and `method_signature`. A text is the list of its UTF-8 bytes; the parsers cut it only next to
-- ASCII characters.
pub mod Consumes
pub mod Inserts
pub mod Splits
pub mod Covers
pub mod Reading
pub mod Printing
use aurora_engine.Prelude.{
  ℕ, zero, suc, ◌+◌, ◌-◌, Bool, true, false, ◌&&◌, ◌||◌, Option, none, some, List, [], ◌∷◌, ◌++◌,
  Outcome, ok, panic, abort, out_of_fuel, ok_or, ◌>>=◌, Bytes, length, take, drop, leb, ◌==◌,
  if◌then◌else◌, bytes_eq, invalid_meta_transaction_method_name,
}
use aurora_engine.MetaParsing.Syntax
use aurora_engine.MetaParsing.ArgTypes.{parse_type, bad_method}

-- Return true if c can be used as first char of a evm method arg
unfoldable pub is_arg_start : ℕ → Bool
is_arg_start c = leb b'A' c && leb c b'Z' || leb b'a' c && leb c b'z' || c == b'_'

-- Return true if c can be used as consequent char of a evm method arg
unfoldable pub is_arg_char : ℕ → Bool
unfolding is_arg_start
is_arg_char c = is_arg_start c || leb b'0' c && leb c b'9'

-- `(text[..i], &text[i..])`
unfoldable pub split_at : ℕ → Bytes → Outcome (Bytes × Bytes)
split_at i text = if leb i (length text) then ok (take i text, drop i text) else panic abort

-- How many characters can follow in a name.
unfoldable pub arg_chars : Bytes → ℕ
arg_chars [] = 0
arg_chars (c ∷ cs) = let more = arg_chars cs in if is_arg_char c then more + 1 else 0

unfoldable pub parse_ident : Bytes → Outcome (Bytes × Bytes)
unfolding arg_chars split_at is_arg_start is_arg_char
parse_ident [] = bad_method
parse_ident (c ∷ chars) =
    if is_arg_start c then split_at (arg_chars chars + 1) (c ∷ chars) else bad_method

-- `text.find(c)`
unfoldable pub find : ℕ → Bytes → Option ℕ
find c [] = none
find c (d ∷ ds) =
    if d == c then some 0 else elim (find c ds) [ none ↦ none | some i ↦ some (i + 1) ]

unfoldable pub parse_type_raw : Bytes → Outcome (Bytes × Bytes)
unfolding split_at find
parse_type_raw text = do
  i ← ok_or (find b' ' text) invalid_meta_transaction_method_name
  split_at i text

-- Consume next char in text, it must be c or return parse error
unfoldable pub consume : ℕ → Bytes → Outcome Bytes
consume c [] = bad_method
consume c (d ∷ ds) = if d == c then ok ds else bad_method

unfoldable pub starts_with : Bytes → ℕ → Bool
starts_with [] c = false
starts_with (d ∷ ds) c = d == c

-- A `HashMap` of types is a list in which no name stands twice.
abbrev pub find_type : List (Bytes × Syntax.Method) → Bytes → Option Syntax.Method
find_type [] name = none
find_type ((known, t) ∷ types) name = if bytes_eq known name then some t else find_type types name

abbrev pub without_type : Bytes → List (Bytes × Syntax.Method) → List (Bytes × Syntax.Method)
without_type name [] = []
without_type name ((known, t) ∷ types) =
    let rest = without_type name types in if bytes_eq known name then rest else (known, t) ∷ rest

-- `parsed_types.insert(name, t)`: a type that was there under this name is dropped.
abbrev pub insert_type :
    Bytes → Syntax.Method → List (Bytes × Syntax.Method) → List (Bytes × Syntax.Method)
insert_type name t types = (name, t) ∷ without_type name types

module _ (m : Syntax.MetaPackages) where
  -- `Arg::parse`
  unfoldable pub parse_arg : Bytes → Outcome (Syntax.Arg × Bytes)
  unfolding parse_type_raw parse_type consume parse_ident
  parse_arg text = do
    (type_raw, remains) ← parse_type_raw text
    t ← parse_type m type_raw
    remains ← consume b' ' remains
    (name, remains) ← parse_ident remains
    ok (record { name = name; type_raw = type_raw; t = t }, remains)

  -- `while remains.starts_with(',')`
  unfoldable pub args_loop : ℕ → List Syntax.Arg → Bytes → Outcome (List Syntax.Arg × Bytes)
  unfolding parse_arg consume starts_with
  args_loop zero args remains = panic out_of_fuel
  args_loop (suc fuel) args remains = elim (starts_with remains b',') [
    | false ↦ ok (args, remains)
    | true ↦ do
      remains ← consume b',' remains
      (arg, r) ← parse_arg remains
      args_loop fuel (args ++ arg ∷ []) r
  ]

  -- The arguments before the closing parenthesis, which may be none.
  unfoldable pub some_args : Bytes → Outcome (List Syntax.Arg × Bytes)
  unfolding parse_arg args_loop is_arg_start
  some_args [] = bad_method
  some_args (first ∷ rest) =
      if is_arg_start first
      then (do (arg, r) ← parse_arg (first ∷ rest); args_loop (length r + 1) (arg ∷ []) r)
      else ok ([], first ∷ rest)

  -- `Arg::parse_args`
  unfoldable pub parse_args : Bytes → Outcome (List Syntax.Arg × Bytes)
  unfolding some_args consume
  parse_args text = do
    remains ← consume b'(' text
    (args, remains) ← some_args remains
    remains ← consume b')' remains
    ok (args, remains)

  -- `Method::parse`
  unfoldable pub parse_method : Bytes → Outcome (Syntax.Method × Bytes)
  unfolding parse_ident parse_args
  parse_method method_def = do
    (name, remains) ← parse_ident method_def
    (args, remains) ← parse_args remains
    (raw, _) ← split_at (length method_def - length remains) method_def
    ok (record { name = name; raw = raw; args = args }, remains)

  -- `while !types.is_empty()`, with `type_sequences` and `parsed_types`
  unfoldable pub types_loop :
      ℕ
      → List Bytes
      → List (Bytes × Syntax.Method)
      → Bytes
      → Outcome (List Bytes × List (Bytes × Syntax.Method))
  unfolding parse_method
  types_loop fuel sequences parsed [] = ok (sequences, parsed)
  types_loop zero sequences parsed (c ∷ types) = panic out_of_fuel
  types_loop (suc fuel) sequences parsed (c ∷ types) = do
    (ty, remains) ← parse_method (c ∷ types)
    types_loop fuel (sequences ++ ty.name ∷ []) (insert_type ty.name ty parsed) remains

  -- `MethodAndTypes::parse`
  unfoldable pub parse_method_and_types : Bytes → Outcome Syntax.MethodAndTypes
  unfolding parse_method types_loop
  parse_method_and_types method_def = do
    (method, types) ← parse_method method_def
    (sequences, parsed) ← types_loop (length types) [] [] types
    ok (record { method = method; type_sequences = sequences; types = parsed })

-- The types of the arguments, a comma between two.
abbrev signature_args : List Syntax.Arg → Bytes
signature_args [] = []
signature_args (arg ∷ []) = arg.type_raw
signature_args (arg ∷ more ∷ args) = arg.type_raw ++ b',' ∷ signature_args (more ∷ args)

unfoldable pub method_signature : Syntax.MethodAndTypes → Bytes
method_signature m = m.method.name ++ b'(' ∷ signature_args m.method.args ++ b')' ∷ []

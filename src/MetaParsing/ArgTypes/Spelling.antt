-- ===== src/MetaParsing/ArgTypes/Spelling.antt =====
-- `parse_type` of src/meta_parsing.rs on the tokens of a type.
use aurora_engine.Prelude.{
  ℕ, ◌+◌, ◌≤◌, ◌≡◌, refl, ◌∙◌, true, false, none, some, List, [], ◌∷◌, ◌++◌, append_assoc,
  append-nil, arith, ok, Bytes, ltb,
}
use aurora_engine.MetaParsing.Syntax.{
  ArgType, array, address, uint, int, string, bool, bytes, byte, custom, Token, bracket_open,
  bracket_close, literal_integer, type_address, type_uint, type_int, type_string, type_bool,
  type_bytes, type_byte, identifier, MetaPackages,
}
use aurora_engine.MetaParsing.ArgTypes.{
  TypeParser, type_step, type_loop, start, parse_type, parse_u64,
}
use aurora_engine.MetaParsing.ArgTypes.Depth.{dimensions}

abbrev pub Tokens : Type 0
Tokens = List (Token × Bytes)

-- The token of a type that is no array.
pub data Base : ArgType → Token → Bytes → Type 0 where
  is_address : (s : Bytes) → Base address type_address s
  is_uint : (s : Bytes) → Base uint type_uint s
  is_int : (s : Bytes) → Base int type_int s
  is_string : (s : Bytes) → Base string type_string s
  is_bool : (s : Bytes) → Base bool type_bool s
  is_bytes : (s : Bytes) → Base bytes type_bytes s
  is_byte : (n : ℕ) (s : Bytes) → Base (byte n) (type_byte n) s
  is_custom : (s : Bytes) → Base (custom s) identifier s

-- The tokens of a type: a base type, and brackets for each dimension, the innermost first.
pub data Spells : ArgType → Tokens → Type 0 where
  base : {t : ArgType} {token : Token} {s : Bytes} → Base t token s → Spells t ((token, s) ∷ [])
  dynamic :
      {t : ArgType} {ts : Tokens} (a b : Bytes)
      → Spells t ts
      → Spells (array none t) (ts ++ (bracket_open, a) ∷ (bracket_close, b) ∷ [])
  fixed :
      {t : ArgType} {ts : Tokens} (n : ℕ) (a digits b : Bytes)
      → parse_u64 digits ≡ some n
      → Spells t ts
      → Spells
          (array (some n) t)
          (ts ++ (bracket_open, a) ∷ (literal_integer, digits) ∷ (bracket_close, b) ∷ [])

-- Between the brackets of two dimensions.
abbrev closed : ArgType → TypeParser
closed t = record {
  token = some t;
  open_bracket = false;
  array_depth = dimensions t;
  current_array_length = none;
}

type_loop-Base :
    {t : ArgType} {token : Token} {s : Bytes} (rest : Tokens)
    → Base t token s
    → type_loop start ((token, s) ∷ rest) ≡ type_loop (closed t) rest
unfolding type_loop type_step
type_loop-Base rest (is_address s) = refl
type_loop-Base rest (is_uint s) = refl
type_loop-Base rest (is_int s) = refl
type_loop-Base rest (is_string s) = refl
type_loop-Base rest (is_bool s) = refl
type_loop-Base rest (is_bytes s) = refl
type_loop-Base rest (is_byte n s) = refl
type_loop-Base rest (is_custom s) = refl

room : (n : ℕ) → n + 1 ≤ 10 → ltb n 10 ≡ true
room n h = ground arith

type_loop-Spells :
    {t : ArgType} {ts : Tokens} (rest : Tokens)
    → Spells t ts
    → dimensions t ≤ 10
    → type_loop start (ts ++ rest) ≡ type_loop (closed t) rest
unfolding type_loop type_step
type_loop-Spells rest (base b) h = type_loop-Base rest b
type_loop-Spells rest (dynamic {t} {ts} a b s) h =
    rw append_assoc (type_loop-Spells _ s (omega arith) ∙ rw (room (dimensions t) h) refl)
type_loop-Spells rest (fixed {t} {ts} n a digits b e s) h =
    rw append_assoc (type_loop-Spells _ s (omega arith) ∙ rw (e, room (dimensions t) h) refl)

-- The tokens of a type of at most ten dimensions are parsed as that type, array lengths included.
pub parse_type-Spells :
    (m : MetaPackages) (text : Bytes) {t : ArgType} {ts : Tokens}
    → m.lex text ≡ ts
    → Spells t ts
    → dimensions t ≤ 10
    → parse_type m text ≡ ok t
unfolding parse_type
parse_type-Spells m text {ts = ts} e s h = rw (e, ← append-nil ts) (type_loop-Spells [] s h)

-- ===== src/MetaParsing/ArgTypes/Depth.antt =====
-- `parse_type` of src/meta_parsing.rs: it never panics, and how deep a type can be.
use aurora_engine.Prelude.{
  ℕ, ◌+◌, ◌≤◌, ◌≡◌, Option, none, some, List, [], ◌∷◌, arith, ok, Returns, >>=-Returns, >>=-ok,
  Bytes,
}
use aurora_engine.MetaParsing.Syntax.{ArgType, array, Token, bracket_open, MetaPackages}
use aurora_engine.MetaParsing.ArgTypes.{TypeParser, type_step, type_loop, start, parse_type}

-- The number of array brackets of a type.
abbrev pub dimensions : ArgType → ℕ
dimensions (array n t) = dimensions t + 1
dimensions _ = 0

abbrev token_depth : Option ArgType → ℕ
token_depth none = 0
token_depth (some t) = dimensions t

record IsShallow (s : TypeParser) : Type 0 where
  within : token_depth s.token ≤ s.array_depth
  bounded : s.array_depth ≤ 10

type_step-IsShallow :
    (s : TypeParser) (token : Token) (slice : Bytes) {s' : TypeParser}
    → IsShallow s
    → type_step s token slice ≡ ok s'
    → IsShallow s'
unfolding type_step
type_step-IsShallow s bracket_open slice h e = ground arith
type_step-IsShallow s _ slice h e = ground arith

type_loop-dimensions :
    (ts : List (Token × Bytes)) (s : TypeParser) {t : ArgType}
    → IsShallow s
    → type_loop s ts ≡ ok t
    → dimensions t ≤ 10
unfolding type_loop
type_loop-dimensions [] s h e = ground arith
type_loop-dimensions ((token, slice) ∷ ts) s h e =
    let (s', stepped, rest) = >>=-ok (type_step s token slice) _ e in
    type_loop-dimensions ts s' (type_step-IsShallow s token slice h stepped) rest

-- A parsed type has at most ten dimensions, whatever the lexer makes of the text.
pub parse_type-dimensions :
    (m : MetaPackages) (text : Bytes) {t : ArgType} → parse_type m text ≡ ok t → dimensions t ≤ 10
unfolding parse_type
parse_type-dimensions m text e = type_loop-dimensions (m.lex text) start (omega arith) e

type_step-Returns :
    (s : TypeParser) (token : Token) (slice : Bytes) → Returns (type_step s token slice)
unfolding type_step
type_step-Returns s _ slice = ground arith

type_loop-Returns : (ts : List (Token × Bytes)) (s : TypeParser) → Returns (type_loop s ts)
unfolding type_loop
type_loop-Returns [] s = ground arith
type_loop-Returns ((token, slice) ∷ ts) s =
    >>=-Returns (type_step s token slice) _ (type_step-Returns s token slice)
      λ s' _. type_loop-Returns ts s'

pub parse_type-Returns : (m : MetaPackages) (text : Bytes) → Returns (parse_type m text)
unfolding parse_type
parse_type-Returns m text = type_loop-Returns (m.lex text) start

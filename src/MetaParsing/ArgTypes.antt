-- ===== src/MetaParsing/ArgTypes.antt =====
-- `parse_type` of src/meta_parsing.rs.
pub mod Depth
pub mod Spelling
use aurora_engine.Prelude.{
  ℕ, zero, suc, ◌+◌, ◌-◌, ◌*◌, ◌^◌, Bool, true, false, ◌&&◌, Option, none, some, List, [], ◌∷◌,
  Outcome, ok, err, ok_or, ◌>>=◌, Bytes, leb, ltb, ◌==◌, if◌then◌else◌,
  invalid_meta_transaction_method_name,
}
use aurora_engine.Packages.{u64_mod}
use aurora_engine.MetaParsing.Syntax

abbrev pub bad_method {ℓ} : {A : Type ℓ} → Outcome A
bad_method = err invalid_meta_transaction_method_name

-- `str::parse::<u64>`: digits, at least one, after a `+` that may be left out; no overflow.
digits_value : ℕ → Bytes → Option ℕ
digits_value n [] = some n
digits_value n (c ∷ cs) =
    let more = digits_value (n * 10 + (c - b'0')) cs in
    if leb b'0' c && leb c b'9' && ltb (n * 10 + (c - b'0')) u64_mod then more else none

abbrev unsigned : Bytes → Option ℕ
unsigned [] = none
unsigned (c ∷ cs) = digits_value 0 (c ∷ cs)

pub parse_u64 : Bytes → Option ℕ
parse_u64 [] = none
parse_u64 (c ∷ cs) = if c == b'+' then unsigned cs else unsigned (c ∷ cs)

-- The local variables of the loop; `open` is `state == State::Open`.
pub record TypeParser : Type 0 where
  pub token : Option Syntax.ArgType
  pub open_bracket : Bool
  pub array_depth : ℕ
  pub current_array_length : Option ℕ

-- `token = Some(type_)`
abbrev read_type : TypeParser → Syntax.ArgType → Outcome TypeParser
read_type s t = ok (record s { token = some t })

abbrev read_length : TypeParser → Option ℕ → Outcome TypeParser
read_length s none = bad_method
read_length s (some n) = ok (record s { current_array_length = some n })

-- `Token::BracketOpen if token.is_some() && state == State::Close`, and the last arm.
abbrev open_at : TypeParser → Option Syntax.ArgType → Outcome TypeParser
open_at s none = bad_method
open_at s (some t) = if s.open_bracket then bad_method else ok (record s { open_bracket = true })

-- `Token::BracketClose`, below the greatest depth.
abbrev close_at : TypeParser → Option Syntax.ArgType → Outcome TypeParser
close_at s none = bad_method
close_at s (some t) =
    if s.open_bracket
    then ok (record {
      token = some (Syntax.ArgType.array s.current_array_length t);
      open_bracket = false;
      array_depth = s.array_depth + 1;
      current_array_length = none;
    })
    else bad_method

-- One turn of the loop.
type_step : TypeParser → Syntax.Token → Bytes → Outcome TypeParser
unfolding parse_u64 digits_value
type_step s Syntax.Token.identifier slice = read_type s (Syntax.ArgType.custom slice)
type_step s (Syntax.Token.type_byte n) slice = read_type s (Syntax.ArgType.byte n)
type_step s Syntax.Token.type_bytes slice = read_type s Syntax.ArgType.bytes
type_step s Syntax.Token.type_bool slice = read_type s Syntax.ArgType.bool
type_step s Syntax.Token.type_uint slice = read_type s Syntax.ArgType.uint
type_step s Syntax.Token.type_int slice = read_type s Syntax.ArgType.int
type_step s Syntax.Token.type_string slice = read_type s Syntax.ArgType.string
type_step s Syntax.Token.type_address slice = read_type s Syntax.ArgType.address
type_step s Syntax.Token.literal_integer slice = read_length s (parse_u64 slice)
type_step s Syntax.Token.bracket_open slice = open_at s s.token
type_step s Syntax.Token.bracket_close slice =
    if ltb s.array_depth 10 then close_at s s.token else bad_method
type_step s Syntax.Token.other slice = bad_method

-- `while lexer.token != Token::EndOfProgram`
type_loop : TypeParser → List (Syntax.Token × Bytes) → Outcome Syntax.ArgType
type_loop s [] = ok_or s.token invalid_meta_transaction_method_name
type_loop s ((token, slice) ∷ rest) = do s' ← type_step s token slice; type_loop s' rest

abbrev pub start : TypeParser
start = record { token = none; open_bracket = false; array_depth = 0; current_array_length = none }

unfoldable pub parse_type : Syntax.MetaPackages → Bytes → Outcome Syntax.ArgType
unfolding type_loop type_step
parse_type m field_type = type_loop start (m.lex field_type)

-- ===== src/Json/Reading.antt =====
-- The typed reading of src/json.rs.
use aurora_engine.Prelude.{
  ℕ, Bool, Option, none, some, List, [], ◌∷◌, Outcome, ok, panic, panic_utf8, ◌>>=◌, Bytes, codes,
}
use aurora_engine.Json.{cast, JsonValue, JsonValues, nil, cons, get, object}

abbrev pub failed_parse : Bytes
failed_parse = 0 ∷ codes "ERR_FAILED_PARSE_JSON"

-- The member of a value that must be an object.
abbrev pub member : JsonValue → Bytes → Option JsonValue
member (object o) key = get key o
member _ key = none

abbrev pub string_of : Option JsonValue → Option Bytes
string_of (some (JsonValue.string s)) = some s
string_of _ = none

abbrev pub number_of : ℕ → Option JsonValue → Option ℕ
number_of width (some (JsonValue.number n)) = some (cast width n)
number_of width _ = none

abbrev pub bool_of : Option JsonValue → Option Bool
bool_of (some (JsonValue.bool b)) = some b
bool_of _ = none

abbrev pub array_of : Option JsonValue → Option JsonValues
array_of (some (JsonValue.array values)) = some values
array_of _ = none

abbrev pub string : JsonValue → Bytes → Option Bytes
string v key = string_of (member v key)

abbrev pub u64 : JsonValue → Bytes → Option ℕ
u64 v key = number_of 64 (member v key)

abbrev pub u128 : JsonValue → Bytes → Option ℕ
u128 v key = number_of 128 (member v key)

abbrev pub bool : JsonValue → Bytes → Option Bool
bool v key = bool_of (member v key)

unfoldable pub parse_u8 : JsonValue → Outcome ℕ
parse_u8 (JsonValue.number n) = ok (cast 8 n)
parse_u8 _ = panic (panic_utf8 failed_parse)

-- `arr.iter().map(call).collect()`
abbrev pub map_values : {T : Type 0} → (JsonValue → Outcome T) → JsonValues → Outcome (List T)
map_values call nil = ok []
map_values call (cons v values) = do t ← call v; ts ← map_values call values; ok (t ∷ ts)

abbrev pub map_found :
    {T : Type 0} → (JsonValue → Outcome T) → Option JsonValues → Outcome (Option (List T))
map_found call none = ok none
map_found call (some values) = map_values call values >>= λ ts. ok (some ts)

abbrev pub array :
    {T : Type 0} → JsonValue → Bytes → (JsonValue → Outcome T) → Outcome (Option (List T))
array v key call = map_found call (array_of (member v key))

-- ===== src/Json/Printing.antt =====
-- `Debug` and `Display` of src/json.rs. How numbers are written, and how a quoted text, is the
-- standard library's and enters as two functions.
use aurora_engine.Prelude.{
  ◌≡◌, Bool, true, false, [], ◌∷◌, ◌++◌, append_assoc, append-nil, Bytes, codes, ◌==◌,
  if◌then◌else◌,
}
use aurora_engine.Json.{
  F64, JsonValue, null, number, bool, string, array, object, JsonValues, nil, cons, Fields, empty,
  field,
}

-- `PadAdapter` of the standard library: four spaces in front of each line.
abbrev pub indented : Bool → Bytes → Bytes
indented starts [] = []
indented starts (c ∷ text) =
    let rest = indented (c == 10) text in if starts then codes "    " ++ c ∷ rest else c ∷ rest

abbrev pub bool_text : Bool → Bytes
bool_text true = codes "true"
bool_text false = codes "false"

-- A text between quotes, as it is.
abbrev pub quoted : Bytes → Bytes
quoted text = codes "\"" ++ text ++ codes "\""

module _ (number_text : F64 → Bytes) (text_debug : Bytes → Bytes) where
  -- Arrays print on a line, objects one field a line.
  unfoldable mutual
    pub debug : JsonValue → Bytes
    debug null = codes "null"
    debug (string v) = quoted v
    debug (number v) = number_text v
    debug (bool v) = bool_text v
    debug (array v) = codes "[" ++ debug_items v ++ codes "]"
    debug (object empty) = codes "{}"
    debug (object (field k v fields)) =
        codes "{\n"
        ++ indented true (text_debug k ++ codes ": " ++ debug v ++ codes ",\n")
        ++ debug_fields fields
        ++ codes "}"

    debug_items : JsonValues → Bytes
    debug_items nil = []
    debug_items (cons v values) = debug v ++ debug_more values

    debug_more : JsonValues → Bytes
    debug_more nil = []
    debug_more (cons v values) = codes ", " ++ debug v ++ debug_more values

    debug_fields : Fields → Bytes
    debug_fields empty = []
    debug_fields (field k v fields) =
        indented true (text_debug k ++ codes ": " ++ debug v ++ codes ",\n") ++ debug_fields fields

  abbrev pub display : JsonValue → Bytes
  display v = debug v

  -- A text is not escaped: an array of two texts prints as an array of one.
  debug_unescaped :
      (s t : Bytes)
      → debug (array (cons (string s) (cons (string t) nil)))
        ≡ debug (array (cons (string (s ++ codes "\", \"" ++ t)) nil))
  unfolding debug
  debug_unescaped s t = simp (append_assoc, append-nil)

-- ===== src/Json/Texts.antt =====
-- `parse_json` of src/json.rs, and the texts that it keeps.
use aurora_engine.Prelude.{
  ℕ, ◌+◌, ◌/◌, ◌%◌, ◌<◌, ◌≤◌, ◌≡◌, ◌≢◌, ◌↔◌, refl, sym, ap, ◌∙◌, arith, Bool, Option, none, some,
  List, [], ◌∷◌, ◌++◌, Bytes, All, length, ltb, if◌then◌else◌, Bool-cases, true, inl, inr,
}
use aurora_engine.Json.{F64, JsonValue, JsonValues, Fields, empty, insert, push}

-- What rjson finds in a text, in the order of the text.
mutual
  pub data Parsed : Type 0 where
    null : Parsed
    number : F64 → Parsed
    bool : Bool → Parsed
    string : Bytes → Parsed
    array : ParsedList → Parsed
    object : Members → Parsed

  pub data ParsedList : Type 0 where
    nil : ParsedList
    cons : Parsed → ParsedList → ParsedList

  pub data Members : Type 0 where
    end : Members
    member : Bytes → Parsed → Members → Members

-- rjson makes its values by `new`, `push`, `insert` and `from` of this file: an empty array or
-- object first, and then one element or member after the other.
unfoldable mutual
  pub build : Parsed → JsonValue
  build Parsed.null = JsonValue.null
  build (Parsed.number n) = JsonValue.number n
  build (Parsed.bool b) = JsonValue.bool b
  build (Parsed.string s) = JsonValue.string s
  build (Parsed.array values) = JsonValue.array (push_all values JsonValues.nil)
  build (Parsed.object members) = JsonValue.object (insert_all members empty)

  pub push_all : ParsedList → JsonValues → JsonValues
  push_all ParsedList.nil values = values
  push_all (ParsedList.cons v rest) values = push_all rest (push values (build v))

  pub insert_all : Members → Fields → Fields
  insert_all end fields = fields
  insert_all (Members.member k v rest) fields = insert_all rest (insert k (build v) fields)

-- A character below 256 in UTF-8.
abbrev pub char_bytes : ℕ → Bytes
char_bytes c = if ltb c 128 then c ∷ [] else (192 + c / 64) ∷ (128 + c % 64) ∷ []

abbrev pub text_bytes : List ℕ → Bytes
text_bytes [] = []
text_bytes (c ∷ chars) = char_bytes c ++ text_bytes chars

-- A character below 256 that stands for itself in a string.
abbrev pub IsPlain : ℕ → Type 0
IsPlain c = (c < 256) × (32 ≤ c) × (c ≢ b'"') × (c ≢ b'\\')

pub record Rjson : Type 0 where
  -- `rjson::parse` of the characters from an index on
  pub parse : List ℕ → ℕ → Option Parsed
  pub parse-string :
      (chars : List ℕ)
      → All IsPlain chars
      → parse (b'"' ∷ chars ++ b'"' ∷ []) 0 ≡ some (Parsed.string (text_bytes chars))

abbrev pub built : Option Parsed → Option JsonValue
built none = none
built (some v) = some (build v)

-- Each byte is taken for a character.
unfoldable pub parse_json : Rjson → Bytes → Option JsonValue
unfolding build
parse_json rjson bytes = let data_array = bytes in built (rjson.parse data_array 0)

length-text_bytes : (b : Bytes) → length b ≤ length (text_bytes b)
length-text_bytes [] = omega arith
length-text_bytes (c ∷ b) = elim (Bool-cases (ltb c 128)) [
  | inl e ↦ rw e (omega (arith, length-text_bytes b))
  | inr e ↦ rw e (omega (arith, length-text_bytes b))
]

abbrev pub IsAscii : ℕ → Type 0
IsAscii c = c < 128

text_bytes-IsAscii : (b : Bytes) → All IsAscii b → text_bytes b ≡ b
text_bytes-IsAscii [] h = refl
text_bytes-IsAscii (c ∷ b) (hc, h) = rw (low, text_bytes-IsAscii b h) refl
  where
    low : ltb c 128 ≡ true
    low = ground arith

IsAscii-of_text : (b : Bytes) → text_bytes b ≡ b → All IsAscii b
IsAscii-of_text [] h = tt
IsAscii-of_text (c ∷ b) h = elim (Bool-cases (ltb c 128)) [
  | inl e ↦
      let one : text_bytes (c ∷ b) ≡ c ∷ text_bytes b = rw e refl in
      (ground arith, IsAscii-of_text b (cc (h, one)))
  | inr e ↦
      let two : text_bytes (c ∷ b) ≡ (192 + c / 64) ∷ (128 + c % 64) ∷ text_bytes b = rw e refl in
      absurd (omega (arith, length-text_bytes b, ap length (sym two ∙ h)))
]

module _ (rjson : Rjson) where
  -- A JSON string of bytes that are no control characters, quotes or backslashes is read as the text
  -- that was sent exactly when it is ASCII:
  -- every other byte of UTF-8 is taken for a character of its own, and encoded again as two bytes.
  pub parse_json-iff_IsAscii :
      (b : Bytes)
      → All IsPlain b
      → (parse_json rjson (b'"' ∷ b ++ b'"' ∷ []) ≡ some (JsonValue.string b)) ↔ All IsAscii b
  unfolding parse_json build
  parse_json-iff_IsAscii b h = rw (rjson.parse-string b h) (
    (λ e. IsAscii-of_text b (cc e)),
    (λ a. ap (λ t. some (JsonValue.string t)) (text_bytes-IsAscii b a)),
  )

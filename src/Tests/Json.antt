-- ===== src/Tests/Json.antt =====
-- JSON values at concrete inputs.
use aurora_engine.Prelude.{
  ℕ, ◌≡◌, ◌↔◌, refl, arith, false, some, [], ◌∷◌, ◌++◌, ok, All, codes, bytes_eq,
}
use aurora_engine.Json.{
  scaled, JsonValue, empty, field, object, number, get, insert, cast, bytes_lt,
}
use aurora_engine.Json.Reading.{string, u64, u128, bool, string_of, number_of, bool_of, parse_u8}
use aurora_engine.Json.Casts.{IsCoarse, u64-u128-IsCoarse}
use aurora_engine.Json.Texts.{Parsed, build, parse_json, parse_json-iff_IsAscii, IsAscii}
use aurora_engine.Json.Members.{last_of, build-last_of}
use aurora_engine.Demo.{rjson, members}

-- {"fee": 10000000000000001.0}, as the nearest double
abbrev priced : JsonValue
priced = object (field (codes "fee") (number (scaled false 5000000000000000 1)) empty)

u64-u128-IsCoarse_example :
    ((a : ℕ) × (u64 priced (codes "fee") ≡ some a) × IsCoarse 64 a)
    × ((b : ℕ) × (u128 priced (codes "fee") ≡ some b) × IsCoarse 128 b)
    × (u64 (object (field (codes "fee") (number (scaled false 7 0)) empty)) (codes "fee") ≡ some 7)
    × (u128 (object (field (codes "fee") (number (scaled false 7 0)) empty)) (codes "fee") ≡ some 7)
unfolding get bytes_eq
u64-u128-IsCoarse_example =
    u64-u128-IsCoarse priced (codes "fee") (scaled false 5000000000000000 1) 7 refl (omega arith)
      (omega arith)

build-last_of_example :
    (string (build (Parsed.object members)) (codes "amount")
      ≡ string_of (last_of (codes "amount") members))
    × (u64 (build (Parsed.object members)) (codes "amount")
        ≡ number_of 64 (last_of (codes "amount") members))
    × (u128 (build (Parsed.object members)) (codes "amount")
        ≡ number_of 128 (last_of (codes "amount") members))
    × (bool (build (Parsed.object members)) (codes "amount")
        ≡ bool_of (last_of (codes "amount") members))
build-last_of_example = build-last_of members (codes "amount")

last_amount : u64 (build (Parsed.object members)) (codes "amount") ≡ some 10
unfolding build insert get bytes_lt bytes_eq cast
last_amount = refl

saturated : parse_u8 (number (scaled false 3 10)) ≡ ok 255
unfolding parse_u8 cast
saturated = refl

-- `é` in UTF-8
parse_json-iff_IsAscii_example :
    (parse_json rjson (b'"' ∷ (195 ∷ 169 ∷ []) ++ b'"' ∷ [])
      ≡ some (JsonValue.string (195 ∷ 169 ∷ [])))
    ↔ All IsAscii (195 ∷ 169 ∷ [])
parse_json-iff_IsAscii_example = parse_json-iff_IsAscii rjson (195 ∷ 169 ∷ []) (omega arith)

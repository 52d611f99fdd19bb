-- ===== src/Tests/Parsing.antt =====
-- The parser of method definitions and the argument hashes at concrete inputs.
use aurora_engine.Prelude.{
  List, ◌≡◌, ◌≤◌, refl, arith, some, [], ◌∷◌, Outcome, ok, Returns, Bytes, codes, bytes_eq, length,
}
use aurora_engine.MetaParsing.Syntax.{
  ArgType, uint, array, byte, Arg, Method, MethodAndTypes, RlpValue, RlpValues,
}
use aurora_engine.MetaParsing.ArgTypes.{parse_type}
use aurora_engine.MetaParsing.ArgTypes.Depth.{dimensions, parse_type-dimensions}
use aurora_engine.MetaParsing.ArgTypes.Spelling.{base, is_uint, fixed, parse_type-Spells}
use aurora_engine.MetaParsing.Methods.{parse_method_and_types, method_signature}
use aurora_engine.MetaParsing.Methods.Splits.{parse_method_and_types-Returns}
use aurora_engine.MetaParsing.Methods.Covers.{Covers, parse_method_and_types-Covers}
use aurora_engine.MetaParsing.Methods.{is_arg_start, is_arg_char}
use aurora_engine.MetaParsing.Methods.Printing.{
  IsHeading, written_method, parse_method_and_types-types_text,
}
use aurora_engine.MetaParsing.Hashing.{hash_fields}
use aurora_engine.MetaParsing.Hashing.Widths.{hash_fields_shift}
use aurora_engine.Demo.{platform}

abbrev value_of {ℓ} : {A : Type ℓ} → Outcome A → A → A
value_of (ok a) default = a
value_of _ default = default

parse_type-dimensions_example : dimensions (array (some 2) uint) ≤ 10
unfolding parse_type bytes_eq
parse_type-dimensions_example = parse_type-dimensions platform.meta (codes "uint256[2]") refl

parse_type-Spells_example : parse_type platform.meta (codes "uint256[2]") ≡ ok (array (some 2) uint)
unfolding parse_type bytes_eq
parse_type-Spells_example =
    parse_type-Spells platform.meta (codes "uint256[2]") refl
      (fixed 2 (codes "[") (codes "2") (codes "]") refl (base (is_uint (codes "uint256"))))
      (omega arith)

abbrev adopt : Bytes
adopt = codes "adopt(uint256 petId,PetObj petObj)PetObj(string name,address owner)"

abbrev empty_method : Method
empty_method = record { name = []; raw = []; args = [] }

abbrev adopt_definition : MethodAndTypes
unfolding parse_method_and_types
adopt_definition =
    value_of (parse_method_and_types platform.meta adopt)
      (record { method = empty_method; type_sequences = []; types = [] })

-- The example of the comment above `method_signature`.
adopt_signature : method_signature adopt_definition ≡ codes "adopt(uint256,PetObj)"
unfolding method_signature adopt_definition bytes_eq
adopt_signature = refl

parse_method_and_types-Returns_example : Returns (parse_method_and_types platform.meta adopt)
parse_method_and_types-Returns_example = parse_method_and_types-Returns platform.meta adopt

-- The second `A` takes the place of the first.
abbrev twice : Bytes
twice = codes "f()A()A(uint256 x)"

abbrev twice_definition : MethodAndTypes
unfolding parse_method_and_types
twice_definition =
    value_of (parse_method_and_types platform.meta twice)
      (record { method = empty_method; type_sequences = []; types = [] })

twice_once : length twice_definition.types ≡ 1
unfolding twice_definition parse_method_and_types bytes_eq
twice_once = refl

parse_method_and_types-Covers_example : Covers platform.meta twice twice_definition
unfolding parse_method_and_types twice_definition bytes_eq
parse_method_and_types-Covers_example =
    parse_method_and_types-Covers platform.meta twice {definition = twice_definition} refl

abbrev arg_of : ArgType → Arg
arg_of t = record { name = []; type_raw = []; t = t }

hash_fields_shift_example :
    hash_fields platform.primitives platform.crypto [] (arg_of (byte 4) ∷ arg_of (byte 4) ∷ []) 0 (
      RlpValues.cons
        (RlpValue.bytes (codes "abcd"))
        (RlpValues.cons (RlpValue.bytes (codes "ef")) RlpValues.nil))
    ≡ hash_fields platform.primitives platform.crypto []
        (arg_of (byte 4) ∷ arg_of (byte 4) ∷ [])
        0
        (RlpValues.cons
          (RlpValue.bytes (codes "ab"))
          (RlpValues.cons (RlpValue.bytes (codes "cdef")) RlpValues.nil))
hash_fields_shift_example =
    hash_fields_shift platform.primitives platform.crypto [] (arg_of (byte 4)) (arg_of (byte 4)) 4 4
      (codes "ab") (codes "cd") (codes "ef") refl refl

abbrev heading_f : Bytes × List Arg
heading_f = (
  codes "f",
  record { name = codes "a"; type_raw = codes "uint256"; t = ArgType.uint }
      ∷ record { name = codes "b"; type_raw = codes "S"; t = ArgType.custom (codes "S") }
      ∷ [],
)

abbrev heading_s : Bytes × List Arg
heading_s =
    (codes "S", record { name = codes "o"; type_raw = codes "address"; t = ArgType.address } ∷ [])

heading_f-IsHeading : IsHeading platform.meta heading_f
unfolding is_arg_start is_arg_char parse_type bytes_eq
heading_f-IsHeading = record {
  is_name = (refl, tt);
  are_args = (
    record {
      type_start = (b'u', codes "int256", refl, refl);
      no_space = (refl, (refl, (refl, (refl, (refl, (refl, (refl, tt)))))));
      parses = refl;
      is_name = (refl, tt);
    },
    (
      record {
        type_start = (b'S', [], refl, refl);
        no_space = (refl, tt);
        parses = refl;
        is_name = (refl, tt);
      },
      tt,
    ),
  );
}

heading_s-IsHeading : IsHeading platform.meta heading_s
unfolding is_arg_start is_arg_char parse_type bytes_eq
heading_s-IsHeading = record {
  is_name = (refl, tt);
  are_args = (
    record {
      type_start = (b'a', codes "ddress", refl, refl);
      no_space = (refl, (refl, (refl, (refl, (refl, (refl, (refl, tt)))))));
      parses = refl;
      is_name = (refl, tt);
    },
    tt,
  );
}

parse_method_and_types-types_text_example :
    parse_method_and_types platform.meta (codes "f(uint256 a,S b)S(address o)")
    ≡ ok (record {
      method = written_method platform.meta (codes "f") heading_f.1;
      type_sequences = codes "S" ∷ [];
      types = (codes "S", written_method platform.meta (codes "S") heading_s.1) ∷ [];
    })
parse_method_and_types-types_text_example =
    parse_method_and_types-types_text platform.meta heading_f (heading_s ∷ [])
      (heading_f-IsHeading, (heading_s-IsHeading, tt))

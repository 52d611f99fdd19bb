-- ===== src/Tests/Typing.antt =====
-- Typed arguments at concrete inputs.
use aurora_engine.Prelude.{◌≡◌, ◌↔◌, [], ◌∷◌, none, ok, Alike, Bytes, codes}
use aurora_engine.MetaParsing.Syntax.{
  Method, MethodAndTypes, array, uint, string, custom, list, nil, cons, RlpValue,
}
use aurora_engine.MetaParsing.Hashing.{hash_argument, hash_fields}
use aurora_engine.MetaParsing.Hashing.Typing.{Fits, hash_argument-iff_Fits}
use aurora_engine.MetaParsing.Abi.{eth_abi_encode_args}
use aurora_engine.MetaParsing.Abi.Agrees.{hash_fields-eth_abi_encode_args}
use aurora_engine.MetaParsing.MetaCall.{prepare_meta_call_args}
use aurora_engine.MetaParsing.MetaCall.Accepts.{IsCall, prepare_meta_call_args-iff_IsCall}
use aurora_engine.Tests.Meta.{transfer_call}
use aurora_engine.Demo.{platform, word_of}

-- struct Item(string name,uint256[] sizes)
abbrev item : Method
item = record {
  name = codes "Item";
  raw = codes "Item(string name,uint256[] sizes)";
  args =
      record { name = codes "name"; type_raw = codes "string"; t = string }
      ∷ record { name = codes "sizes"; type_raw = codes "uint256[]"; t = array none uint }
      ∷ [];
}

abbrev order : MethodAndTypes
order = record {
  method = record {
    name = codes "order";
    raw = codes "order(Item item)";
    args = record { name = codes "item"; type_raw = codes "Item"; t = custom (codes "Item") } ∷ [];
  };
  type_sequences = codes "Item" ∷ [];
  types = (codes "Item", item) ∷ [];
}

abbrev box : RlpValue
box = list (
    cons (RlpValue.bytes (codes "box"))
      (cons (list (cons (RlpValue.bytes (3 ∷ [])) (cons (RlpValue.bytes (4 ∷ [])) nil))) nil))

hash_argument-iff_Fits_example :
    ((h : Bytes) × (hash_argument platform.primitives platform.crypto order.types
          (custom (codes "Item"))
          box
        ≡ ok h))
    ↔ Fits order.types (custom (codes "Item")) box
hash_argument-iff_Fits_example =
    hash_argument-iff_Fits platform.primitives platform.crypto order.types (custom (codes "Item"))
      box

hash_fields-eth_abi_encode_args_example :
    Alike
      (hash_fields platform.primitives platform.crypto order.types order.method.args 0
        (cons box nil))
      (eth_abi_encode_args platform.primitives order platform.meta (cons box nil))
hash_fields-eth_abi_encode_args_example =
    hash_fields-eth_abi_encode_args platform.primitives platform.crypto order platform.meta
      (cons box nil)

prepare_meta_call_args-iff_IsCall_example :
    ((result : Bytes × Bytes) × (prepare_meta_call_args platform.primitives platform.crypto
          platform.meta
          (word_of 1)
          (codes "aurora")
          (codes "f(uint256 a)")
          transfer_call
        ≡ ok result))
    ↔ IsCall platform.meta (codes "f(uint256 a)") transfer_call.input
prepare_meta_call_args-iff_IsCall_example =
    prepare_meta_call_args-iff_IsCall platform.primitives platform.crypto platform.meta (word_of 1)
      (codes "aurora") (codes "f(uint256 a)") transfer_call

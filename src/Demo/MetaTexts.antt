-- ===== src/Demo/MetaTexts.antt =====
-- A lexer that knows a few types, short RLP texts, and tokens of the shape only.
use aurora_engine.Prelude.{List, [], ◌∷◌, Bytes, bytes_eq, codes, if◌then◌else◌}
use aurora_engine.MetaParsing.Syntax.{
  Token, bracket_open, bracket_close, literal_integer, type_uint, type_address, identifier,
  AbiToken, AbiTokens, MetaPackages,
}
use aurora_engine.Demo.Rlp.{list_items, list_items-short, is_list_item, item_bytes}

abbrev lex : Bytes → List (Token × Bytes)
lex text =
    if bytes_eq text (codes "uint256")
    then (type_uint, text) ∷ []
    else if bytes_eq text (codes "uint256[2]")
    then (type_uint, codes "uint256")
      ∷ (bracket_open, codes "[")
      ∷ (literal_integer, codes "2")
      ∷ (bracket_close, codes "]")
      ∷ []
    else if bytes_eq text (codes "address")
    then (type_address, text) ∷ []
    else (identifier, text) ∷ []

abbrev words : AbiTokens → Bytes
words AbiTokens.nil = []
words (AbiTokens.cons (AbiToken.uint n) tokens) = n ∷ words tokens
words (AbiTokens.cons token tokens) = 0 ∷ words tokens

abbrev pub meta : MetaPackages
meta = record {
  lex = lex;
  is_list = is_list_item;
  items = list_items;
  items-Shorter = list_items-short;
  decode_value = item_bytes;
  encode = words;
}

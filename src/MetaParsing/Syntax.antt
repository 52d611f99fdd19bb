-- ===== src/MetaParsing/Syntax.antt =====
-- The data of src/meta_parsing.rs, and what it takes from lunarity-lexer, rlp and ethabi.
use aurora_engine.Prelude.{ℕ, ◌<◌, Bool, Option, List, All, Bytes, length}

pub data ArgType : Type 0 where
  address uint int string bool bytes : ArgType
  byte : ℕ → ArgType
  custom : Bytes → ArgType
  array : (length : Option ℕ) (inner : ArgType) → ArgType

-- The tokens of the Solidity lexer that the code tells apart; a byte type comes with its size.
pub data Token : Type 0 where
  identifier type_bytes type_bool type_uint type_int type_string type_address : Token
  type_byte : ℕ → Token
  literal_integer bracket_open bracket_close other : Token

pub record Arg : Type 0 where
  pub name : Bytes
  pub type_raw : Bytes
  pub t : ArgType

pub record Method : Type 0 where
  pub name : Bytes
  pub raw : Bytes
  pub args : List Arg

-- `types` is a map from names to types: a list in which no name stands twice.
pub record MethodAndTypes : Type 0 where
  pub method : Method
  pub type_sequences : List Bytes
  pub types : List (Bytes × Method)

-- `RlpValue`; a list of values is a type of its own.
mutual
  pub data RlpValue : Type 0 where
    bytes : Bytes → RlpValue
    list : RlpValues → RlpValue

  pub data RlpValues : Type 0 where
    nil : RlpValues
    cons : RlpValue → RlpValues → RlpValues

-- The tokens of ethabi that the code makes.
mutual
  pub data AbiToken : Type 0 where
    address bytes fixed_bytes : Bytes → AbiToken
    uint : ℕ → AbiToken
    array fixed_array tuple : AbiTokens → AbiToken

  pub data AbiTokens : Type 0 where
    nil : AbiTokens
    cons : AbiToken → AbiTokens → AbiTokens

pub record MetaPackages : Type 0 where
  -- the tokens of a text before its end, each with the text it stands for
  pub lex : Bytes → List (Token × Bytes)
  -- `Rlp::is_list`, the items that `Rlp::as_list` goes through, and `decode_value` into bytes. An
  -- item is a part behind the header.
  pub is_list : Bytes → Bool
  pub items : Bytes → List Bytes
  pub items-Shorter : (raw : Bytes) → All (λ item. length item < length raw) (items raw)
  pub decode_value : Bytes → Option Bytes
  -- `ethabi::encode`
  pub encode : AbiTokens → Bytes

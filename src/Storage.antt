-- ===== src/Storage.antt =====
-- src/storage.rs and the fixed storage keys of src/engine.rs and src/lib.rs.
pub mod Keys
use aurora_engine.Prelude.{ℕ, [], ◌∷◌, Bytes, codes, replicate, splice}

pub data KeyPrefix : Type 0 where
  config nonce balance code storage : KeyPrefix

-- `prefix as u8`
abbrev pub prefix_byte : KeyPrefix → ℕ
prefix_byte config = 0
prefix_byte nonce = 1
prefix_byte balance = 2
prefix_byte code = 3
prefix_byte storage = 4

-- The arrays that are copied have the length of their ranges by their types.
unfoldable pub address_to_key : KeyPrefix → Bytes → Bytes
address_to_key prefix address =
    splice (splice (replicate 21 0) 0 (prefix_byte prefix ∷ [])) 1 address

unfoldable pub storage_to_key : Bytes → Bytes → Bytes
storage_to_key address key =
    splice (splice (splice (replicate 53 0) 0 (prefix_byte storage ∷ [])) 1 address) 21 key

abbrev pub state_key : Bytes
state_key = 0 ∷ codes "STATE"

abbrev pub code_key : Bytes
code_key = 0 ∷ codes "CODE"

abbrev pub code_stage_key : Bytes
code_stage_key = 0 ∷ codes "CODE_STAGE"

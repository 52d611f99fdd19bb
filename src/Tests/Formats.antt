-- ===== src/Tests/Formats.antt =====
-- Byte formats, storage keys and precompiled contracts at concrete inputs.
use aurora_engine.Prelude.{
  ◌+◌, ◌*◌, ◌≡◌, refl, arith, some, [], ◌∷◌, ◌++◌, ok, panic, abort, Bytes, codes, length,
  replicate,
}
use aurora_engine.Types.{Log, bytes_to_hex, log_to_bytes}
use aurora_engine.Types.Hex.{from_hex, bytes_to_hex-from_hex}
use aurora_engine.Types.Logs.{flat, log_to_bytes-flat}
use aurora_engine.Storage.{nonce}
use aurora_engine.Storage.Keys.{account, slot_key-injective}
use aurora_engine.Precompiles.{ecrecover, ecrecover_raw, istanbul_precompiles}
use aurora_engine.Precompiles.Recovery.{ecrecover_shift}
use aurora_engine.Precompiles.Dispatch.{ecrecover_raw_panics, istanbul_precompiles_low}
use aurora_engine.Demo.{primitives, crypto, address_of, word_of}

abbrev event : Log
event = record {
  address = address_of 1;
  topics = word_of 3 ∷ word_of 4 ∷ [];
  payload = codes "log";
}

hex_of_four : bytes_to_hex (0 ∷ 1 ∷ 255 ∷ 16 ∷ []) ≡ ok (codes "0001ff10")
unfolding bytes_to_hex
hex_of_four = refl

bytes_to_hex-from_hex_example :
    (s : Bytes) × (bytes_to_hex (0 ∷ 255 ∷ []) ≡ ok s)
    × (length s ≡ 2 * 2)
    × (from_hex s ≡ some (0 ∷ 255 ∷ []))
bytes_to_hex-from_hex_example = bytes_to_hex-from_hex (0 ∷ 255 ∷ []) (omega arith)

log_to_bytes-flat_example :
    log_to_bytes event ≡ ok (2 ∷ (flat (word_of 3 ∷ word_of 4 ∷ []) ++ codes "log"))
log_to_bytes-flat_example = log_to_bytes-flat event (omega arith)

slot_key-injective_example : account nonce (address_of 5) ≡ account nonce (address_of 5)
slot_key-injective_example =
    slot_key-injective (account nonce (address_of 5)) (account nonce (address_of 5)) refl refl refl

ecrecover_raw_panics_example : ecrecover_raw primitives crypto (replicate 128 1) ≡ panic abort
ecrecover_raw_panics_example = ecrecover_raw_panics primitives crypto (replicate 128 1)

-- The identity precompile is 4; so is an address that only ends like it.
abbrev four : Bytes
four = replicate 19 0 ++ 4 ∷ []

abbrev like_four : Bytes
like_four = replicate 12 9 ++ (replicate 7 0 ++ 4 ∷ [])

istanbul_precompiles_low_example :
    istanbul_precompiles primitives crypto four (codes "data")
    ≡ istanbul_precompiles primitives crypto like_four (codes "data")
istanbul_precompiles_low_example =
    istanbul_precompiles_low primitives crypto four like_four (codes "data") refl refl refl

ecrecover_shift_example :
    ecrecover primitives crypto (word_of 1) (replicate 64 2 ++ (1 + 27) ∷ [])
    ≡ ecrecover primitives crypto (word_of 1) (replicate 64 2 ++ 1 ∷ [])
ecrecover_shift_example =
    ecrecover_shift primitives crypto (word_of 1) (replicate 64 2) 1 refl (omega arith)

-- ===== src/LogEntry.antt =====
-- src/log_entry.rs: the RLP form of a log entry.
use aurora_engine.Prelude.{
  ℕ, ◌+◌, ◌≡◌, refl, arith, Option, some, List, [], ◌∷◌, ◌++◌, All, Bytes, length,
}
use aurora_engine.Packages.{IsAddress, IsWord}
use aurora_engine.Transaction.Rlp.{RlpItem, RlpStream, Rlp, text, hashes}
use aurora_engine.Transaction.Decoding.{◌>>=◌, val_at}

-- `payload` is `data`.
pub record LogEntry : Type 0 where
  pub address : Bytes
  pub topics : List Bytes
  pub payload : Bytes

pub record IsLogEntry (e : LogEntry) : Type 0 where
  pub address_address : IsAddress e.address
  pub topics_words : All IsWord e.topics

abbrev pub items : LogEntry → List RlpItem
items e = text e.address ∷ hashes e.topics ∷ text e.payload ∷ []

-- `LogEntry::rlp_append`
unfoldable pub rlp_append : LogEntry → RlpStream
rlp_append e = record { announced = 3; items = items e }

module _ (rlp : Rlp) where
  -- `LogEntry::decode`
  unfoldable pub decode : Bytes → Option LogEntry
  decode raw = do
    address ← val_at rlp rlp.as_address raw 0
    topics ← val_at rlp rlp.as_hashes raw 1
    payload ← val_at rlp rlp.as_bytes raw 2
    some (record { address = address; topics = topics; payload = payload })

  -- The three items are read, whatever follows them.
  decode-items :
      (e : LogEntry) (extra : List RlpItem) (n : ℕ)
      → IsLogEntry e
      → n ≡ 3 + length extra
      → decode (rlp.as_raw (record { announced = n; items = items e ++ extra })) ≡ some e
  unfolding decode
  decode-items e extra n h l =
      let s : RlpStream = record { announced = n; items = items e ++ extra } in
      let counted : n ≡ length (items e ++ extra) = omega (arith, l) in
      rw
        (
          rlp.at-as_raw s 0 counted,
          rlp.at-as_raw s 1 counted,
          rlp.at-as_raw s 2 counted,
          rlp.as_address-raw_item e.address h.address_address,
          rlp.as_hashes-raw_item e.topics h.topics_words,
          rlp.as_bytes-raw_item e.payload,
        )
        refl

  -- A log entry is decoded from its encoding, and from every list that starts with its three items,
  -- since the number of items is not looked at.
  pub decode-rlp_append_items :
      (e : LogEntry) (extra : List RlpItem)
      → IsLogEntry e
      → (decode (rlp.as_raw (rlp_append e)) ≡ some e)
        × (decode (rlp.as_raw (record { announced = 3 + length extra; items = items e ++ extra }))
            ≡ some e)
  unfolding rlp_append
  decode-rlp_append_items e extra h =
      (decode-items e [] 3 h (omega arith), decode-items e extra (3 + length extra) h refl)

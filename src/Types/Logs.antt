-- ===== src/Types/Logs.antt =====
-- `log_to_bytes` of src/types.rs: the writes into the buffer lay out a count byte, the topics and
-- the data.
use aurora_engine.Prelude.{
  ℕ, ◌+◌, ◌*◌, ◌%◌, ◌≤◌, ◌≡◌, refl, List, [], ◌∷◌, ◌++◌, append_assoc, append-nil, arith, ok, Bytes,
  All, length, length-append, drop, replicate, length-replicate, copy_from_slice-append, ap, sym,
  ◌∙◌, length-drop, drop_beyond, drop-drop,
}
use aurora_engine.Packages.{IsWord}
use aurora_engine.Types.{Log, topics_loop, log_buffer, log_to_bytes}

abbrev pub flat : List Bytes → Bytes
flat [] = []
flat (t ∷ ts) = t ++ flat ts

length-flat : (ts : List Bytes) → All IsWord ts → length (flat ts) ≡ length ts * 32
length-flat [] h = refl
length-flat (t ∷ ts) (ht, hts) = omega (arith, length-append t (flat ts), length-flat ts hts)

topics_loop-flat :
    (ts : List Bytes) (pre rest : Bytes) (index : ℕ)
    → All IsWord ts
    → index ≡ length pre
    → length ts * 32 ≤ length rest
    → topics_loop (pre ++ rest) index ts
      ≡ ok ((pre ++ flat ts) ++ drop (length ts * 32) rest, index + length ts * 32)
unfolding topics_loop
topics_loop-flat [] pre rest index h e fits = rw append-nil (ground arith)
topics_loop-flat (t ∷ ts) pre rest index (ht, hts) e fits =
    rw (copy_from_slice-append pre rest t index (index + 32) e (omega arith) (omega arith)) (
      ap (λ (b : Bytes). topics_loop b (index + 32) ts)
        (sym (append_assoc pre t (drop (length t) rest)))
      ∙ topics_loop-flat ts (pre ++ t) (drop (length t) rest) (index + 32) hts
          (omega (arith, length-append pre t)) (omega (arith, length-drop (length t) rest))
      ∙ ground (arith, append_assoc pre t (flat ts), drop-drop (length ts * 32) (length t) rest))

module _ (log : Log) (h : All IsWord log.topics) where
  abbrev count : ℕ
  count = length log.topics

  abbrev zeros : Bytes
  zeros = replicate (count * 32 + length log.payload) 0

  length-zeros : length zeros ≡ count * 32 + length log.payload
  length-zeros = length-replicate _ 0

  length-left : length (drop (count * 32) zeros) ≡ length log.payload
  length-left = omega (arith, length-drop (count * 32) zeros, length-zeros)

  topics-written :
      topics_loop ((count % 256) ∷ zeros) 1 log.topics
      ≡ ok ((count % 256) ∷ (flat log.topics ++ drop (count * 32) zeros), 1 + count * 32)
  topics-written =
      topics_loop-flat log.topics ((count % 256) ∷ []) zeros 1 h (omega arith)
        (omega (arith, length-zeros))

  -- With 32-byte topics `log_to_bytes` returns: the low byte of the number of topics, the topics
  -- and the data, one behind the other.
  pub log_to_bytes-flat : log_to_bytes log ≡ ok ((count % 256) ∷ (flat log.topics ++ log.payload))
  unfolding log_to_bytes log_buffer
  log_to_bytes-flat = rw topics-written (
      copy_from_slice-append ((count % 256) ∷ flat log.topics) (drop (count * 32) zeros) log.payload
        (1 + count * 32) _ (omega (arith, length-flat log.topics h))
        (omega (
          arith,
          length-append (flat log.topics) (drop (count * 32) zeros),
          length-flat log.topics h,
          length-left,
        ))
        (omega (arith, length-left))
      ∙ rw
          (
            drop_beyond (length log.payload) (drop (count * 32) zeros) (omega (arith, length-left)),
            append-nil,
          )
          refl)

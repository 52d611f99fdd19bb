-- ===== src/Types/Hex.antt =====
-- `bytes_to_hex` of src/types.rs: it returns for every byte string, and its text reads back.
use aurora_engine.Prelude.{
  ℕ, ◌+◌, ◌-◌, ◌*◌, ◌/◌, ◌%◌, ◌<◌, ◌≡◌, refl, Bool, true, false, ◌&&◌, Option, none, some, [], ◌∷◌,
  ◌++◌, append_assoc, append-nil, arith, ok, Bytes, AreBytes, length, leb, ◌==◌, if◌then◌else◌,
  get_elem?, ap, ◌∙◌, every_below, every_below-at,
}
use aurora_engine.Types.{hex_alphabet, hex_digit, hex_loop, bytes_to_hex}

-- The value of a lower-case digit.
abbrev pub digit_value : ℕ → Option ℕ
digit_value c =
    if leb b'0' c && leb c b'9'
    then some (c - b'0')
    else if leb b'a' c && leb c b'f'
    then some (c - b'a' + 10)
    else none

abbrev join_digits : Option ℕ → Option ℕ → Option Bytes → Option Bytes
join_digits (some h) (some l) (some rest) = some ((16 * h + l) ∷ rest)
join_digits _ _ _ = none

-- Two digits for each byte, the high one first.
unfoldable pub from_hex : Bytes → Option Bytes
from_hex [] = some []
from_hex (h ∷ []) = none
from_hex (h ∷ l ∷ rest) = join_digits (digit_value h) (digit_value l) (from_hex rest)

abbrev reads_back : ℕ → Option ℕ → Bool
reads_back i none = false
reads_back i (some c) = elim (digit_value c) [ none ↦ false | some v ↦ v == i ]

record Readable (i : ℕ) : Type 0 where
  char : ℕ
  written : hex_digit i ≡ ok char
  reads : digit_value char ≡ some i

reads_back-Readable :
    (i : ℕ) (o : Option ℕ) → get_elem? hex_alphabet i ≡ o → reads_back i o ≡ true → Readable i
reads_back-Readable i none e h = cc
reads_back-Readable i (some c) e h = record { char = c; written = rw e; reads = ground arith }

digits_table : every_below 16 (λ i. reads_back i (get_elem? hex_alphabet i)) ≡ true
unfolding every_below
digits_table = refl

hex_digit-Readable : (i : ℕ) → i < 16 → Readable i
hex_digit-Readable i h =
    reads_back-Readable i (get_elem? hex_alphabet i) refl (every_below-at 16 _ i digits_table h)

record Reads (result v : Bytes) : Type 0 where
  text : Bytes
  returns : hex_loop result v ≡ ok (result ++ text)
  twice_as_long : length text ≡ 2 * length v
  reads : from_hex text ≡ some v

hex_loop-Reads : (result v : Bytes) → AreBytes v → Reads result v
unfolding hex_loop from_hex
hex_loop-Reads result [] h = record {
  text = [];
  returns = rw append-nil;
  twice_as_long = refl;
  reads = refl;
}
hex_loop-Reads result (x ∷ v) (hx, hv) =
    let high = hex_digit-Readable (x / 16) (omega arith) in
    let low = hex_digit-Readable (x % 16) (omega arith) in
    let rest = hex_loop-Reads (result ++ high.char ∷ low.char ∷ []) v hv in
    record {
      text = high.char ∷ low.char ∷ rest.text;
      returns = rw (high.written, low.written) (rest.returns ∙ ap ok (append_assoc result _ _));
      twice_as_long = omega (arith, rest.twice_as_long);
      reads = rw (high.reads, low.reads, rest.reads) (ap (λ (b : ℕ). some (b ∷ v)) (omega arith));
    }

-- For every byte string `bytes_to_hex` returns, never reaching behind its alphabet: a text of two
-- lower-case digits for each byte, from which the bytes can be read back.
pub bytes_to_hex-from_hex :
    (v : Bytes)
    → AreBytes v
    → (s : Bytes) × (bytes_to_hex v ≡ ok s) × (length s ≡ 2 * length v) × (from_hex s ≡ some v)
unfolding bytes_to_hex
bytes_to_hex-from_hex v h =
    let r = hex_loop-Reads [] v h in (r.text, r.returns, r.twice_as_long, r.reads)

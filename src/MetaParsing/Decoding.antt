-- ===== src/MetaParsing/Decoding.antt =====
-- `rlp_decode` and `RlpValue::decode` of src/meta_parsing.rs. A decoding error is the error that
-- `rlp_decode` makes of it.
use aurora_engine.Prelude.{
  ℕ, zero, suc, ◌<◌, ◌≤◌, arith, List, [], ◌∷◌, All, Outcome, ok, panic, out_of_fuel, ok_or, ◌>>=◌,
  Returns, >>=-Returns, Option, some, none, Bytes, length, if◌then◌else◌, Bool-cases, inl, inr,
  invalid_meta_transaction_function_arg,
}
use aurora_engine.MetaParsing.Syntax.{RlpValue, RlpValues, nil, cons, MetaPackages}

-- `self.iter().map(|rlp| rlp.as_val()).collect()`
abbrev pub as_list : (Bytes → Outcome RlpValue) → List Bytes → Outcome RlpValues
as_list as_val [] = ok nil
as_list as_val (item ∷ items) = do v ← as_val item; l ← as_list as_val items; ok (cons v l)

module _ (m : MetaPackages) where
  -- `RlpValue::decode`, for items nested less deep than the fuel.
  abbrev pub decode : ℕ → Bytes → Outcome RlpValue
  decode zero raw = panic out_of_fuel
  decode (suc fuel) raw =
      let items = as_list (decode fuel) (m.items raw) in
      if m.is_list raw then (do l ← items; ok (RlpValue.list l)) else (do
        b ← ok_or (m.decode_value raw) invalid_meta_transaction_function_arg
        ok (RlpValue.bytes b))

  -- Items are shorter than what they stand in, so that their depth is at most the length.
  abbrev pub rlp_decode : Bytes → Outcome RlpValues
  rlp_decode args = as_list (decode (length args)) (m.items args)

  ok_or-Returns :
      {A : Type 0} (o : Option A) → Returns (ok_or o invalid_meta_transaction_function_arg)
  ok_or-Returns none = tt
  ok_or-Returns (some a) = tt

  as_list-Returns :
      (fuel : ℕ) (items : List Bytes)
      → ((item : Bytes) → length item < fuel → Returns (decode fuel item))
      → All (λ item. length item < fuel) items
      → Returns (as_list (decode fuel) items)
  as_list-Returns fuel [] h a = tt
  as_list-Returns fuel (item ∷ items) h (short, a) =
      >>=-Returns (decode fuel item) _ (h item short) (λ v _.
        >>=-Returns (as_list (decode fuel) items) _ (as_list-Returns fuel items h a) (λ l _. tt))

  -- All items of a text of at most this length are shorter.
  All-shorter :
      (bound : ℕ) (raw : Bytes)
      → length raw ≤ bound
      → All (λ item. length item < bound) (m.items raw)
  All-shorter bound raw h = go (m.items raw) (m.items-Shorter raw)
    where
      go :
          (items : List Bytes)
          → All (λ item. length item < length raw) items
          → All (λ item. length item < bound) items
      go [] a = tt
      go (item ∷ items) (short, a) = (omega arith, go items a)

  decode-Returns : (fuel : ℕ) (raw : Bytes) → length raw < fuel → Returns (decode fuel raw)
  decode-Returns zero raw h = absurd (omega arith)
  decode-Returns (suc fuel) raw h = elim (Bool-cases (m.is_list raw)) [
    | inl e ↦ rw e (
        >>=-Returns (as_list (decode fuel) (m.items raw)) _
          (as_list-Returns fuel (m.items raw) (decode-Returns fuel)
            (All-shorter fuel raw (omega arith)))
          (λ l _. tt))
    | inr e ↦ rw e (
        >>=-Returns (ok_or (m.decode_value raw) _) _ (ok_or-Returns (m.decode_value raw))
          (λ b _. tt))
  ]

  -- Every text is decoded or refused: the length is fuel enough.
  pub rlp_decode-Returns : (args : Bytes) → Returns (rlp_decode args)
  rlp_decode-Returns args =
      as_list-Returns (length args) (m.items args) (decode-Returns (length args))
        (All-shorter (length args) args (omega arith))

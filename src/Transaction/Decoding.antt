-- ===== src/Transaction/Decoding.antt =====
-- `impl Decodable for EthSignedTransaction` of src/transaction.rs, and what it reads of an encoding.
use aurora_engine.Prelude.{
  ℕ, ◌<◌, ◌≡◌, refl, ap, ◌∙◌, arith, false, Option, none, some, [], Bytes, length, map, get_elem?,
  ◌==◌, if◌then◌else◌,
}
use aurora_engine.Packages.{IsAddress, u256_mod, u64_mod}
use aurora_engine.Transaction.Rlp.{RlpItem, integer, text, Rlp}
use aurora_engine.Transaction.{EthSignedTransaction, to_item, rlp_append}

infixl 5 ◌>>=◌
abbrev pub ◌>>=◌ : {A B : Type 0} → Option A → (A → Option B) → Option B
none >>= f = none
some a >>= f = f a

module _ (rlp : Rlp) where
  -- `rlp.val_at(i)` at the type that `as_val` reads.
  abbrev pub val_at : {A : Type 0} → (Bytes → Option A) → Bytes → ℕ → Option A
  val_at as_val b i = rlp.at b i >>= as_val

  -- `None` for an empty string.
  abbrev pub to_of : Bytes → Option (Option Bytes)
  to_of value =
      if rlp.is_empty value
      then (if rlp.is_data value then some none else none)
      else (rlp.as_address value >>= λ a. some (some a))

  -- `EthSignedTransaction::decode`; `none` is any `DecoderError`.
  unfoldable pub decode : Bytes → Option EthSignedTransaction
  decode b = do
    count ← rlp.item_count b
    nonce ← if count == 9 then val_at rlp.as_u256 b 0 else none
    gas_price ← val_at rlp.as_u256 b 1
    gas ← val_at rlp.as_u256 b 2
    to ← val_at to_of b 3
    value ← val_at rlp.as_u256 b 4
    input ← val_at rlp.as_bytes b 5
    v ← val_at rlp.as_u64 b 6
    r ← val_at rlp.as_u256 b 7
    s ← val_at rlp.as_u256 b 8
    some (record {
      transaction = record {
        nonce = nonce;
        gas_price = gas_price;
        gas = gas;
        to = to;
        value = value;
        input = input;
      };
      v = v;
      r = r;
      s = s;
    })

-- An address that may be missing.
abbrev pub IsRecipient : Option Bytes → Type 0
IsRecipient none = Unit
IsRecipient (some a) = IsAddress a

-- The ranges of the Rust types.
pub record IsEthSignedTransaction (t : EthSignedTransaction) : Type 0 where
  pub nonce_u256 : t.transaction.nonce < u256_mod
  pub gas_price_u256 : t.transaction.gas_price < u256_mod
  pub gas_u256 : t.transaction.gas < u256_mod
  pub to_address : IsRecipient t.transaction.to
  pub value_u256 : t.transaction.value < u256_mod
  pub v_u64 : t.v < u64_mod
  pub r_u256 : t.r < u256_mod
  pub s_u256 : t.s < u256_mod

module _ (rlp : Rlp) where
  to_of-to_item :
      (to : Option Bytes) → IsRecipient to → to_of rlp (rlp.raw_item (to_item to)) ≡ some to
  to_of-to_item none h = rw (rlp.is_empty-raw_item [], rlp.is_data-raw_item []) refl
  to_of-to_item (some a) h =
      let long : (length a == 0) ≡ false = ground arith in
      rw (rlp.is_empty-raw_item a, long, rlp.as_address-raw_item a h) refl

  -- The item that stands at `i` in the encoding is read back.
  val_at-raw_item :
      {A : Type 0} (as_val : Bytes → Option A) (t : EthSignedTransaction) (i : ℕ) (item : RlpItem)
      {value : A}
      → get_elem? (map rlp.raw_item (rlp_append t).items) i ≡ some (rlp.raw_item item)
      → as_val (rlp.raw_item item) ≡ some value
      → val_at rlp as_val (rlp.as_raw (rlp_append t)) i ≡ some value
  unfolding rlp_append
  val_at-raw_item as_val t i item e reads =
      ap (λ o. o >>= as_val) (rlp.at-as_raw (rlp_append t) i refl ∙ e) ∙ reads

  u256_at :
      (t : EthSignedTransaction) (i n : ℕ)
      → get_elem? (map rlp.raw_item (rlp_append t).items) i ≡ some (rlp.raw_item (integer n))
      → n < u256_mod
      → val_at rlp rlp.as_u256 (rlp.as_raw (rlp_append t)) i ≡ some n
  u256_at t i n e h = val_at-raw_item rlp.as_u256 t i (integer n) e (rlp.as_u256-raw_item n h)

  -- Every signed transaction whose numbers fit their types is decoded from its own encoding as it
  -- was, one without a recipient included.
  pub decode-rlp_append :
      (t : EthSignedTransaction)
      → IsEthSignedTransaction t
      → decode rlp (rlp.as_raw (rlp_append t)) ≡ some t
  unfolding decode rlp_append
  decode-rlp_append t h =
      rw
        (
          rlp.item_count-as_raw (rlp_append t) refl,
          u256_at t 0 t.transaction.nonce refl h.nonce_u256,
          u256_at t 1 t.transaction.gas_price refl h.gas_price_u256,
          u256_at t 2 t.transaction.gas refl h.gas_u256,
          val_at-raw_item (to_of rlp) t 3 (to_item t.transaction.to) refl
              (to_of-to_item t.transaction.to h.to_address),
          u256_at t 4 t.transaction.value refl h.value_u256,
          val_at-raw_item rlp.as_bytes t 5 (text t.transaction.input) refl
              (rlp.as_bytes-raw_item t.transaction.input),
          val_at-raw_item rlp.as_u64 t 6 (integer t.v) refl (rlp.as_u64-raw_item t.v h.v_u64),
          u256_at t 7 t.r refl h.r_u256,
          u256_at t 8 t.s refl h.s_u256,
        )
        refl

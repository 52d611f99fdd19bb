-- ===== src/Transaction.antt =====
-- src/transaction.rs: Ethereum transactions with a signature.
pub mod Rlp
pub mod Decoding
pub mod Replay
use aurora_engine.Prelude.{
  ℕ, ◌+◌, ◌-◌, ◌/◌, ◌%◌, Option, none, some, List, [], ◌∷◌, ◌++◌, Outcome, ok, ◌>>=◌, Bytes, Bool,
  leb, ◌==◌, if◌then◌else◌, replicate, splice,
}
use aurora_engine.Packages.{Primitives, Crypto}
use aurora_engine.Precompiles.{ecrecover}
use aurora_engine.Transaction.Rlp

-- `input` is `data`.
pub record EthTransaction : Type 0 where
  pub nonce : ℕ
  pub gas_price : ℕ
  pub gas : ℕ
  pub to : Option Bytes
  pub value : ℕ
  pub input : Bytes

pub record EthSignedTransaction : Type 0 where
  pub transaction : EthTransaction
  pub v : ℕ
  pub r : ℕ
  pub s : ℕ

-- `match self.to.as_ref()`
abbrev pub to_item : Option Bytes → Rlp.RlpItem
to_item none = Rlp.text []
to_item (some address) = Rlp.text address

abbrev pub fields : EthTransaction → List Rlp.RlpItem
fields t =
    Rlp.integer t.nonce
    ∷ Rlp.integer t.gas_price
    ∷ Rlp.integer t.gas
    ∷ to_item t.to
    ∷ Rlp.integer t.value
    ∷ Rlp.text t.input
    ∷ []

unfoldable pub rlp_append_unsigned : EthTransaction → Option ℕ → Rlp.RlpStream
rlp_append_unsigned t none = record { announced = 6; items = fields t }
rlp_append_unsigned t (some chain_id) = record {
  announced = 9;
  items = fields t ++ Rlp.integer chain_id ∷ Rlp.integer 0 ∷ Rlp.integer 0 ∷ [];
}

-- `EthSignedTransaction::rlp_append`
unfoldable pub rlp_append : EthSignedTransaction → Rlp.RlpStream
rlp_append t = record {
  announced = 9;
  items = fields t.transaction ++ Rlp.integer t.v ∷ Rlp.integer t.r ∷ Rlp.integer t.s ∷ [];
}

unfoldable pub chain_id : EthSignedTransaction → Option ℕ
chain_id t = if leb t.v 34 then none else some ((t.v - 35) / 2)

-- The chain and the recovery identifier that `sender` uses, if any.
unfoldable pub chain_and_rec_id : ℕ → Option (Option ℕ × ℕ)
chain_and_rec_id v =
    if leb v 28
    then some (none, v)
    else if leb v 34
    then none
    else some (some ((v - 35) / 2), (v - 35) % 2)

-- `(r, s, v)`, typed `(uint256, uint256, uint8)`.
unfoldable pub vrs_to_arr : Primitives → ℕ → ℕ → ℕ → Bytes
vrs_to_arr p v r s =
    splice (splice (splice (replicate 65 0) 0 (p.to_big_endian r)) 32 (p.to_big_endian s)) 64
      (v ∷ [])

module _ (p : Primitives) (c : Crypto) (rlp : Rlp.Rlp) where
  abbrev pub recovered_from : EthSignedTransaction → Option (Option ℕ × ℕ) → Outcome (Option Bytes)
  recovered_from t none = ok none
  recovered_from t (some (chain, rec_id)) =
      ecrecover p c (c.keccak (rlp.as_raw (rlp_append_unsigned t.transaction chain)))
        (vrs_to_arr p rec_id t.r t.s)

  unfoldable pub sender : EthSignedTransaction → Outcome (Option Bytes)
  sender t = recovered_from t (chain_and_rec_id t.v)

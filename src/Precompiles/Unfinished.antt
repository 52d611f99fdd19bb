-- ===== src/Precompiles/Unfinished.antt =====
-- The functions of src/precompiles.rs that nothing calls: the precompiled contracts to come, which
-- answer zero or nothing, and the set of none.
use aurora_engine.Prelude.{ℕ, Bool, none, Bytes}
use aurora_engine.Evm.{Precompiles}

abbrev pub no_precompiles : Precompiles
no_precompiles address input = none

abbrev pub modexp : ℕ → ℕ → ℕ → ℕ
modexp base exponent modulus = 0

abbrev pub alt_bn128_add : ℕ → ℕ → ℕ → ℕ → Unit {0}
alt_bn128_add ax ay bx by_ = tt

abbrev pub alt_bn128_mul : ℕ → ℕ → ℕ → Unit {0}
alt_bn128_mul x y scalar = tt

abbrev pub alt_bn128_pair : Bytes → ℕ
alt_bn128_pair input = 0

abbrev pub blake2f : ℕ → ℕ × ℕ → ℕ × ℕ × ℕ × ℕ → ℕ × ℕ → Bool → ℕ × ℕ
blake2f rounds h m t f = (0, 0)

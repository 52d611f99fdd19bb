-- ===== src/Sdk/Held.antt =====
-- What the register of src/sdk.rs that was just set gives back.
use aurora_engine.Prelude.{
  ℕ, ◌-◌, ◌≤◌, ◌≡◌, refl, ap, ◌∙◌, true, Option, none, some, append-nil, arith, ok, Bytes, length,
  leb, ◌==◌,
}
use aurora_engine.Packages.{Crypto}
use aurora_engine.Host.{Host}
use aurora_engine.Sdk.{fill_buffer}
use aurora_engine.Sdk.Runtime.{Registers, Runtime, max_register_size, hold}
use aurora_engine.Sdk.Wasm.{vec_size, read_array, read_vec}

abbrev pub Short : Bytes → Type 0
Short v = length v ≤ max_register_size

abbrev pub ShortIfAny : Option Bytes → Type 0
ShortIfAny none = Unit
ShortIfAny (some v) = Short v

pub eq_refl : (a : ℕ) → (a == a) ≡ true
eq_refl a = ground arith

leb_of : (a b : ℕ) → a ≤ b → leb a b ≡ true
leb_of a b h = ground arith

pub fill_buffer-length : (v : Bytes) → fill_buffer (length v) v ≡ ok v
fill_buffer-length v =
    rw (leb_of (length v) (length v) (omega arith), nothing_left) (ap ok (append-nil v))
  where
    nothing_left : length v - length v ≡ 0
    nothing_left = omega arith

pub fill_buffer_of : (v : Bytes) (size : ℕ) → length v ≡ size → fill_buffer size v ≡ ok v
fill_buffer_of v size h = rw (← h) (fill_buffer-length v)

vec_size_of : (v : Bytes) → Short v → vec_size (length v) ≡ ok (length v)
vec_size_of v h = ground arith

module _ {h : Host} (g : Registers h) where
  open g use {State, put, world, content}

  pub hold-Short : (r : ℕ) (v : Bytes) (s : State) → Short v → hold g r v s ≡ ok (put r v s)
  hold-Short r v s k = rw (leb_of (length v) max_register_size k) refl

  pub content_here : (r : ℕ) (v : Bytes) (s : State) → content (put r v s) r ≡ some v
  content_here r v s = g.content-put r v s r ∙ rw (eq_refl r) refl

module _ {h : Host} {c : Crypto} (rt : Runtime h c) where
  open rt use {State, put, world, content, read_register}

  pub read_array-put :
      (size r : ℕ) (v : Bytes) (s : State) → read_array rt size r (put r v s) ≡ fill_buffer size v
  read_array-put size r v s =
      rw (rt.read_register_lem r (put r v s), content_here rt.registers r v s) refl

  pub read_vec-put : (r : ℕ) (v : Bytes) (s : State) → Short v → read_vec rt r (put r v s) ≡ ok v
  read_vec-put r v s k =
      rw
        (
          rt.register_len_lem r (put r v s),
          content_here rt.registers r v s,
          vec_size_of v k,
          read_array-put (length v) r v s,
        )
        (fill_buffer-length v)

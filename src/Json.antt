-- ===== src/Json.antt =====
-- src/json.rs: JSON values, their typed reading, how the rjson package builds them, and how they are
-- printed. `Err(())` is none.
pub mod Reading
pub mod Casts
pub mod Members
pub mod Sorted
pub mod Texts
pub mod Printing
use aurora_engine.Prelude.{
  ℕ, zero, ◌-◌, ◌*◌, ◌/◌, ◌^◌, ◌≡◌, Bool, true, false, not, Option, none, some, List, [], ◌∷◌, ◌++◌,
  map, Outcome, ok, panic, panic_utf8, ◌>>=◌, Bytes, AreBytes, codes, bytes_eq, leb, ltb, ◌==◌,
  if◌then◌else◌,
}

-- An `f64`: not a number, infinite, a mantissa times or divided by a power of 2; first the sign,
-- which is true for a negative number.
pub data F64 : Type 0 where
  nan : F64
  infinite : Bool → F64
  scaled : Bool → ℕ → ℕ → F64
  fraction : Bool → ℕ → ℕ → F64

-- A maximum of `u8`, `u64` or `u128`, of that many bits.
abbrev pub saturate : ℕ → ℕ → ℕ
saturate width n = if leb (2 ^ width) n then 2 ^ width - 1 else n

-- `n as u64` and the like: towards zero, and to the nearest value of the type.
unfoldable pub cast : ℕ → F64 → ℕ
cast width nan = 0
cast width (infinite negative) = if negative then 0 else 2 ^ width - 1
cast width (scaled negative m k) = if negative then 0 else saturate width (m * 2 ^ k)
cast width (fraction negative m k) = if negative then 0 else saturate width (m / 2 ^ k)

-- The fields of an object stand in the order of their names.
mutual
  pub data JsonValue : Type 0 where
    null : JsonValue
    number : F64 → JsonValue
    bool : Bool → JsonValue
    string : Bytes → JsonValue
    array : JsonValues → JsonValue
    object : Fields → JsonValue

  pub data JsonValues : Type 0 where
    nil : JsonValues
    cons : JsonValue → JsonValues → JsonValues

  pub data Fields : Type 0 where
    empty : Fields
    field : Bytes → JsonValue → Fields → Fields

-- The order of Rust's strings.
unfoldable pub bytes_lt : Bytes → Bytes → Bool
bytes_lt [] [] = false
bytes_lt [] (y ∷ ys) = true
bytes_lt (x ∷ xs) [] = false
bytes_lt (x ∷ xs) (y ∷ ys) = let rest = bytes_lt xs ys in if x == y then rest else ltb x y

-- `BTreeMap::get`
unfoldable pub get : Bytes → Fields → Option JsonValue
get key empty = none
get key (field k v fields) = let rest = get key fields in if bytes_eq k key then some v else rest

-- `BTreeMap::insert`, which replaces the value of a name that is there.
unfoldable pub insert : Bytes → JsonValue → Fields → Fields
unfolding bytes_lt
insert key v empty = field key v empty
insert key v (field k u fields) =
    let rest = insert key v fields in
    if bytes_eq k key
    then field k v fields
    else if bytes_lt key k
    then field key v (field k u fields)
    else field k u rest

-- `JsonArray::push`
abbrev pub push : JsonValues → JsonValue → JsonValues
push nil v = cons v nil
push (cons u values) v = cons u (push values v)

-- ===== src/Json/Members.antt =====
-- The objects that src/json.rs builds: what is read from them, and the order of their names.
use aurora_engine.Prelude.{
  ◌≡◌, refl, sym, ap, ◌∙◌, Bool, true, false, Option, none, some, Bytes, bytes_eq, bytes_eq_iff,
  if◌then◌else◌, Bool-cases, inl, inr,
}
use aurora_engine.Json.{JsonValue, Fields, empty, field, get, insert, bytes_lt}
use aurora_engine.Json.Reading.{string, u64, u128, bool, string_of, number_of, bool_of}
use aurora_engine.Json.Texts.{Parsed, Members, end, build, insert_all}

if_again {ℓ} :
    {A : Type ℓ} (b : Bool) (x y z : A)
    → (if b then x else z) ≡ (if b then x else if b then y else z)
if_again true x y z = refl
if_again false x y z = refl

-- Two tests that exclude one another, in either order.
if_swap {ℓ} :
    {A : Type ℓ} (a b : Bool) (x y z : A)
    → ¬ ((a ≡ true) × (b ≡ true))
    → (if a then x else if b then y else z) ≡ (if b then y else if a then x else z)
if_swap true true x y z h = absurd (h (refl, refl))
if_swap true false x y z h = refl
if_swap false true x y z h = refl
if_swap false false x y z h = refl

bytes_eq_excludes :
    (k key j : Bytes) → bytes_eq k key ≡ false → ¬ ((bytes_eq k j ≡ true) × (bytes_eq key j ≡ true))
bytes_eq_excludes k key j h (e, d) =
    let same : k ≡ key = (bytes_eq_iff k j).0 e ∙ sym ((bytes_eq_iff key j).0 d) in
    cc (h, (bytes_eq_iff k key).1 same)

-- A member is read as it was inserted last.
pub get-insert :
    (key : Bytes) (v : JsonValue) (fields : Fields) (j : Bytes)
    → get j (insert key v fields) ≡ (if bytes_eq key j then some v else get j fields)
unfolding get insert
get-insert key v empty j = refl
get-insert key v (field k u fields) j = elim (Bool-cases (bytes_eq k key)) [
  | inl same ↦ rw same (
      ap (λ b. if b then some v else get j fields)
        (ap (λ k. bytes_eq k j) ((bytes_eq_iff k key).0 same))
      ∙ if_again (bytes_eq key j) (some v) (some u) (get j fields)
      ∙ ap (λ k. if bytes_eq key j then some v else if bytes_eq k j then some u else get j fields)
          (sym ((bytes_eq_iff k key).0 same)))
  | inr other ↦ elim (Bool-cases (bytes_lt key k)) [
    | inl lt ↦ rw (other, lt) refl
    | inr ge ↦
        rw (other, ge, get-insert key v fields j)
          (if_swap (bytes_eq k j) (bytes_eq key j) (some u) (some v) (get j fields)
            (bytes_eq_excludes k key j other))
  ]
]

-- The last member of a name.
abbrev pub later : Option JsonValue → Option JsonValue → Option JsonValue
later (some w) v = some w
later none v = v

abbrev pub last_of : Bytes → Members → Option JsonValue
last_of key end = none
last_of key (Members.member k v rest) =
    later (last_of key rest) (if bytes_eq k key then some (build v) else none)

later-if :
    (o : Option JsonValue) (b : Bool) (v : JsonValue) (old : Option JsonValue)
    → later o (if b then some v else old) ≡ later (later o (if b then some v else none)) old
later-if (some w) b v old = refl
later-if none true v old = refl
later-if none false v old = refl

get-insert_all :
    (key : Bytes) (members : Members) (fields : Fields)
    → get key (insert_all members fields) ≡ later (last_of key members) (get key fields)
unfolding build
get-insert_all key end fields = refl
get-insert_all key (Members.member k v rest) fields =
    get-insert_all key rest (insert k (build v) fields)
    ∙ ap (later (last_of key rest)) (get-insert k (build v) fields key)
    ∙ later-if (last_of key rest) (bytes_eq k key) (build v) (get key fields)

later-none : (o : Option JsonValue) → later o none ≡ o
later-none (some w) = refl
later-none none = refl

-- From an object that is parsed, a name gives the value of the last of its members in the text,
-- whatever their order is: as a string, as a number and as a Boolean, each if it is one, and none
-- where no member has the name.
pub build-last_of :
    (members : Members) (key : Bytes)
    → (string (build (Parsed.object members)) key ≡ string_of (last_of key members))
      × (u64 (build (Parsed.object members)) key ≡ number_of 64 (last_of key members))
      × (u128 (build (Parsed.object members)) key ≡ number_of 128 (last_of key members))
      × (bool (build (Parsed.object members)) key ≡ bool_of (last_of key members))
unfolding build get
build-last_of members key =
    let read : get key (insert_all members empty) ≡ last_of key members =
      get-insert_all key members empty ∙ later-none (last_of key members) in
    (ap string_of read, ap (number_of 64) read, ap (number_of 128) read, ap bool_of read)

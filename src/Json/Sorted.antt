-- ===== src/Json/Sorted.antt =====
-- The order of the names in the objects of src/json.rs, which are B-trees.
use aurora_engine.Prelude.{
  ◌≡◌, refl, sym, arith, true, false, [], ◌∷◌, Bytes, bytes_eq, bytes_eq_iff, Bool-cases, Option,
  some, none, inl, inr,
}
use aurora_engine.Json.{
  JsonValue, JsonValues, Fields, empty, field, nil, cons, array, object, insert, bytes_lt, push,
}
use aurora_engine.Json.Texts.{
  Parsed, ParsedList, Members, end, build, insert_all, push_all, Rjson, built, parse_json,
}
use mathlib.Core.Path.{subst}

bytes_lt-total : (a b : Bytes) → bytes_eq a b ≡ false → bytes_lt a b ≡ false → bytes_lt b a ≡ true
unfolding bytes_lt bytes_eq
bytes_lt-total (x ∷ a) (y ∷ b) e h = ground (arith, bytes_lt-total a b)
bytes_lt-total [] [] e h = cc e
bytes_lt-total [] (y ∷ b) e h = cc h
bytes_lt-total (x ∷ a) [] e h = refl

bytes_lt_trans : (a b c : Bytes) → bytes_lt a b ≡ true → bytes_lt b c ≡ true → bytes_lt a c ≡ true
unfolding bytes_lt
bytes_lt_trans (x ∷ a) (y ∷ b) (z ∷ c) h k = ground (arith, bytes_lt_trans a b c)
bytes_lt_trans [] _ (z ∷ c) h k = refl
bytes_lt_trans _ [] [] h k = cc
bytes_lt_trans _ (y ∷ b) [] h k = cc k
bytes_lt_trans (x ∷ a) [] (z ∷ c) h k = cc h

not_same : (key k : Bytes) → bytes_eq k key ≡ false → bytes_eq key k ≡ false
not_same key k h = elim (Bool-cases (bytes_eq key k)) [
  | inl e ↦ cc (h, (bytes_eq_iff k key).1 (sym ((bytes_eq_iff key k).0 e)))
  | inr e ↦ e
]

-- Every name stands behind `key`.
abbrev pub Above : Bytes → Fields → Type 0
Above key empty = Unit
Above key (field k v fields) = (bytes_lt key k ≡ true) × Above key fields

-- The names ascend, so that no name stands twice.
abbrev pub IsSorted : Fields → Type 0
IsSorted empty = Unit
IsSorted (field k v fields) = Above k fields × IsSorted fields

Above-trans :
    (j k : Bytes) (fields : Fields) → bytes_lt j k ≡ true → Above k fields → Above j fields
Above-trans j k empty h a = tt
Above-trans j k (field l v fields) h (a, r) = (bytes_lt_trans j k l h a, Above-trans j k fields h r)

insert-Above :
    (j key : Bytes) (v : JsonValue) (fields : Fields)
    → bytes_lt j key ≡ true
    → Above j fields
    → Above j (insert key v fields)
unfolding insert
insert-Above j key v empty h a = (h, tt)
insert-Above j key v (field k u fields) h (a, r) = elim (Bool-cases (bytes_eq k key)) [
  | inl same ↦ rw same (a, r)
  | inr other ↦ elim (Bool-cases (bytes_lt key k)) [
    | inl lt ↦ rw (other, lt) (h, (a, r))
    | inr ge ↦ rw (other, ge) (a, insert-Above j key v fields h r)
  ]
]

insert-IsSorted :
    (key : Bytes) (v : JsonValue) (fields : Fields)
    → IsSorted fields
    → IsSorted (insert key v fields)
unfolding insert
insert-IsSorted key v empty s = (tt, tt)
insert-IsSorted key v (field k u fields) (a, s) = elim (Bool-cases (bytes_eq k key)) [
  | inl same ↦ rw same (a, s)
  | inr other ↦ elim (Bool-cases (bytes_lt key k)) [
    | inl lt ↦ rw (other, lt) ((lt, Above-trans key k fields lt a), (a, s))
    | inr ge ↦
        let above : bytes_lt k key ≡ true = bytes_lt-total key k (not_same key k other) ge in
        rw (other, ge) (insert-Above k key v fields above a, insert-IsSorted key v fields s)
  ]
]

-- The names of every object in a value ascend.
abbrev mutual
  pub IsOrdered : JsonValue → Type 0
  IsOrdered (array values) = AreOrdered values
  IsOrdered (object fields) = IsSorted fields × HaveOrdered fields
  IsOrdered _ = Unit

  pub AreOrdered : JsonValues → Type 0
  AreOrdered nil = Unit
  AreOrdered (cons v values) = IsOrdered v × AreOrdered values

  pub HaveOrdered : Fields → Type 0
  HaveOrdered empty = Unit
  HaveOrdered (field k v fields) = IsOrdered v × HaveOrdered fields

insert-HaveOrdered :
    (key : Bytes) (v : JsonValue) (fields : Fields)
    → IsOrdered v
    → HaveOrdered fields
    → HaveOrdered (insert key v fields)
unfolding insert
insert-HaveOrdered key v empty h s = (h, tt)
insert-HaveOrdered key v (field k u fields) h (a, s) = elim (Bool-cases (bytes_eq k key)) [
  | inl same ↦ rw same (h, s)
  | inr other ↦ elim (Bool-cases (bytes_lt key k)) [
    | inl lt ↦ rw (other, lt) (h, (a, s))
    | inr ge ↦ rw (other, ge) (a, insert-HaveOrdered key v fields h s)
  ]
]

push-AreOrdered :
    (values : JsonValues) (v : JsonValue)
    → AreOrdered values
    → IsOrdered v
    → AreOrdered (push values v)
push-AreOrdered nil v h k = (k, tt)
push-AreOrdered (cons u values) v (a, h) k = (a, push-AreOrdered values v h k)

mutual
  unfolding build

  build-IsOrdered : (v : Parsed) → IsOrdered (build v)
  build-IsOrdered (Parsed.array values) = push_all-AreOrdered values nil tt
  build-IsOrdered (Parsed.object members) = insert_all-ordered members empty (tt, tt)
  build-IsOrdered Parsed.null = tt
  build-IsOrdered (Parsed.number n) = tt
  build-IsOrdered (Parsed.bool b) = tt
  build-IsOrdered (Parsed.string s) = tt

  push_all-AreOrdered :
      (list : ParsedList) (values : JsonValues)
      → AreOrdered values
      → AreOrdered (push_all list values)
  push_all-AreOrdered ParsedList.nil values h = h
  push_all-AreOrdered (ParsedList.cons v rest) values h =
      push_all-AreOrdered rest (push values (build v))
        (push-AreOrdered values (build v) h (build-IsOrdered v))

  insert_all-ordered :
      (members : Members) (fields : Fields)
      → IsSorted fields × HaveOrdered fields
      → IsSorted (insert_all members fields) × HaveOrdered (insert_all members fields)
  insert_all-ordered end fields h = h
  insert_all-ordered (Members.member k v rest) fields (s, h) =
      insert_all-ordered rest (insert k (build v) fields) (
        insert-IsSorted k (build v) fields s,
        insert-HaveOrdered k (build v) fields (build-IsOrdered v) h,
      )

built-IsOrdered : (o : Option Parsed) (v : JsonValue) → built o ≡ some v → IsOrdered v
built-IsOrdered none v e = cc e
built-IsOrdered (some parsed) v e =
    let same : build parsed ≡ v = cc e in subst IsOrdered same (build-IsOrdered parsed)

-- In what `parse_json` returns, the names of every object, at any depth, ascend in the order of
-- their bytes, so that no name stands twice.
pub parse_json-IsOrdered :
    (rjson : Rjson) (bytes : Bytes) (v : JsonValue) → parse_json rjson bytes ≡ some v → IsOrdered v
unfolding parse_json
parse_json-IsOrdered rjson bytes v e = built-IsOrdered (rjson.parse bytes 0) v e

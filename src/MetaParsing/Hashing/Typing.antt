-- ===== src/MetaParsing/Hashing/Typing.antt =====
-- Which values the argument hashes of src/meta_parsing.rs take: a value's type, without hashes.
use aurora_engine.Prelude.{
  ℕ, ◌+◌, ◌≤◌, ◌≡◌, ◌↔◌, refl, sym, ◌∙◌, ap, arith, some, List, [], ◌∷◌, ok, panic, abort, ok_or,
  expect, ok_or-ok, expect-ok, >>=-ok, >>=-next, Bytes, length, get_elem?, drop, get_elem?-drop,
  drop-get_elem?, ◌==◌, if◌then◌else◌, invalid_meta_transaction_function_arg,
}
use aurora_engine.Packages.{Primitives, Crypto, IsAddress}
use aurora_engine.MetaParsing.Syntax.{
  ArgType, array, address, uint, int, string, bool, byte, custom, Arg, Method, RlpValue, RlpValues,
  list, nil, cons,
}
use aurora_engine.MetaParsing.Methods.{find_type}
use aurora_engine.MetaParsing.Hashing.{hash_argument, hash_elements, hash_fields, hash_bytes}

-- A byte string of a type: numbers have at most 32 bytes, addresses 20.
abbrev pub FitsBytes : ArgType → Bytes → Type 0
FitsBytes string b = Unit
FitsBytes ArgType.bytes b = Unit
FitsBytes (byte n) b = Unit
FitsBytes uint b = length b ≤ 32
FitsBytes int b = length b ≤ 32
FitsBytes bool b = length b ≤ 32
FitsBytes address b = IsAddress b
FitsBytes (array n inner) b = ⊥
FitsBytes (custom name) b = ⊥

module _ (types : List (Bytes × Method)) where
  -- A value of a type: a list for an array, of any length, and a list for a declared struct, whose
  -- values have the types of the first fields.
  abbrev mutual
    pub Fits : ArgType → RlpValue → Type 0
    Fits ty (RlpValue.bytes b) = FitsBytes ty b
    Fits (array n inner) (list l) = FitsAll inner l
    Fits (custom name) (list l) =
        (t : Method) × (find_type types name ≡ some t) × FitsFields t.args l
    Fits _ (list l) = ⊥

    pub FitsAll : ArgType → RlpValues → Type 0
    FitsAll inner nil = Unit
    FitsAll inner (cons v l) = Fits inner v × FitsAll inner l

    pub FitsFields : List Arg → RlpValues → Type 0
    FitsFields args nil = Unit
    FitsFields [] (cons v l) = ⊥
    FitsFields (a ∷ args) (cons v l) = Fits a.t v × FitsFields args l

h160_of_address : (p : Primitives) (b : Bytes) → IsAddress b → p.h160_from_slice b ≡ ok b
h160_of_address p b f = p.h160_from_slice_lem b ∙ rw f refl

h160_from_slice-IsAddress :
    (p : Primitives) (b : Bytes) {a : Bytes} → p.h160_from_slice b ≡ ok a → IsAddress b
h160_from_slice-IsAddress p b {a} e =
    let read : (if length b == 20 then ok b else panic abort) ≡ ok a =
      sym (p.h160_from_slice_lem b) ∙ e in
    ground arith

Fits-bytes_ok :
    (p : Primitives) (c : Crypto) (ty : ArgType) (b : Bytes)
    → FitsBytes ty b
    → (h : Bytes) × (hash_bytes p c ty b ≡ ok h)
Fits-bytes_ok p c string b f = (c.keccak b, refl)
Fits-bytes_ok p c ArgType.bytes b f = (c.keccak b, refl)
Fits-bytes_ok p c (byte n) b f = (b, refl)
Fits-bytes_ok p c uint b f = (_, >>=-next (p.from_big_endian b) _ (p.from_big_endian_short b f))
Fits-bytes_ok p c int b f = (_, >>=-next (p.from_big_endian b) _ (p.from_big_endian_short b f))
Fits-bytes_ok p c bool b f = (_, >>=-next (p.from_big_endian b) _ (p.from_big_endian_short b f))
Fits-bytes_ok p c address b f = (_, >>=-next (p.h160_from_slice b) _ (h160_of_address p b f))
Fits-bytes_ok p c (array n inner) b f = absurd f
Fits-bytes_ok p c (custom name) b f = absurd f

short_of_ok : (p : Primitives) (b : Bytes) {n : ℕ} → p.from_big_endian b ≡ ok n → length b ≤ 32
short_of_ok p b {n} e = ground (arith, p.from_big_endian_long b)

hash_bytes-FitsBytes :
    (p : Primitives) (c : Crypto) (ty : ArgType) (b : Bytes) {h : Bytes}
    → hash_bytes p c ty b ≡ ok h
    → FitsBytes ty b
hash_bytes-FitsBytes p c string b e = tt
hash_bytes-FitsBytes p c ArgType.bytes b e = tt
hash_bytes-FitsBytes p c (byte n) b e = tt
hash_bytes-FitsBytes p c uint b e = short_of_ok p b (>>=-ok (p.from_big_endian b) _ e).1
hash_bytes-FitsBytes p c int b e = short_of_ok p b (>>=-ok (p.from_big_endian b) _ e).1
hash_bytes-FitsBytes p c bool b e = short_of_ok p b (>>=-ok (p.from_big_endian b) _ e).1
hash_bytes-FitsBytes p c address b e =
    h160_from_slice-IsAddress p b (>>=-ok (p.h160_from_slice b) _ e).1
hash_bytes-FitsBytes p c (array n inner) b e = cc e
hash_bytes-FitsBytes p c (custom name) b e = cc e

module _ (p : Primitives) (c : Crypto) (types : List (Bytes × Method)) where
  -- Every value that fits is hashed.
  mutual
    unfolding hash_argument

    hash_argument-ok :
        (ty : ArgType) (v : RlpValue)
        → Fits types ty v
        → (h : Bytes) × (hash_argument p c types ty v ≡ ok h)
    hash_argument-ok ty (RlpValue.bytes b) f = Fits-bytes_ok p c ty b f
    hash_argument-ok (array n inner) (list l) f =
        let (h, e) = hash_elements-ok inner l f in
        (_, >>=-next (hash_elements p c types inner l) _ e)
    hash_argument-ok (custom name) (list l) (t, found, f) =
        let (h, e) = hash_fields-ok t.args 0 t.args l refl f in
        (
          _,
          >>=-next (ok_or (find_type types name) invalid_meta_transaction_function_arg) _
                (ap (λ o. ok_or o invalid_meta_transaction_function_arg) found)
              ∙ >>=-next (hash_fields p c types t.args 0 l) _ e,
        )
    hash_argument-ok _ (list l) f = absurd f

    hash_elements-ok :
        (inner : ArgType) (l : RlpValues)
        → FitsAll types inner l
        → (h : Bytes) × (hash_elements p c types inner l ≡ ok h)
    hash_elements-ok inner nil f = ([], refl)
    hash_elements-ok inner (cons v l) (fv, fl) =
        let (h, e) = hash_argument-ok inner v fv in
        let (r, e') = hash_elements-ok inner l fl in
        (
          _,
          >>=-next (hash_argument p c types inner v) _ e
              ∙ >>=-next (hash_elements p c types inner l) _ e',
        )

    hash_fields-ok :
        (args : List Arg) (i : ℕ) (rest : List Arg) (l : RlpValues)
        → drop i args ≡ rest
        → FitsFields types rest l
        → (h : Bytes) × (hash_fields p c types args i l ≡ ok h)
    hash_fields-ok args i rest nil d f = ([], refl)
    hash_fields-ok args i [] (cons v l) d f = absurd f
    hash_fields-ok args i (a ∷ rest) (cons v l) d (fv, fl) =
        let (stands, left) = get_elem?-drop args i a rest d in
        let (h, e) = hash_argument-ok a.t v fv in
        let (r, e') = hash_fields-ok args (i + 1) rest l left fl in
        (
          _,
          >>=-next (expect (get_elem? args i)) _ (ap expect stands)
              ∙ >>=-next (hash_argument p c types a.t v) _ e
              ∙ >>=-next (hash_fields p c types args (i + 1) l) _ e',
        )

  -- Every value that is hashed fits.
  mutual
    unfolding hash_argument

    hash_argument-Fits :
        (ty : ArgType) (v : RlpValue) (h : Bytes)
        → hash_argument p c types ty v ≡ ok h
        → Fits types ty v
    hash_argument-Fits ty (RlpValue.bytes b) h e = hash_bytes-FitsBytes p c ty b e
    hash_argument-Fits (array n inner) (list l) h e =
        let (r, e', _) = >>=-ok (hash_elements p c types inner l) _ e in
        hash_elements-FitsAll inner l r e'
    hash_argument-Fits (custom name) (list l) h e =
        let (t, found, e1) =
          >>=-ok (ok_or (find_type types name) invalid_meta_transaction_function_arg) _ e in
        let (r, e2, _) = >>=-ok (hash_fields p c types t.args 0 l) _ e1 in
        (
          t,
          ok_or-ok (find_type types name) invalid_meta_transaction_function_arg found,
          hash_fields-FitsFields t.args 0 l r e2,
        )
    hash_argument-Fits _ (list l) h e = cc e

    hash_elements-FitsAll :
        (inner : ArgType) (l : RlpValues) (h : Bytes)
        → hash_elements p c types inner l ≡ ok h
        → FitsAll types inner l
    hash_elements-FitsAll inner nil h e = tt
    hash_elements-FitsAll inner (cons v l) h e =
        let (a, e1, r1) = >>=-ok (hash_argument p c types inner v) _ e in
        let (b, e2, _) = >>=-ok (hash_elements p c types inner l) _ r1 in
        (hash_argument-Fits inner v a e1, hash_elements-FitsAll inner l b e2)

    hash_fields-FitsFields :
        (args : List Arg) (i : ℕ) (l : RlpValues) (h : Bytes)
        → hash_fields p c types args i l ≡ ok h
        → FitsFields types (drop i args) l
    hash_fields-FitsFields args i nil h e = tt
    hash_fields-FitsFields args i (cons v l) h e =
        let (a, e1, r1) = >>=-ok (expect (get_elem? args i)) _ e in
        let (x, e2, r2) = >>=-ok (hash_argument p c types a.t v) _ r1 in
        let (y, e3, _) = >>=-ok (hash_fields p c types args (i + 1) l) _ r2 in
        let both : Fits types a.t v × FitsFields types (drop (i + 1) args) l =
          (hash_argument-Fits a.t v x e2, hash_fields-FitsFields args (i + 1) l y e3) in
        rw (drop-get_elem? args i (expect-ok (get_elem? args i) e1)) both

  -- An argument is hashed, by a struct type or an array as deep as it may be nested, exactly when
  -- its value has its type: numbers of at most 32 bytes, addresses of 20 bytes, a list for an array
  -- and for a struct that is declared, with no more values than the struct has fields. An array
  -- may have any number of elements, and a struct fewer values than fields.
  pub hash_argument-iff_Fits :
      (ty : ArgType) (v : RlpValue)
      → ((h : Bytes) × (hash_argument p c types ty v ≡ ok h)) ↔ Fits types ty v
  hash_argument-iff_Fits ty v = ((λ (h, e). hash_argument-Fits ty v h e), hash_argument-ok ty v)

  -- The values of a method are hashed exactly when they have the types of its first arguments.
  pub hash_fields-iff_FitsFields :
      (args : List Arg) (l : RlpValues)
      → ((h : Bytes) × (hash_fields p c types args 0 l ≡ ok h)) ↔ FitsFields types args l
  hash_fields-iff_FitsFields args l =
      ((λ (h, e). hash_fields-FitsFields args 0 l h e), hash_fields-ok args 0 args l refl)

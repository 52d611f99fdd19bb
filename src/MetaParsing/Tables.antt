-- ===== src/MetaParsing/Tables.antt =====
-- The types of a meta-transaction in src/meta_parsing.rs are a `HashMap`, and hashing only looks names
-- up. The model's list of types stands for it, up to what a look-up finds, so that its order does not
-- count.
use mathlib.Core.Quot
use mathlib.Core.Quot.{Quot, Quot-set}
use native.Mathlib.Nat.{ℕ_set}
use aurora_engine.Prelude.{
  ℕ, ◌+◌, ◌≡◌, ◌≢◌, refl, ap, Option, some, List, ◌∷◌, Outcome, ok, ◌>>=◌, >>=_cong, ok_or, expect,
  Bytes, get_elem?, bytes_eq, bytes_eq_iff, if◌then◌else◌, ◌++◌,
  invalid_meta_transaction_function_arg, arith,
}
use aurora_engine.Packages.{Primitives, Crypto}
use aurora_engine.MetaParsing.Syntax.{ArgType, Arg, Method, RlpValue, RlpValues}
use aurora_engine.MetaParsing.Methods.{find_type, insert_type}
use aurora_engine.MetaParsing.Methods.Inserts.{Types, find_type-insert_type}
use aurora_engine.MetaParsing.Hashing.{hash_argument, hash_elements, hash_fields}

-- Every name has the same type in both.
abbrev pub SameTypes : Types → Types → Type 0
SameTypes types others = (name : Bytes) → find_type types name ≡ find_type others name

module _ (p : Primitives) (c : Crypto) (types others : Types) (same : SameTypes types others) where
  mutual
    unfolding hash_argument

    pub hash_argument-SameTypes :
        (ty : ArgType) (value : RlpValue)
        → hash_argument p c types ty value ≡ hash_argument p c others ty value
    hash_argument-SameTypes ty (RlpValue.bytes b) = refl
    hash_argument-SameTypes (ArgType.array n inner) (RlpValue.list l) =
        ap (λ o. o >>= λ r. ok (c.keccak r)) (hash_elements-SameTypes inner l)
    hash_argument-SameTypes (ArgType.custom name) (RlpValue.list l) = rw (same name) (
        >>=_cong (ok_or (find_type others name) invalid_meta_transaction_function_arg) _ _ (λ t.
          ap (λ o. o >>= λ r. ok (c.keccak (c.keccak t.raw ++ r)))
            (hash_fields-SameTypes t.args 0 l)))
    hash_argument-SameTypes _ (RlpValue.list l) = refl

    hash_elements-SameTypes :
        (inner : ArgType) (l : RlpValues)
        → hash_elements p c types inner l ≡ hash_elements p c others inner l
    hash_elements-SameTypes inner RlpValues.nil = refl
    hash_elements-SameTypes inner (RlpValues.cons element l) =
        rw (hash_argument-SameTypes inner element) (
          >>=_cong (hash_argument p c others inner element) _ _
            (λ h. ap (λ o. o >>= λ r. ok (h ++ r)) (hash_elements-SameTypes inner l)))

    hash_fields-SameTypes :
        (args : List Arg) (i : ℕ) (l : RlpValues)
        → hash_fields p c types args i l ≡ hash_fields p c others args i l
    hash_fields-SameTypes args i RlpValues.nil = refl
    hash_fields-SameTypes args i (RlpValues.cons element l) =
        >>=_cong (expect (get_elem? args i)) _ _ (λ arg.
          rw (hash_argument-SameTypes arg.t element) (
            >>=_cong (hash_argument p c others arg.t element) _ _
              (λ h. ap (λ o. o >>= λ r. ok (h ++ r)) (hash_fields-SameTypes args (i + 1) l))))

-- The map: a list of types, of which nothing but the look-ups counts.
abbrev pub Table : Type 0
Table = Quot SameTypes

abbrev pub table_of : Types → Table
table_of = Quot.mk

-- `parsed_types.insert`
unfoldable pub define : Bytes → Method → Table → Table
define name t =
    Quot.lift Quot-set (λ types. table_of ((name, t) ∷ types))
      (λ types others h. Quot.sound (λ n. rw (h n) refl))

unfoldable pub look_up : Bytes → Table → Option Method
look_up name = Quot.lift (hlevel ℕ_set) (λ types. find_type types name) (λ types others h. h name)

-- Hashing reads the map alone.
unfoldable pub hash_in : Primitives → Crypto → ArgType → RlpValue → Table → Outcome Bytes
hash_in p c ty value =
    Quot.lift (hlevel ℕ_set) (λ types. hash_argument p c types ty value)
      (λ types others h. hash_argument-SameTypes p c types others h ty value)

-- A type is found under its name, and no other name finds another type.
pub look_up-define :
    (name : Bytes) (t : Method) (n : Bytes) (table : Table)
    → look_up n (define name t table) ≡ (if bytes_eq name n then some t else look_up n table)
unfolding look_up define
look_up-define name t n = Quot.ind (λ table. hlevel ℕ_set) (λ types. refl)

-- A map is what it finds.
pub table_ext : (s t : Table) → ((n : Bytes) → look_up n s ≡ look_up n t) → s ≡ t
unfolding look_up
table_ext =
    Quot.ind (λ s. hlevel Quot-set)
      (λ types. Quot.ind (λ t. hlevel Quot-set) (λ others. Quot.sound))

either_first :
    {A : Type 0} (name other n : Bytes) (a b c : A)
    → name ≢ other
    → (if bytes_eq name n then a else if bytes_eq other n then b else c)
      ≡ (if bytes_eq other n then b else if bytes_eq name n then a else c)
either_first name other n a b c ne = ground (arith, bytes_eq_iff name n, bytes_eq_iff other n)

-- Two types of different names may be defined in either order.
pub define_comm :
    (name other : Bytes) (t u : Method) (table : Table)
    → name ≢ other
    → define name t (define other u table) ≡ define other u (define name t table)
define_comm name other t u table ne = table_ext _ _ (λ n.
    rw
      (
        look_up-define name t n (define other u table),
        look_up-define other u n table,
        look_up-define other u n (define name t table),
        look_up-define name t n table,
      )
      (either_first name other n (some t) (some u) (look_up n table) ne))

-- The parser's insertion is the map's.
pub insert_type-define :
    (name : Bytes) (t : Method) (types : Types)
    → table_of (insert_type name t types) ≡ define name t (table_of types)
unfolding define
insert_type-define name t types = Quot.sound (find_type-insert_type name t types)

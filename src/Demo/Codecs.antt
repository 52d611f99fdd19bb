-- ===== src/Demo/Codecs.antt =====
-- Records encoded with the lengths of their fields, and validated when they are read.
use aurora_engine.Prelude.{
  ℕ, ◌≡◌, ◌↔◌, refl, Bool, true, ◌&&◌, Option, none, some, [], ◌∷◌, ◌++◌, arith, Bytes, length,
  take, drop, cuts, ltb, ◌==◌, if◌then◌else◌,
}
use aurora_engine.Packages.{Codec, u64_mod}
use aurora_engine.Parameters.{
  EngineState, IsEngineState, NewCallArgs, IsNewCallArgs, FunctionCallArgs, IsFunctionCallArgs,
  ViewCallArgs, IsViewCallArgs, GetStorageAtArgs, IsGetStorageAtArgs, BeginChainArgs,
  IsBeginChainArgs, MetaCallArgs, IsMetaCallArgs,
}

module _ {A : Type 0} {IsValue : A → Type 0} (write : A → Bytes) (read : Bytes → A)
    (read-write : (a : A) → read (write a) ≡ a) (check : A → Bool)
    (check_iff : (a : A) → (check a ≡ true) ↔ IsValue a) where
  abbrev pub checked : Bytes → Option A
  checked b = if check (read b) then some (read b) else none

  pub checked-write : (a : A) → IsValue a → checked (write a) ≡ some a
  checked-write a h = rw (read-write a, (check_iff a).1 h) refl

  pub checked-IsValue : (b : Bytes) {a : A} → checked b ≡ some a → IsValue a
  checked-IsValue b {a} e = (check_iff a).0 (ground arith)

  abbrev pub checked_codec : Codec A IsValue
  checked_codec = record {
    to_vec = write;
    from_slice = checked;
    from_slice-to_vec = checked-write;
    from_slice-IsValue = λ b e. checked-IsValue b e;
  }

-- Two byte strings in one.
abbrev pub pair : Bytes → Bytes → Bytes
pair a b = length a ∷ (a ++ b)

abbrev pub first : Bytes → Bytes
first [] = []
first (n ∷ r) = take n r

abbrev pub second : Bytes → Bytes
second [] = []
second (n ∷ r) = drop n r

abbrev head : Bytes → ℕ
head [] = 0
head (n ∷ r) = n

abbrev write_state : EngineState → Bytes
write_state x =
    pair x.chain_id (pair x.owner_id (pair x.bridge_prover_id (x.upgrade_delay_blocks ∷ [])))

abbrev read_state : Bytes → EngineState
read_state b = record {
  chain_id = first b;
  owner_id = first (second b);
  bridge_prover_id = first (second (second b));
  upgrade_delay_blocks = head (second (second (second b)));
}

pub read-write_state : (x : EngineState) → read_state (write_state x) ≡ x
read-write_state x = simp cuts

abbrev check_state : EngineState → Bool
check_state x = length x.chain_id == 32 && ltb x.upgrade_delay_blocks u64_mod

pub check_state_iff : (x : EngineState) → (check_state x ≡ true) ↔ IsEngineState x
check_state_iff x = ground arith

abbrev pub state_codec : Codec EngineState IsEngineState
state_codec = checked_codec write_state read_state read-write_state check_state check_state_iff

abbrev write_new_call_args : NewCallArgs → Bytes
write_new_call_args x =
    pair x.chain_id (pair x.owner_id (pair x.bridge_prover_id (x.upgrade_delay_blocks ∷ [])))

abbrev read_new_call_args : Bytes → NewCallArgs
read_new_call_args b = record {
  chain_id = first b;
  owner_id = first (second b);
  bridge_prover_id = first (second (second b));
  upgrade_delay_blocks = head (second (second (second b)));
}

pub read-write_new_call_args : (x : NewCallArgs) → read_new_call_args (write_new_call_args x) ≡ x
read-write_new_call_args x = simp cuts

abbrev check_new_call_args : NewCallArgs → Bool
check_new_call_args x = length x.chain_id == 32 && ltb x.upgrade_delay_blocks u64_mod

pub check_new_call_args_iff : (x : NewCallArgs) → (check_new_call_args x ≡ true) ↔ IsNewCallArgs x
check_new_call_args_iff x = ground arith

abbrev pub new_call_args_codec : Codec NewCallArgs IsNewCallArgs
new_call_args_codec =
    checked_codec write_new_call_args read_new_call_args read-write_new_call_args
      check_new_call_args check_new_call_args_iff

abbrev write_function_call_args : FunctionCallArgs → Bytes
write_function_call_args x = pair x.contract x.input

abbrev read_function_call_args : Bytes → FunctionCallArgs
read_function_call_args b = record { contract = first b; input = (second b) }

pub read-write_function_call_args :
    (x : FunctionCallArgs) → read_function_call_args (write_function_call_args x) ≡ x
read-write_function_call_args x = simp cuts

abbrev check_function_call_args : FunctionCallArgs → Bool
check_function_call_args x = length x.contract == 20

pub check_function_call_args_iff :
    (x : FunctionCallArgs) → (check_function_call_args x ≡ true) ↔ IsFunctionCallArgs x
check_function_call_args_iff x = ground arith

abbrev pub function_call_args_codec : Codec FunctionCallArgs IsFunctionCallArgs
function_call_args_codec =
    checked_codec write_function_call_args read_function_call_args read-write_function_call_args
      check_function_call_args check_function_call_args_iff

abbrev write_view_call_args : ViewCallArgs → Bytes
write_view_call_args x = pair x.sender (pair x.address (pair x.amount x.input))

abbrev read_view_call_args : Bytes → ViewCallArgs
read_view_call_args b = record {
  sender = first b;
  address = first (second b);
  amount = first (second (second b));
  input = (second (second (second b)));
}

pub read-write_view_call_args :
    (x : ViewCallArgs) → read_view_call_args (write_view_call_args x) ≡ x
read-write_view_call_args x = simp cuts

abbrev check_view_call_args : ViewCallArgs → Bool
check_view_call_args x = length x.sender == 20 && length x.address == 20 && length x.amount == 32

pub check_view_call_args_iff :
    (x : ViewCallArgs) → (check_view_call_args x ≡ true) ↔ IsViewCallArgs x
check_view_call_args_iff x = ground arith

abbrev pub view_call_args_codec : Codec ViewCallArgs IsViewCallArgs
view_call_args_codec =
    checked_codec write_view_call_args read_view_call_args read-write_view_call_args
      check_view_call_args check_view_call_args_iff

abbrev write_get_storage_at_args : GetStorageAtArgs → Bytes
write_get_storage_at_args x = pair x.address x.key

abbrev read_get_storage_at_args : Bytes → GetStorageAtArgs
read_get_storage_at_args b = record { address = first b; key = (second b) }

pub read-write_get_storage_at_args :
    (x : GetStorageAtArgs) → read_get_storage_at_args (write_get_storage_at_args x) ≡ x
read-write_get_storage_at_args x = simp cuts

abbrev check_get_storage_at_args : GetStorageAtArgs → Bool
check_get_storage_at_args x = length x.address == 20 && length x.key == 32

pub check_get_storage_at_args_iff :
    (x : GetStorageAtArgs) → (check_get_storage_at_args x ≡ true) ↔ IsGetStorageAtArgs x
check_get_storage_at_args_iff x = ground arith

abbrev pub get_storage_at_args_codec : Codec GetStorageAtArgs IsGetStorageAtArgs
get_storage_at_args_codec =
    checked_codec write_get_storage_at_args read_get_storage_at_args read-write_get_storage_at_args
      check_get_storage_at_args check_get_storage_at_args_iff

abbrev write_begin_chain_args : BeginChainArgs → Bytes
write_begin_chain_args x = x.chain_id

abbrev read_begin_chain_args : Bytes → BeginChainArgs
read_begin_chain_args b = record { chain_id = b }

pub read-write_begin_chain_args :
    (x : BeginChainArgs) → read_begin_chain_args (write_begin_chain_args x) ≡ x
read-write_begin_chain_args x = refl

abbrev check_begin_chain_args : BeginChainArgs → Bool
check_begin_chain_args x = length x.chain_id == 32

pub check_begin_chain_args_iff :
    (x : BeginChainArgs) → (check_begin_chain_args x ≡ true) ↔ IsBeginChainArgs x
check_begin_chain_args_iff x = ground arith

abbrev pub begin_chain_args_codec : Codec BeginChainArgs IsBeginChainArgs
begin_chain_args_codec =
    checked_codec write_begin_chain_args read_begin_chain_args read-write_begin_chain_args
      check_begin_chain_args check_begin_chain_args_iff

abbrev write_meta_call_args : MetaCallArgs → Bytes
write_meta_call_args x = pair x.signature (
    pair x.nonce (
      pair x.fee_amount (
        pair x.fee_address
          (pair x.contract_address (pair x.value (pair x.method_def (pair x.args (x.v ∷ []))))))))

abbrev read_meta_call_args : Bytes → MetaCallArgs
read_meta_call_args b = record {
  signature = first b;
  nonce = first (second b);
  fee_amount = first (second (second b));
  fee_address = first (second (second (second b)));
  contract_address = first (second (second (second (second b))));
  value = first (second (second (second (second (second b)))));
  method_def = first (second (second (second (second (second (second b))))));
  args = first (second (second (second (second (second (second (second b)))))));
  v = head (second (second (second (second (second (second (second (second b))))))));
}

pub read-write_meta_call_args :
    (x : MetaCallArgs) → read_meta_call_args (write_meta_call_args x) ≡ x
read-write_meta_call_args x = simp cuts

abbrev check_meta_call_args : MetaCallArgs → Bool
check_meta_call_args x =
    length x.signature == 64
    && ltb x.v 256
    && length x.nonce == 32
    && length x.fee_amount == 32
    && length x.fee_address == 20
    && length x.contract_address == 20
    && length x.value == 32

pub check_meta_call_args_iff :
    (x : MetaCallArgs) → (check_meta_call_args x ≡ true) ↔ IsMetaCallArgs x
check_meta_call_args_iff x = ground arith

abbrev pub meta_call_args_codec : Codec MetaCallArgs IsMetaCallArgs
meta_call_args_codec =
    checked_codec write_meta_call_args read_meta_call_args read-write_meta_call_args
      check_meta_call_args check_meta_call_args_iff

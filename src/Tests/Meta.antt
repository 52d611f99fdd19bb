-- ===== src/Tests/Meta.antt =====
-- Meta-transactions at concrete inputs.
use aurora_engine.Prelude.{
  ◌≡◌, ◌⊎◌, refl, true, arith, none, [], ◌∷◌, Outcome, ok, slice, >>=-next, Bytes, codes, bytes_eq,
  replicate,
}
use aurora_engine.Types.{InternalMetaCallArgs}
use aurora_engine.Parameters.{MetaCallArgs}
use aurora_engine.MetaParsing.Methods.{find, parse_method_and_types}
use aurora_engine.MetaParsing.Hashing.{hash_fields, near_erc712_domain}
use aurora_engine.MetaParsing.Abi.{eth_abi_encode_args}
use aurora_engine.MetaParsing.MetaCall.{digest_of, prepare_meta_call_args, parse_meta_call}
use aurora_engine.MetaParsing.MetaCall.Signed.{HashesCollide}
use aurora_engine.MetaParsing.MetaCall.Signed.{SameCall, prepare_meta_call_args-binds}
use aurora_engine.MetaParsing.MetaCall.Recovers.{IsSignedCall, parse_meta_call-IsSignedCall}
use aurora_engine.Contract.Meta.{meta_call, HasRunSigned, meta_call-HasRunSigned}
use aurora_engine.Contract.{process_exit_reason}
use aurora_engine.Evm.{succeed}
use aurora_engine.Sdk.{return_output}
use aurora_engine.Engine.{
  Engine, default_state, get_state, get_nonce, get_balance, get_code as account_code, get_storage,
}
use aurora_engine.Engine.Slots.{content}
use aurora_engine.Engine.ApplyBackend.Frame.{is_global}
use aurora_engine.Storage.Keys.{Slot}
use aurora_engine.Contract.Views.{get_code}
use aurora_engine.Contract.Users.{by_meta_call, by_get_code}
use aurora_engine.Contract.Users.History.{History, none_yet, next, History-globals}
use aurora_engine.Engine.Abstract.{apply_all, Represents}
use aurora_engine.Engine.Calls.{call}
use aurora_engine.Engine.Calls.Refines.{call-apply_all}
use aurora_engine.Tests.Calls.{no_accounts}
use aurora_engine.Demo.{World, platform, execution, word_of, address_of}

abbrev value_of {ℓ} : {A : Type ℓ} → Outcome A → A → A
value_of (ok a) default = a
value_of _ default = default

abbrev pub transfer_call : InternalMetaCallArgs
transfer_call = record {
  sender = address_of 0;
  nonce = 1;
  fee_amount = 2;
  fee_address = address_of 3;
  contract_address = address_of 4;
  value = 5;
  input = 193 ∷ 9 ∷ [];
}

prepare_meta_call_args-binds_example :
    SameCall platform.primitives platform.crypto platform.meta
      (word_of 1)
      (word_of 1)
      (codes "aurora")
      (codes "aurora")
      (codes "f(uint256 a)")
      (codes "f(uint256 a)")
      transfer_call
      transfer_call
    ⊎ HashesCollide platform.primitives platform.crypto platform.meta
        (word_of 1)
        (word_of 1)
        (codes "aurora")
        (codes "aurora")
        (codes "f(uint256 a)")
        (codes "f(uint256 a)")
        transfer_call
        transfer_call
unfolding prepare_meta_call_args find parse_method_and_types bytes_eq hash_fields
    eth_abi_encode_args
prepare_meta_call_args-binds_example =
    prepare_meta_call_args-binds platform.primitives platform.crypto platform.meta (word_of 1)
      (word_of 1) (codes "aurora") (codes "aurora") (codes "f(uint256 a)") (codes "f(uint256 a)")
      transfer_call transfer_call refl refl
      (record {
        nonce_u256 = omega arith;
        fee_amount_u256 = omega arith;
        value_u256 = omega arith;
        fee_address_address = refl;
        contract_address_address = refl;
      })
      (record {
        nonce_u256 = omega arith;
        fee_amount_u256 = omega arith;
        value_u256 = omega arith;
        fee_address_address = refl;
        contract_address_address = refl;
      })
      refl refl

abbrev signed_args : MetaCallArgs
signed_args = record {
  signature = replicate 64 8;
  v = 28;
  nonce = word_of 0;
  fee_amount = word_of 0;
  fee_address = address_of 3;
  contract_address = address_of 4;
  value = word_of 0;
  method_def = codes "f(uint256 a)";
  args = 193 ∷ 9 ∷ [];
}

abbrev sent : Bytes
sent = platform.meta_call_args.to_vec signed_args

abbrev domain : Bytes
domain = near_erc712_domain platform.primitives platform.crypto 0

abbrev pub parsed_call : InternalMetaCallArgs
unfolding parse_meta_call
parsed_call =
    value_of
      (parse_meta_call platform.primitives platform.crypto platform.meta platform.meta_call_args
        domain (codes "aurora") sent)
      transfer_call

parse_meta_call-IsSignedCall_example :
    IsSignedCall platform.primitives platform.crypto platform.meta platform.meta_call_args domain
      (codes "aurora")
      sent
      parsed_call
unfolding parse_meta_call parsed_call find parse_method_and_types bytes_eq hash_fields
    eth_abi_encode_args digest_of slice near_erc712_domain
parse_meta_call-IsSignedCall_example =
    parse_meta_call-IsSignedCall platform.primitives platform.crypto platform.meta
      platform.meta_call_args domain (codes "aurora") sent {result = parsed_call} refl

abbrev pub relayed : World
relayed = record {
  context = record {
    input = sent;
    predecessor_account_id = codes "relayer";
    current_account_id = codes "aurora";
    block_index = 100;
    block_timestamp = 7;
  };
  store = λ k. none;
  output = none;
  logs = [];
  deployed = [];
}

pub relayed-Represents : Represents platform relayed no_accounts
unfolding get_nonce get_balance account_code get_storage
relayed-Represents = record {
  nonces = λ a h. refl;
  balances = λ a h. refl;
  codes = λ a h. refl;
  cells = λ a k h hk. refl;
}

abbrev pub signer : Engine
signer = record { state = default_state; origin = parsed_call.sender }

abbrev pub signed_run :
    (w : World) × (call platform signer parsed_call.sender parsed_call.contract_address
        parsed_call.value parsed_call.input relayed
      ≡ ok (succeed, parsed_call.input, w))
    × Represents platform w (apply_all (execution parsed_call.input).values no_accounts)
signed_run =
    call-apply_all platform signer no_accounts relayed relayed-Represents parsed_call.sender
      parsed_call.contract_address parsed_call.value parsed_call.input (execution parsed_call.input)
      refl

abbrev pub after_call : World
after_call = return_output platform parsed_call.input signed_run.0

pub meta_call-ok : meta_call platform relayed ≡ ok after_call
unfolding meta_call get_state process_exit_reason parse_meta_call parsed_call find
    parse_method_and_types bytes_eq hash_fields eth_abi_encode_args digest_of slice
    near_erc712_domain
meta_call-ok =
    >>=-next
      (call platform signer parsed_call.sender parsed_call.contract_address parsed_call.value
        parsed_call.input relayed)
      (λ (status, result, w'). process_exit_reason platform status result w') signed_run.1

meta_call-HasRunSigned_example : HasRunSigned platform relayed after_call
meta_call-HasRunSigned_example = meta_call-HasRunSigned platform relayed meta_call-ok

-- The next call reads the code of an account.
abbrev reading : World
reading = record after_call {
  context = record {
    input = address_of 1;
    predecessor_account_id = codes "alice";
    current_account_id = codes "aurora";
    block_index = 101;
    block_timestamp = 8;
  };
}

abbrev read_code : World
read_code = return_output platform (account_code platform (address_of 1) reading) reading

get_code-ok : get_code platform reading ≡ ok read_code
unfolding get_code
get_code-ok = refl

abbrev two_calls : History platform relayed read_code
two_calls =
    next (next none_yet (λ s. refl) (by_meta_call meta_call-ok)) (λ s. refl)
      (by_get_code get_code-ok)

History-globals_example :
    (get_state platform read_code ≡ get_state platform relayed)
    × ((s : Slot) → is_global s ≡ true → content platform read_code s ≡ content platform relayed s)
History-globals_example = History-globals platform two_calls

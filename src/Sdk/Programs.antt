-- ===== src/Sdk/Programs.antt =====
-- Code over the functions of src/sdk.rs, and its run by their descriptions in Sdk.
use aurora_engine.Prelude.{
  ℕ, ◌≡◌, refl, ap, sym, ◌∙◌, Option, ErrorKind, Panic, Outcome, ok, err, panic, ◌>>=◌, >>=_cong,
  >>=_assoc, Bytes,
}
use aurora_engine.Platform.{Platform}
use aurora_engine.Sdk
use aurora_engine.Sdk.Held.{Short, ShortIfAny}

pub data Operation : Type 0 where
  read_input : Operation
  read_input_arr20 : Operation
  read_input_and_store : Bytes → Operation
  return_output : Bytes → Operation
  read_storage : Bytes → Operation
  read_u64 : Bytes → Operation
  write_storage : Bytes → Bytes → Operation
  remove_storage : Bytes → Operation
  block_index : Operation
  block_timestamp : Operation
  log_utf8 : Bytes → Operation
  predecessor_account_id : Operation
  current_account_id : Operation
  sha256 : Bytes → Operation
  keccak : Bytes → Operation

abbrev pub Answer : Operation → Type 0
Answer read_input = Bytes
Answer read_input_arr20 = Bytes
Answer (read_storage key) = Option Bytes
Answer (read_u64 key) = Option ℕ
Answer block_index = ℕ
Answer block_timestamp = ℕ
Answer predecessor_account_id = Bytes
Answer current_account_id = Bytes
Answer (sha256 v) = Bytes
Answer (keccak v) = Bytes
Answer _ = Unit

-- Code that uses the functions, and goes on with what they answer.
pub data Program (A : Type 0) : Type 0 where
  done : A → Program A
  call : (o : Operation) → (Answer o → Program A) → Program A
  fails : ErrorKind → Program A
  panics : Panic → Program A

-- Code that goes on with what a step without the runtime has returned.
abbrev pub attempt : {A B : Type 0} → Outcome B → (B → Program A) → Program A
attempt (ok b) next = next b
attempt (err e) next = fails e
attempt (panic e) next = panics e

-- One code after the other.
unfoldable pub and_then : {A B : Type 0} → Program A → (A → Program B) → Program B
and_then (done a) next = next a
and_then (call o rest) next = call o (λ a. and_then (rest a) next)
and_then (fails e) next = fails e
and_then (panics e) next = panics e

module _ (p : Platform) where
  open p use {World, context, storage_read}

  -- A function as Sdk describes it.
  abbrev pub described : (o : Operation) → World → Outcome (Answer o × World)
  described read_input w = ok (Sdk.read_input p w, w)
  described read_input_arr20 w = Sdk.read_input_arr20 p w >>= λ a. ok (a, w)
  described (read_input_and_store key) w = ok (tt, Sdk.read_input_and_store p key w)
  described (return_output v) w = ok (tt, Sdk.return_output p v w)
  described (read_storage key) w = ok (Sdk.read_storage p key w, w)
  described (read_u64 key) w = Sdk.read_u64 p key w >>= λ a. ok (a, w)
  described (write_storage key v) w = ok (tt, Sdk.write_storage p key v w)
  described (remove_storage key) w = ok (tt, Sdk.remove_storage p key w)
  described block_index w = ok (Sdk.block_index p w, w)
  described block_timestamp w = ok (Sdk.block_timestamp p w, w)
  described (log_utf8 v) w = ok (tt, p.log_utf8 w v)
  described predecessor_account_id w = ok (Sdk.predecessor_account_id p w, w)
  described current_account_id w = ok (Sdk.current_account_id p w, w)
  described (sha256 v) w = ok (p.sha256 v, w)
  described (keccak v) w = ok (p.keccak v, w)

  -- What a function moves through a register fits there.
  abbrev pub Fits : Operation → World → Type 0
  Fits read_input w = Short (context w).input
  Fits read_input_arr20 w = Short (context w).input
  Fits (read_input_and_store key) w = Short (context w).input × ShortIfAny (storage_read w key)
  Fits (read_storage key) w = ShortIfAny (storage_read w key)
  Fits (read_u64 key) w = ShortIfAny (storage_read w key)
  Fits (write_storage key v) w = ShortIfAny (storage_read w key)
  Fits (remove_storage key) w = ShortIfAny (storage_read w key)
  Fits predecessor_account_id w = Short (context w).predecessor_account_id
  Fits current_account_id w = Short (context w).current_account_id
  Fits _ w = Unit

  abbrev pub run_described : {A : Type 0} → Program A → World → Outcome (A × World)
  run_described (done a) w = ok (a, w)
  run_described (call o next) w = described o w >>= λ (a, w'). run_described (next a) w'
  run_described (fails e) w = err e
  run_described (panics e) w = panic e

  abbrev pub FitsAll : {A : Type 0} → Program A → World → Type 0
  FitsAll (fails e) w = Unit
  FitsAll (panics e) w = Unit
  FitsAll (done a) w = Unit
  FitsAll (call o next) w =
      Fits o w × ((a : Answer o) (w' : World) → described o w ≡ ok (a, w') → FitsAll (next a) w')

  pub run_described-attempt :
      {A B : Type 0} (o : Outcome B) (next : B → Program A) (w : World)
      → run_described (attempt o next) w ≡ (o >>= λ b. run_described (next b) w)
  run_described-attempt (ok b) next w = refl
  run_described-attempt (err e) next w = refl
  run_described-attempt (panic e) next w = refl

  pub FitsAll-attempt :
      {A B : Type 0} (o : Outcome B) (next : B → Program A) (w : World)
      → ((b : B) → FitsAll (next b) w)
      → FitsAll (attempt o next) w
  FitsAll-attempt (ok b) next w h = h b
  FitsAll-attempt (err e) next w h = tt
  FitsAll-attempt (panic e) next w h = tt

  abbrev then_described : {A B : Type 0} → (A → Program B) → A × World → Outcome (B × World)
  then_described next (a, w) = run_described (next a) w

  pub run_described-and_then :
      {A B : Type 0} (c : Program A) (next : A → Program B) (w : World)
      → run_described (and_then c next) w ≡ (run_described c w >>= then_described next)
  unfolding and_then
  run_described-and_then (done a) next w = refl
  run_described-and_then (fails e) next w = refl
  run_described-and_then (panics e) next w = refl
  run_described-and_then (call o rest) next w =
      >>=_cong (described o w) _ _ (λ (a, w'). run_described-and_then (rest a) next w')
      ∙ sym (>>=_assoc (described o w) (λ (a, w'). run_described (rest a) w') (then_described next))

  pub FitsAll-and_then :
      {A B : Type 0} (c : Program A) (next : A → Program B) (w : World)
      → FitsAll c w
      → ((a : A) (w' : World) → run_described c w ≡ ok (a, w') → FitsAll (next a) w')
      → FitsAll (and_then c next) w
  unfolding and_then
  FitsAll-and_then (done a) next w f h = h a w refl
  FitsAll-and_then (fails e) next w f h = tt
  FitsAll-and_then (panics e) next w f h = tt
  FitsAll-and_then (call o rest) next w (f, fits) h = (
    f,
    λ a w' e. FitsAll-and_then (rest a) next w' (fits a w' e) (λ b w'' d. h b w'' (
        ap (λ (m : Outcome (Answer o × World)). m >>= λ (a, w'). run_described (rest a) w') e ∙ d)),
  )

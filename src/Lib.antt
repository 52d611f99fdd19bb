-- ===== src/Lib.antt =====
-- A model of the Aurora engine, a NEAR contract that runs Ethereum contracts, and what holds of it.
--
-- The program. A call of the contract enters at an exported function of src/lib.rs. It reads its
-- input and the caller from the NEAR host (src/sdk.rs), decodes records (src/parameters.rs), and
-- works on the engine (src/engine.rs): the engine's own state, and for each account a nonce, a
-- balance, code and storage cells, all in the host's storage under the keys of src/storage.rs. A
-- call of an Ethereum contract, by a NEAR account or by a signed transaction (src/transaction.rs),
-- gives the EVM executor the engine as a backend to read from; the executor returns the changes and
-- logs, and the engine applies them. A meta-transaction (src/meta_parsing.rs) is such a call with a
-- signature over an EIP-712 digest, which anyone may send. src/types.rs has the
-- byte formats, src/precompiles.rs the precompiled contracts. src/json.rs and src/log_entry.rs are
-- helpers that no entry point calls yet.
--
-- The model.
--   Prelude       byte strings, lists and Boolean tests on native numbers, array writes, and
--                 `Outcome`: a value, an `ErrorKind`, or a panic. Rust's slices, indices, `expect`
--                 and overflow checks are panics where they are panics there. A write behind a
--                 buffer (`read_register` into a small array) is `memory_fault`.
--   Packages      what is taken from crates: primitive-types, hashes, libsecp256k1, Borsh codecs.
--   Host          the NEAR runtime: storage, log, return value, deployment, context of the call.
--   Evm           the interface of the evm crate: `Backend`, `Apply`, the executor.
--   Platform      all of these in one record, the parameter of the contract.
--   Types         src/types.rs. `u256_to_arr`, `log_to_bytes`, `bytes_to_hex`.
--   Storage       src/storage.rs. `Slot` names every place in storage, `slot_key` its key.
--   Parameters    src/parameters.rs, and `EngineState` of src/engine.rs.
--   Sdk           src/sdk.rs: what each function that the contract uses does to the world, which is
--                 what the other modules build on. `Runtime` has the imported functions, with the
--                 registers through which values go; `Wasm` has the functions of src/sdk.rs as they
--                 are written, on registers, and `Contracts` those that nothing calls yet;
--                 `Programs`, `Refines` and `Deploys` compare the two.
--   Engine        src/engine.rs. The Rust engine keeps its accounts in the host's storage, so its
--                 operations map a world to a world. `Abstract` is the description that they
--                 implement: a function from addresses to accounts, and what a change does to it;
--                 `Shown` is what the EVM is shown of it.
--                 `ApplyBackend` is `impl ApplyBackend`; `Calls` is `call`, `view`, `deploy_code`.
--   Precompiles   src/precompiles.rs.
--   MetaParsing   src/meta_parsing.rs: types (`ArgTypes`), method definitions (`Methods`), RLP values
--                 (`Decoding`), argument hashes (`Hashing`), ABI tokens (`Abi`), digest and
--                 signature (`MetaCall`). `ByType` has the two functions with their guards. The
--                 `HashMap` of types is a list with each name once (`Methods.Inserts`), and in
--                 `Tables` a quotient of lists, since its order does not count.
--   Transaction   src/transaction.rs: Ethereum transactions, their encoding and their sender.
--   Json          src/json.rs: values, their typed reading (`Reading`, `Casts`), and how rjson
--                 builds them (`Texts`, `Members`, `Sorted`) and
--                 they are printed (`Printing`).
--   LogEntry      src/log_entry.rs.
--   Contract      src/lib.rs: `Admin` for owner, configuration and upgrades, `Views` for reads and
--                 direct calls, `Raw` for `raw_call`, `Meta` for `meta_call`. A panic drops the
--                 changes of a call, so a function that panics has no world. `Machine` is the
--                 specification: a machine with the engine's state, a staged upgrade and accounts,
--                 on which `serve` says what each function does, given the EVM's answers. Its
--                 modules show that the code does this (`Globals`, `Manages`, `Executes`,
--                 `Serves`), and what follows for all sequences of calls (`Lifetimes`,
--                 `Provenance`, `Memory`). `Users`, `Authority` and `Liveness` have sequences of
--                 calls by some accounts, and `Replay` a call that is sent again. `Written` has the
--                 functions call by call of src/sdk.rs (`Codes`; `Calls` for those that run the EVM;
--                 `Apply` and `Asked` for what src/engine.rs does for the executor), with an
--                 executor that asks the engine method by method (`Asking`), and carries the
--                 machine over to the registers (`Does`, `Tasks`, `Calls.Serves`).
--                 The hashes inside a signature check are functions there too; the calls of the
--                 runtime that compute them are in `Sdk`.
--   Demo          a platform of concrete functions on which every assumption holds.
--   Tests         runs of the definitions and the theorems at concrete inputs.
--
-- Numbers are native natural numbers; a word is a list of 32 bytes and an address one of 20, where
-- the Rust type has that length, and theorems that need it say so. A text is the list of its UTF-8
-- bytes. Loops are recursion on the list that they run through. Only the two loops of the method
-- parser and the decoder of nested RLP lists run on fuel: one more than the length of the text for
-- arguments, the length for types, since each turn takes at least a byte, and the length for lists,
-- since an item is shorter than its list; without fuel they panic with `out_of_fuel`.
--
-- Not modelled: src/prelude.rs, which passes names on, and the imports of src/sdk.rs that no
-- function there uses. Gas is the number that the executor is given; the runtime's limit on the size
-- of a register is modelled, other limits are not. What the executor does inside a call is its own,
-- and so is what the lexer, the RLP reader, the JSON reader and the ABI encoder do with a text, and
-- how the standard library writes a number.
pub mod Prelude
pub mod Packages
pub mod Types
pub mod Storage
pub mod Host
pub mod Json
pub mod LogEntry
pub mod Parameters
pub mod Evm
pub mod Platform
pub mod Precompiles
pub mod Sdk
pub mod Engine
pub mod MetaParsing
pub mod Contract
mod Demo
mod Tests
pub mod Transaction

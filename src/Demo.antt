-- ===== src/Demo.antt =====
-- One platform on which every assumption about the outside holds: big-endian words, a hash that pads
-- or cuts, storage as a function, records encoded with their lengths, and an executor that always
-- makes the same changes. Examples and tests run on it.
mod Words
mod Codecs
mod Runtime
mod Registers
mod Texts
mod Blocks
mod Rlp
mod MetaTexts
mod Transactions
unfoldable pub use Words.*
pub use Codecs.*
pub use Runtime.*
pub use Registers.*
pub use Texts.*
pub use Blocks.*
pub use MetaTexts.*
pub use Transactions.*
use aurora_engine.Platform.{Platform}

abbrev pub platform : Platform
platform = record {
  primitives = primitives;
  crypto = crypto;
  host = host;
  executor = executor;
  states = state_codec;
  new_call_args = new_call_args_codec;
  function_call_args = function_call_args_codec;
  view_call_args = view_call_args_codec;
  get_storage_at_args = get_storage_at_args_codec;
  begin_chain_args = begin_chain_args_codec;
  begin_block_args = begin_block_args_codec;
  meta_call_args = meta_call_args_codec;
  meta = meta;
  rlp = rlp;
}

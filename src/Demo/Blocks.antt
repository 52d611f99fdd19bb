-- ===== src/Demo/Blocks.antt =====
-- The parameters of a block, encoded and checked as the other records are.
use aurora_engine.Prelude.{◌≡◌, ◌↔◌, Bool, true, ◌&&◌, arith, Bytes, length, cuts, ◌==◌}
use aurora_engine.Packages.{Codec}
use aurora_engine.Parameters.{BeginBlockArgs, IsBeginBlockArgs}
use aurora_engine.Demo.Codecs.{checked_codec, pair, first, second}

abbrev write_begin_block_args : BeginBlockArgs → Bytes
write_begin_block_args x =
    pair x.hash (pair x.coinbase (pair x.timestamp (pair x.number (pair x.difficulty x.gaslimit))))

abbrev read_begin_block_args : Bytes → BeginBlockArgs
read_begin_block_args b = record {
  hash = first b;
  coinbase = first (second b);
  timestamp = first (second (second b));
  number = first (second (second (second b)));
  difficulty = first (second (second (second (second b))));
  gaslimit = second (second (second (second (second b))));
}

pub read-write_begin_block_args :
    (x : BeginBlockArgs) → read_begin_block_args (write_begin_block_args x) ≡ x
read-write_begin_block_args x = simp cuts

abbrev check_begin_block_args : BeginBlockArgs → Bool
check_begin_block_args x =
    length x.hash == 32
    && length x.coinbase == 32
    && length x.timestamp == 32
    && length x.number == 32
    && length x.difficulty == 32
    && length x.gaslimit == 32

pub check_begin_block_args_iff :
    (x : BeginBlockArgs) → (check_begin_block_args x ≡ true) ↔ IsBeginBlockArgs x
check_begin_block_args_iff x = ground arith

abbrev pub begin_block_args_codec : Codec BeginBlockArgs IsBeginBlockArgs
begin_block_args_codec =
    checked_codec write_begin_block_args read_begin_block_args read-write_begin_block_args
      check_begin_block_args check_begin_block_args_iff

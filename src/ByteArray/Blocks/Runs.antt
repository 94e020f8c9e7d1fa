-- ===== src/ByteArray/Blocks/Runs.antt =====
-- Runs of the byte array of libcocao/bytearray.cc.
use libcocao.Base.{ℕ, ◌≡◌, refl, false, some, List, [], ◌∷◌, arith}
use libcocao.ByteArray.Blocks.{
  Node, ByteArray, byte_array_new, done, fault, get_read_size, write, read, read_at, set_position,
  clear,
}
use libcocao.ByteArray.Blocks.Buffers.{get_read_buffers, clamp}
use libcocao.ByteArray.Blocks.Faults.{moves, clears, step, run, run-write_faults, run-read_faults}
use libcocao.ByteArray.Blocks.Inv.{Inv}
use libcocao.ByteArray.Blocks.Loops.{HasMemory}

-- Three blocks of four bytes, and a position in the first.
abbrev block : Node
block = record { ptr = some (0 ∷ 0 ∷ 0 ∷ 0 ∷ []); size = 4 }

abbrev array : ByteArray
array = record {
  base_size = 4;
  position = 3;
  capacity = 12;
  size = 5;
  is_little_endian = false;
  nodes = block ∷ block ∷ block ∷ [];
  cur = 0;
}

block-HasMemory : HasMemory 4 block
block-HasMemory = record {
  block = 0 ∷ 0 ∷ 0 ∷ 0 ∷ [];
  has_block = refl;
  block_size = refl;
  node_size = refl;
}

array-Inv : Inv array
array-Inv = record {
  base_pos = omega arith;
  memory = (block-HasMemory, (block-HasMemory, (block-HasMemory, tt)));
  root = omega arith;
  capacity = refl;
  position_le = omega arith;
  size_le = omega arith;
  cur_low = omega arith;
  cur_high = omega arith;
}

abbrev six : List ℕ
six = 1 ∷ 2 ∷ 3 ∷ 4 ∷ 5 ∷ 6 ∷ []

run-write_faults_example : write six (record (byte_array_new 4) { position = 2; size = 2 }) ≡ fault
unfolding run step set_position byte_array_new clear
run-write_faults_example =
    run-write_faults 4 (clears ∷ moves 2 ∷ [])
      (record (byte_array_new 4) { position = 2; size = 2 }) six refl refl

run-read_faults_example : read 2 (record (byte_array_new 4) { position = 0; size = 2 }) ≡ fault
unfolding run step set_position byte_array_new clear get_read_size
run-read_faults_example =
    run-read_faults 4 (moves 2 ∷ moves 0 ∷ [])
      (record (byte_array_new 4) { position = 0; size = 2 }) 2 refl (omega arith)

-- read at a position starts in the current block all the same.
wrong_block :
    read_at 1 3 (record array {
      nodes = block ∷ record { ptr = some (7 ∷ 7 ∷ 7 ∷ 7 ∷ []); size = 4 } ∷ block ∷ [];
      cur = 1;
      position = 4;
    })
    ≡ done (7 ∷ [])
unfolding read_at
wrong_block = refl

-- Two bytes from the last of the first block on.
two_buffers :
    get_read_buffers [] 9 array
    ≡ done (
      record { node = 0; offset = 3; iov_len = 1 }
          ∷ record { node = 1; offset = 0; iov_len = 1 }
          ∷ [],
      2,
    )
unfolding get_read_buffers clamp get_read_size
two_buffers = refl

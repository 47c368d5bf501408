-- ===== src/Arena.antt =====
-- utils/arena.h: the arena, which gives out memory from both ends of its current block. An address is a
-- number; the address that `new char[]` answers with is an argument of the operations.
pub mod Regions
mod Tests
use lsmkv.Base.{ℕ, ◌+◌, ◌-◌, ◌*◌, ◌/◌, ◌%◌, ◌^◌, List, [], ◌∷◌, ltb, leb, if◌then◌else◌}

abbrev pub block_size : ℕ
block_size = 4096

abbrev pub align : ℕ
align = 8

-- `pool` has the size of each block beside its address.
pub record Arena : Type 0 where
  pub alloc_ptr : ℕ
  pub alloc_aligned_ptr : ℕ
  pub alloc_bytes_remaining : ℕ
  pub pool : List (ℕ × ℕ)
  pub allocs : ℕ
  pub waste : ℕ

unfoldable pub new_arena : Arena
new_arena = record {
  alloc_ptr = 0;
  alloc_aligned_ptr = 0;
  alloc_bytes_remaining = 0;
  pool = [];
  allocs = 0;
  waste = 0;
}

-- `allocateNewBlock`, with the address of the block.
unfoldable pub allocate_new_block : ℕ → ℕ → Arena → Arena
allocate_new_block block bytes a = record a { pool = (block, bytes) ∷ a.pool }

-- `allocatePtr`: a new current block; both ends are kept at the alignment's distance from its base.
unfoldable pub allocate_ptr : ℕ → Arena → Arena
allocate_ptr block a =
    let a = allocate_new_block block block_size a in
    let padding = block % align in
    record a {
      alloc_ptr = block;
      alloc_aligned_ptr = block - padding + block_size;
      alloc_bytes_remaining = block_size - padding;
      waste = (a.waste + block_size) % 2 ^ 64;
    }

-- The counters of both operations.
unfoldable pub count : ℕ → Arena → Arena
count bytes a = record a {
  allocs = (a.allocs + bytes) % 2 ^ 64;
  waste = (a.waste + 2 ^ 64 - bytes % 2 ^ 64) % 2 ^ 64;
}

unfoldable pub take_front : ℕ → Arena → ℕ × Arena
take_front bytes a = (
  a.alloc_ptr,
  record a {
    alloc_ptr = a.alloc_ptr + bytes;
    alloc_bytes_remaining = a.alloc_bytes_remaining - bytes;
  },
)

unfoldable pub take_back : ℕ → Arena → ℕ × Arena
take_back bytes a = (
  a.alloc_aligned_ptr - bytes,
  record a {
    alloc_aligned_ptr = a.alloc_aligned_ptr - bytes;
    alloc_bytes_remaining = a.alloc_bytes_remaining - bytes;
  },
)

-- `allocateFallBack`: a block of its own for more than a quarter of a block.
unfoldable pub allocate_fall_back : ℕ → ℕ → Arena → ℕ × Arena
allocate_fall_back block bytes a =
    if ltb (block_size / 4) bytes
    then (block, allocate_new_block block bytes a)
    else take_front bytes (allocate_ptr block a)

unfoldable pub allocate : ℕ → ℕ → Arena → ℕ × Arena
allocate block bytes a =
    let a = count bytes a in
    if leb bytes a.alloc_bytes_remaining
    then take_front bytes a
    else allocate_fall_back block bytes a

-- `allocateAlignFallBack`: the start of an own block is rounded up.
unfoldable pub allocate_align_fall_back : ℕ → ℕ → Arena → ℕ × Arena
allocate_align_fall_back block bytes a =
    if ltb (block_size / 4) bytes
    then ((block + align - 1) / align * align, allocate_new_block block (bytes + align) a)
    else take_back bytes (allocate_ptr block a)

unfoldable pub allocate_aligned : ℕ → ℕ → Arena → ℕ × Arena
allocate_aligned block bytes a =
    let a = count bytes a in
    if leb bytes a.alloc_bytes_remaining
    then take_back bytes a
    else allocate_align_fall_back block bytes a

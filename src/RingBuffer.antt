-- ===== src/RingBuffer.antt =====
-- utils/ring_buffer.h: a buffer of `N` bytes with two counters of 32 bits that only grow.
pub mod Bounds
mod Tests
use lsmkv.Base.{ℕ, ◌+◌, ◌-◌, ◌%◌, ◌^◌, List, ◌++◌, length, take, drop, min, leb, ltb, if◌then◌else◌}
use lsmkv.Coding.{store_at}

pub record RingBuffer : Type 0 where
  pub head : ℕ
  pub tail : ℕ
  pub buffer : List ℕ

module _ (N : ℕ) where
  -- `Mask`: for a power of two the source takes the low bits, which is the same number.
  unfoldable pub mask : ℕ → ℕ
  mask n = n % N

  unfoldable pub size : RingBuffer → ℕ
  size r = (r.tail + 2 ^ 32 - r.head) % 2 ^ 32

  -- `Append`: how many bytes it took, and the buffer; it takes none where ten or fewer would go in.
  unfoldable pub append : RingBuffer → List ℕ → ℕ × RingBuffer
  append r s =
      let write_size = min (length s % 2 ^ 32) ((N + 2 ^ 32 - size r) % 2 ^ 32) in
      let copy_size = min write_size (N - mask r.tail) in
      let first = store_at (mask r.tail) (take copy_size s) r.buffer in
      let second = store_at 0 (take (write_size - copy_size) (drop copy_size s)) first in
      if leb write_size 10
      then (0, r)
      else if ltb copy_size write_size
      then (write_size, record r { tail = (r.tail + write_size) % 2 ^ 32; buffer = second })
      else (write_size, record r { tail = (r.tail + copy_size) % 2 ^ 32; buffer = first })

  -- `Free`
  unfoldable pub release : ℕ → RingBuffer → RingBuffer
  release n r = record r { head = (r.head + n) % 2 ^ 32 }

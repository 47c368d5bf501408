-- ===== src/RingBuffer/Tests.antt =====
-- A ring of sixteen bytes whose counters have wrapped.
use lsmkv.Base.{ℕ, ◌+◌, ◌-◌, ◌≤◌, ◌≡◌, arith, List, replicate, length, min, leb, if◌then◌else◌}
use lsmkv.RingBuffer.{RingBuffer, size, append, release}
use lsmkv.RingBuffer.Bounds.{size-append}

abbrev ring : RingBuffer
ring = record { head = 4294967294; tail = 1; buffer = replicate 16 0 }

abbrev twelve : List ℕ
twelve = replicate 12 7

holds_three : size 16 ring ≤ 16
unfolding size
holds_three = omega arith

three_two : 2 ≤ size 16 ring
unfolding size
three_two = omega arith

size-append_example :
    ((append 16 ring twelve).0 ≡ (
      if leb (min (length twelve) (16 - size 16 ring)) 10
      then 0
      else min (length twelve) (16 - size 16 ring)))
    × (size 16 (append 16 ring twelve).1 ≡ size 16 ring + (append 16 ring twelve).0)
    × (size 16 (append 16 ring twelve).1 ≤ 16)
    × (size 16 (release 16 2 ring) ≡ size 16 ring - 2)
size-append_example =
    size-append 16 ring twelve 2 (omega arith) (omega arith) (omega arith) (omega arith)
      (omega arith) holds_three three_two

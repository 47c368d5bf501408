-- ===== src/RingBuffer/Bounds.antt =====
-- The bytes in the ring never outgrow it, and the two counters may wrap around.
use lsmkv.Base.{ℕ, ◌+◌, ◌-◌, ◌^◌, ◌≤◌, ◌<◌, ◌≡◌, arith, List, length, min, leb, if◌then◌else◌}
use lsmkv.RingBuffer.{RingBuffer, mask, size, append, release}

-- An append of fewer bytes than the counters can hold raises the size by the bytes that it took: none
-- if there were ten or fewer to take, and else as many as there were or as much room as was left, so
-- the size stays within the ring. Freeing bytes that are there lowers the size by their number.
pub size-append :
    (N : ℕ) (r : RingBuffer) (s : List ℕ) (n : ℕ)
    → 0 < N
    → N < 2 ^ 32
    → r.head < 2 ^ 32
    → r.tail < 2 ^ 32
    → length s < 2 ^ 32
    → size N r ≤ N
    → n ≤ size N r
    → ((append N r s).0
        ≡ (if leb (min (length s) (N - size N r)) 10 then 0 else min (length s) (N - size N r)))
      × (size N (append N r s).1 ≡ size N r + (append N r s).0)
      × (size N (append N r s).1 ≤ N)
      × (size N (release N n r) ≡ size N r - n)
unfolding append size release mask
size-append N r s n pos small hb tb sb fit there = ground arith

-- ===== src/Coding.antt =====
-- utils/coding.h: fixed-width integers as little-endian bytes. The source swaps the bytes on a
-- big-endian host, so the bytes in memory are the little-endian ones on every host. A write
-- through a pointer into a buffer is `store_at`.
pub mod RoundTrip
mod Tests
use lsmkv.Base.{ℕ, zero, suc, ◌+◌, ◌*◌, ◌/◌, ◌%◌, List, [], ◌∷◌, ◌++◌, length, take, drop}

-- The number in the first `n` bytes. A caller checks that there are `n` bytes: a byte past the
-- end of the list reads as 0 here and is undefined in the source.
unfoldable pub decode_fixed : ℕ → List ℕ → ℕ
decode_fixed zero bs = 0
decode_fixed (suc n) [] = 0
decode_fixed (suc n) (b ∷ bs) = b + 256 * decode_fixed n bs

-- The `n` bytes of a number, the lowest first.
unfoldable pub encode_fixed : ℕ → ℕ → List ℕ
encode_fixed zero v = []
encode_fixed (suc n) v = (v % 256) ∷ encode_fixed n (v / 256)

abbrev pub decode_fixed64 : List ℕ → ℕ
decode_fixed64 = decode_fixed 8

abbrev pub decode_fixed32 : List ℕ → ℕ
decode_fixed32 = decode_fixed 4

abbrev pub decode_fixed16 : List ℕ → ℕ
decode_fixed16 = decode_fixed 2

abbrev pub encode_fixed16 : ℕ → List ℕ
encode_fixed16 = encode_fixed 2

abbrev pub encode_fixed32 : ℕ → List ℕ
encode_fixed32 = encode_fixed 4

abbrev pub encode_fixed64 : ℕ → List ℕ
encode_fixed64 = encode_fixed 8

unfoldable pub encode_fixed128 : ℕ → ℕ → List ℕ
encode_fixed128 value1 value2 = encode_fixed64 value1 ++ encode_fixed64 value2

unfoldable pub decode_fixed128 : List ℕ → ℕ × ℕ
decode_fixed128 bs = (decode_fixed64 bs, decode_fixed64 (drop 8 bs))

-- `memcpy(buf + off, bs, size)` into a buffer that is long enough.
unfoldable pub store_at : ℕ → List ℕ → List ℕ → List ℕ
store_at off bs buf = take off buf ++ bs ++ drop (off + length bs) buf

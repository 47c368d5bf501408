-- ===== src/Block.antt =====
-- The blocks of a table (src/include/block_format.h and builder.h): `BlockBuilder`, `ParserBlock`
-- and `BlockIterator`. A block is a sequence of entries, each the size of the key and the size of
-- the value in four bytes each, then the key and the value.
pub mod Entries
pub mod Iterate
mod Tests
use lsmkv.Base.{
  Option, none, some, not, ◌&&◌, ◌||◌, ℕ, zero, suc, ◌+◌, ◌-◌, ◌%◌, ◌^◌, List, [], ◌∷◌, ◌++◌, Bool,
  true, false, length, take, drop, replicate, ltb, leb, ◌==◌, if◌then◌else◌, Ordering,
}
use lsmkv.Coding.{decode_fixed32, encode_fixed32, store_at}
use lsmkv.Comparator.{Comparator, compare_with}

-- `BlockBuilder::Add` grows the buffer by the entry's size and fills it by four writes.
unfoldable pub add : List ℕ → List ℕ → List ℕ → List ℕ
add buffer key value =
    let sz = length buffer in
    let new_sz = length key + length value + 8 in
    let buf = buffer ++ replicate new_sz 0 in
    let buf = store_at sz (encode_fixed32 (length key)) buf in
    let buf = store_at (sz + 4) (encode_fixed32 (length value)) buf in
    let buf = store_at (sz + 8) key buf in store_at (sz + 8 + length key) value buf

-- What `ParserBlock` gives. `fault` is a read past the end of the slice, which the source leaves
-- undefined: it reads both sizes after a test for an empty slice only.
pub data Parse : Type 0 where
  fault corruption : Parse
  parsed : (entry rest : List ℕ) → Parse

-- The size of an entry, in the 32 bits of its two parts.
abbrev pub entry_size : List ℕ → ℕ
entry_size block = (decode_fixed32 block + decode_fixed32 (drop 4 block) + 8) % 2 ^ 32

unfoldable pub parser_block : List ℕ → Parse
parser_block block =
    if length block == 0
    then corruption
    else if ltb (length block) 8
    then fault
    else if ltb (length block) (entry_size block)
    then corruption
    else parsed (take (entry_size block) block) (drop (entry_size block) block)

pub record BlockIterator : Type 0 where
  pub cur : ℕ
  pub end : ℕ
  pub userkey_cmp : Comparator
  pub block_buffer : List ℕ

unfoldable pub set_invalid : BlockIterator → BlockIterator
set_invalid it = record it { cur = 1; end = 0 }

unfoldable pub valid : BlockIterator → Bool
valid it = ltb it.cur it.end

unfoldable pub reset : BlockIterator → BlockIterator
reset it = record it { cur = 0; end = 0; block_buffer = [] }

-- Offsets are `uint32_t`.
unfoldable pub seek_to_first : BlockIterator → BlockIterator
seek_to_first it = record it { cur = 0; end = length it.block_buffer % 2 ^ 32 }

unfoldable pub open_block : List ℕ → Comparator → BlockIterator
open_block s cmp = seek_to_first (record { cur = 0; end = 0; userkey_cmp = cmp; block_buffer = s })

-- How a loop over the entries ends: at the first entry whose key passes the test, past the last
-- entry, at an entry that is refused, at a read past the end; `stuck` is out of fuel.
pub data Scan : Type 0 where
  at : ℕ → Scan
  exhausted invalid out_of_range stuck : Scan

-- `while (!input.empty())` of the seeks, over the input at an offset of the buffer.
unfoldable pub scan_entries : ℕ → (List ℕ → Bool) → ℕ → List ℕ → Scan
scan_entries fuel test off [] = exhausted
scan_entries zero test off (b ∷ bs) = stuck
scan_entries (suc fuel) test off (b ∷ bs) = elim (parser_block (b ∷ bs)) [
  | fault ↦ out_of_range
  | corruption ↦ invalid
  | parsed entry rest ↦
      let next = scan_entries fuel test (off + length entry) rest in
      let key_size = decode_fixed32 entry in
      if ltb (length entry) 8
      then invalid
      else if ltb (length (b ∷ bs)) (8 + key_size)
      then out_of_range
      else if test (take key_size (drop 8 (b ∷ bs)))
      then at off
      else next
]

-- The two tests of the seeks.
abbrev pub at_or_after : Comparator → List ℕ → List ℕ → Bool
at_or_after cmp target key = elim (compare_with cmp target key) [ Ordering.gt ↦ false | _ ↦ true ]

abbrev pub after : Comparator → List ℕ → List ℕ → Bool
after cmp target key = elim (compare_with cmp target key) [ Ordering.lt ↦ true | _ ↦ false ]

-- A method gives the new iterator, or `none` for a read out of range.
unfoldable pub seek : BlockIterator → List ℕ → Option BlockIterator
seek it target =
    elim (scan_entries (length it.block_buffer) (at_or_after it.userkey_cmp target) 0
      it.block_buffer) [
        | at off ↦ some (record it { cur = off % 2 ^ 32; end = length it.block_buffer % 2 ^ 32 })
        | exhausted ↦ some (set_invalid it)
        | invalid ↦ some (set_invalid it)
        | out_of_range ↦ none
        | stuck ↦ none
      ]

-- `next` is called on a valid iterator only.
unfoldable pub next : BlockIterator → Option BlockIterator
next it = elim (parser_block (drop it.cur it.block_buffer)) [
  | fault ↦ none
  | corruption ↦ some (set_invalid it)
  | parsed entry rest ↦ some (record it { cur = (it.cur + length entry) % 2 ^ 32 })
]

-- `AppendNext` lets the range take in the entry at its end.
unfoldable pub append_next : BlockIterator → Option BlockIterator
append_next it =
    if leb it.cur it.end && not (it.end == length it.block_buffer)
    then elim (parser_block (drop it.end it.block_buffer)) [
      | fault ↦ none
      | corruption ↦ some (set_invalid it)
      | parsed entry rest ↦ some (
          if ltb (length entry) 8
          then set_invalid it
          else record it { end = (it.end + length entry) % 2 ^ 32 })
    ]
    else some it

-- The second half of the seek to a range: the end is the first entry past `k2`.
unfoldable pub seek_end : BlockIterator → List ℕ → Option BlockIterator
seek_end it k2 =
    let input = drop it.cur it.block_buffer in
    elim (scan_entries (length input) (after it.userkey_cmp k2) it.cur input) [
      | at off ↦ some (record it { end = off % 2 ^ 32 })
      | exhausted ↦ some (record it { end = length it.block_buffer % 2 ^ 32 })
      | invalid ↦ some (set_invalid it)
      | out_of_range ↦ none
      | stuck ↦ none
    ]

-- `seek(K1, K2)`: the entries from the first at or after `k1` to the last at or before `k2`.
unfoldable pub seek_range : BlockIterator → List ℕ → List ℕ → Option BlockIterator
seek_range it k1 k2 =
    elim (scan_entries (length it.block_buffer) (at_or_after it.userkey_cmp k1) 0 it.block_buffer) [
      | at off ↦ seek_end (record it { cur = off % 2 ^ 32 }) k2
      | exhausted ↦ some (set_invalid it)
      | invalid ↦ some (set_invalid it)
      | out_of_range ↦ none
      | stuck ↦ none
    ]

unfoldable pub key : BlockIterator → List ℕ
key it = take (decode_fixed32 (drop it.cur it.block_buffer)) (drop (it.cur + 8) it.block_buffer)

unfoldable pub value : BlockIterator → List ℕ
value it =
    let key_size = decode_fixed32 (drop it.cur it.block_buffer) in
    take (decode_fixed32 (drop (it.cur + 4) it.block_buffer))
      (drop (it.cur + 8 + key_size) it.block_buffer)

-- ===== src/Reader.antt =====
-- The point lookup of `SSTReader` (src/include/reader.h): `FilterInIndex`, which finds the handle of
-- the block that may hold a key, and `FindInBlock`, which finds the key's entry in that block.
pub mod Search
pub mod Files
mod Tests
use lsmkv.Base.{
  ℕ, zero, suc, ◌+◌, List, [], ◌∷◌, Option, none, some, length, take, drop, ltb, leb, Bool, true,
  false, ◌||◌, if◌then◌else◌, by_order,
}
use lsmkv.Coding.{decode_fixed32}
use lsmkv.Keys.{ValueType, extract_user_key, extract_sequence_number, extract_value_type}
use lsmkv.Comparator.{Comparator, compare_str, compare_with, internal_key}
use lsmkv.Status.{Code}
use lsmkv.Block.{Parse, fault, parsed, parser_block}
use lsmkv.Format.{BlockEntryInfo, decode_block_info, VLogEntryInfo, decode_vlog_info, not_above}

-- What the lookup does with the first entry of the same user key: a newer one than the query's
-- snapshot is not found, a deletion leaves the location as it was, a value's is decoded.
unfoldable pub take_version :
    List ℕ → List ℕ → List ℕ → VLogEntryInfo → Option (Code × VLogEntryInfo)
take_version query block_key value info =
    if leb (extract_sequence_number block_key) (extract_sequence_number query)
    then elim (extract_value_type block_key) [
      | some ValueType.value ↦ some (decode_vlog_info info value)
      | _ ↦ some (Code.ok, info)
    ]
    else some (Code.not_found, info)

-- The status and the location that `FindInBlock` leaves; `none` is a read out of range, no fuel, or the
-- assertion of the accessors that an internal key has eight bytes.
unfoldable pub find_in_block : ℕ → List ℕ → List ℕ → VLogEntryInfo → Option (Code × VLogEntryInfo)
find_in_block fuel [] query info = some (Code.not_found, info)
find_in_block zero (b ∷ bs) query info = none
find_in_block (suc fuel) (b ∷ bs) query info = elim (parser_block (b ∷ bs)) [
  | fault ↦ none
  | Parse.corruption ↦ some (Code.corruption, info)
  | parsed entry rest ↦
      let next = find_in_block fuel rest query info in
      let key_size = decode_fixed32 entry in
      let block_key = take key_size (drop 8 (b ∷ bs)) in
      if ltb (length entry) 8
      then some (Code.corruption, info)
      else if ltb (length (b ∷ bs)) (8 + key_size)
      then none
      else if ltb key_size 8 || ltb (length query) 8
      then none
      else by_order (compare_str (extract_user_key query) (extract_user_key block_key))
          (some (Code.not_found, info))
          (if ltb (length entry) (8 + key_size)
            then none
            else take_version query block_key (drop (8 + key_size) entry) info)
          next
]

-- A decoded handle is found.
abbrev pub with_handle : Option BlockEntryInfo → Option (Code × BlockEntryInfo)
with_handle none = none
with_handle (some handle) = some (Code.ok, handle)

-- The status and the handle that `FilterInIndex` leaves; `none` as above, or the assertion of the
-- handle's decoding.
unfoldable pub filter_in_index :
    ℕ → List ℕ → List ℕ → BlockEntryInfo → Option (Code × BlockEntryInfo)
filter_in_index fuel [] query info = some (Code.not_found, info)
filter_in_index zero (b ∷ bs) query info = none
filter_in_index (suc fuel) (b ∷ bs) query info = elim (parser_block (b ∷ bs)) [
  | fault ↦ none
  | Parse.corruption ↦ some (Code.corruption, info)
  | parsed entry rest ↦
      let next = filter_in_index fuel rest query info in
      let key_size = decode_fixed32 entry in
      let block_key = take key_size (drop 8 (b ∷ bs)) in
      if ltb (length entry) 8
      then some (Code.corruption, info)
      else if ltb (length (b ∷ bs)) (8 + key_size)
      then none
      else if not_above (compare_with internal_key query block_key)
      then (if ltb (length entry) (8 + key_size)
          then none
          else with_handle (decode_block_info (drop (8 + key_size) entry)))
      else next
]

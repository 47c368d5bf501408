-- ===== src/MemTable.antt =====
-- src/memtable.cpp and src/include/memtable.h: the table in memory, a skip list of buffers that hold
-- the size of the internal key, the internal key and the sixteen bytes of the value's location.
pub mod Order
pub mod Reads
mod Tests
use lsmkv.Base.{
  ℕ, ◌+◌, ◌-◌, ◌%◌, ◌^◌, List, [], Option, none, some, length, take, drop, leb, ◌==◌, ◌&&◌, not,
  Bool, true, false, if◌then◌else◌, Ordering,
}
use lsmkv.Coding.{decode_fixed32, encode_fixed32, encode_fixed64, store_at}
use lsmkv.Keys.{
  ValueType, type_of_code, QueryKey, query_mem_key, query_internal_key, query_user_key,
  extract_user_key, extract_sequence_number, extract_value_type,
}
use lsmkv.Comparator.{compare_str, compare_internal}
use lsmkv.Status.{Code}
use lsmkv.Format.{VLogEntryInfo, decode_vlog_info}
use lsmkv.Skiplist.{Skiplist, empty_list, find_node, insert, is_eq}

unfoldable pub get_value_from_mem_key : List ℕ → List ℕ
get_value_from_mem_key key = drop (decode_fixed32 key + 4) key

unfoldable pub get_key_from_mem_key : List ℕ → List ℕ
get_key_from_mem_key key = take (decode_fixed32 key) (drop 4 key)

-- `MemKeyComporator::compare`
unfoldable pub mem_compare : List ℕ → List ℕ → Ordering
mem_compare a b = compare_internal (get_key_from_mem_key a) (get_key_from_mem_key b)

pub record MemTable : Type 0 where
  pub size : ℕ
  pub table : Skiplist (List ℕ)

unfoldable pub empty_memtable : MemTable
empty_memtable = record { size = 0; table = empty_list [] }

-- The four writes of `put` into the memory that the arena gave, whatever it held.
unfoldable pub put_buffer : List ℕ → ℕ → List ℕ → List ℕ → List ℕ
put_buffer fresh seq key value =
    let buf = store_at 0 (encode_fixed32 (length key + 8)) fresh in
    let buf = store_at 4 key buf in
    let buf = store_at (4 + length key) (encode_fixed64 seq) buf in
    store_at (12 + length key) value buf

-- The two assertions of `put` on the type in the low byte of the number.
abbrev pub value_fits : Option ValueType → List ℕ → Bool
value_fits (some ValueType.value) value = length value == 16
value_fits (some ValueType.deletion) value = length value == 0
value_fits none value = true

-- `put`, where `fresh` is the arena's memory and `rnd` the number for the node's height. `none` is a
-- failed assertion, here or in the skip list.
unfoldable pub put : MemTable → ℕ → List ℕ → List ℕ → List ℕ → ℕ → Option MemTable
put mt seq key value fresh rnd =
    if value_fits (type_of_code (seq % 256)) value
    then elim (insert mem_compare mt.table (put_buffer fresh seq key value) rnd) [
      | none ↦ none
      | some table ↦ some (record { size = (mt.size + 1) % 2 ^ 32; table = table })
    ]
    else none

-- The switch of `get` on the type of the entry.
abbrev pub by_type :
    Option ValueType → List ℕ → Code → VLogEntryInfo → Bool × (Code × VLogEntryInfo)
by_type (some ValueType.value) bytes s res = (true, decode_vlog_info res bytes)
by_type (some ValueType.deletion) bytes s res = (true, (Code.not_found, res))
by_type none bytes s res = (false, (s, res))

-- What `get` makes of the entry it found: whether it decides the lookup, the status and the location.
unfoldable pub read_entry : QueryKey → List ℕ → Code → VLogEntryInfo → Bool × (Code × VLogEntryInfo)
read_entry query key s res =
    let internal_key = get_key_from_mem_key key in
    if is_eq (compare_str (extract_user_key internal_key) (query_user_key query))
      && leb (extract_sequence_number internal_key)
          (extract_sequence_number (query_internal_key query))
    then by_type (extract_value_type internal_key) (get_value_from_mem_key key) s res
    else (false, (s, res))

-- `get`; `none` is out of fuel in the search.
unfoldable pub get :
    MemTable → QueryKey → Code → VLogEntryInfo → Option (Bool × (Code × VLogEntryInfo))
get mt query s res = elim (find_node mem_compare mt.table (query_mem_key query)) [
  | none ↦ none
  | some none ↦ some (false, (s, res))
  | some (some node) ↦ some (read_entry query (mt.table.key node) s res)
]

-- `contains`: the node that the search finds has exactly these bytes.
unfoldable pub contains : MemTable → List ℕ → Option Bool
contains mt key = elim (find_node mem_compare mt.table key) [
  | none ↦ none
  | some none ↦ some false
  | some (some node) ↦ some (is_eq (compare_str (mt.table.key node) key))
]

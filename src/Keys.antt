-- ===== src/Keys.antt =====
-- include/lsmkv/dbformat.h: sequence numbers, value types and the layouts of keys. An internal key
-- is the user key followed by eight bytes that hold `sequence << 8 | type`; a memtable key has the
-- length of the internal key, in four bytes, in front.
pub mod Layout
mod Tests
use Prim.Native.Nat.{bit_or}
use lsmkv.Base.{
  ℕ, suc, ◌+◌, ◌-◌, ◌*◌, ◌/◌, ◌%◌, ◌^◌, List, ◌++◌, length, take, drop, replicate, Option, none,
  some, ◌==◌, if◌then◌else◌,
}
use lsmkv.Coding.{decode_fixed32, decode_fixed64, encode_fixed32, encode_fixed64, store_at}

pub data ValueType : Type 0 where
  deletion : ValueType
  value : ValueType

abbrev pub type_code : ValueType → ℕ
type_code deletion = 0x0
type_code value = 0x1

-- `static_cast<ValueType>` of a byte: `none` is a number that is no enumerator.
abbrev pub type_of_code : ℕ → Option ValueType
type_of_code c = if c == 0 then some deletion else if c == 1 then some value else none

abbrev pub max_sequence_number : ℕ
max_sequence_number = 2 ^ 56 - 1

-- `ExtractUserKey`, under its assertion that the key has eight bytes; what a shorter key gives here is no
-- behaviour of the source. `extract_tag` and the two behind it have the same condition.
unfoldable pub extract_user_key : List ℕ → List ℕ
extract_user_key key = take (length key - 8) key

-- The eight bytes behind the user key, as a number.
abbrev pub extract_tag : List ℕ → ℕ
extract_tag key = decode_fixed64 (drop (length key - 8) key)

unfoldable pub extract_value_type : List ℕ → Option ValueType
extract_value_type key = type_of_code (extract_tag key % 256)

unfoldable pub extract_sequence_number : List ℕ → ℕ
extract_sequence_number key = extract_tag key / 256

-- `(last_seq << 8) | type`, in 64 bits.
unfoldable pub make_tag : ℕ → ValueType → ℕ
make_tag seq t = bit_or (seq * 256 % 2 ^ 64) (type_code t)

-- `QueryKey`: the buffer, and the length that is kept beside it.
pub record QueryKey : Type 0 where
  pub len : ℕ
  pub rep : List ℕ

-- The constructor fills a zeroed buffer with three writes.
unfoldable pub query_key : ℕ → List ℕ → QueryKey
query_key seq key =
    let len = (length key + 12) % 2 ^ 32 in
    let rep = replicate len 0 in
    let rep = store_at 0 (encode_fixed32 (length key + 8)) rep in
    let rep = store_at 4 key rep in
    let rep = store_at (4 + length key) (encode_fixed64 (seq * 256 % 2 ^ 64)) rep in
    record { len = len; rep = rep }

unfoldable pub query_sequence : QueryKey → ℕ
query_sequence q = decode_fixed64 (drop (q.len - 8) q.rep) / 256

unfoldable pub query_user_key : QueryKey → List ℕ
query_user_key q = take (q.len - 12) (drop 4 q.rep)

unfoldable pub query_mem_key : QueryKey → List ℕ
query_mem_key q = take q.len q.rep

unfoldable pub query_internal_key : QueryKey → List ℕ
query_internal_key q = take (q.len - 4) (drop 4 q.rep)

-- `InternalKey` owns a copy of the bytes.
pub record InternalKey : Type 0 where
  pub size : ℕ
  pub rep : List ℕ

unfoldable pub decode_internal_key : List ℕ → InternalKey
decode_internal_key s = record { size = length s % 2 ^ 32; rep = s }

unfoldable pub encode_internal_key : InternalKey → List ℕ
encode_internal_key k = take k.size k.rep

unfoldable pub internal_user_key : InternalKey → List ℕ
internal_user_key k = extract_user_key (encode_internal_key k)

unfoldable pub internal_type : InternalKey → Option ValueType
internal_type k = extract_value_type (encode_internal_key k)

unfoldable pub internal_sequence : InternalKey → ℕ
internal_sequence k = decode_fixed64 (drop (k.size - 8) k.rep) / 256

pub record ParsedInternalKey : Type 0 where
  pub user_key : List ℕ
  pub sequence : ℕ
  pub type : Option ValueType

unfoldable pub parse_internal_key : InternalKey → ParsedInternalKey
parse_internal_key k = record {
  user_key = internal_user_key k;
  sequence = internal_sequence k;
  type = internal_type k;
}

-- ===== src/Format.antt =====
-- The fixed-size records of a table (src/include/block_format.h): block handles, the footer, value
-- log entries and a file's metadata. A struct that is copied whole has the bytes of its fields in
-- declaration order, as they lie on a little-endian host.
pub mod RoundTrip
mod Tests
use lsmkv.Base.{
  ℕ, suc, ◌+◌, ◌-◌, ◌*◌, ◌/◌, ◌%◌, ◌^◌, List, [], ◌∷◌, ◌++◌, Bool, ◌&&◌, not, Option, none, some,
  length, take, drop, replicate, ltb, ◌==◌, if◌then◌else◌, Ordering,
}
use lsmkv.Coding.{decode_fixed32, decode_fixed64, encode_fixed32, encode_fixed64, store_at}
use lsmkv.Keys.{
  InternalKey, QueryKey, decode_internal_key, encode_internal_key, internal_user_key,
  query_user_key,
}
use lsmkv.Comparator.{Comparator, compare_str, compare_with}
use lsmkv.Status.{Code, ok, corruption}

pub record BlockEntryInfo : Type 0 where
  pub offset : ℕ
  pub size : ℕ

unfoldable pub encode_block_info : BlockEntryInfo → List ℕ
encode_block_info b = encode_fixed64 b.offset ++ encode_fixed64 b.size

-- `none` is the failed assertion that the source has the 16 bytes.
unfoldable pub decode_block_info : List ℕ → Option BlockEntryInfo
decode_block_info src =
    if ltb (length src) 16
    then none
    else some (record { offset = decode_fixed64 src; size = decode_fixed64 (drop 8 src) })

pub record VLogEntryInfo : Type 0 where
  pub offset : ℕ
  pub file_no : ℕ
  pub length : ℕ

unfoldable pub encode_vlog_info : VLogEntryInfo → List ℕ
encode_vlog_info v = encode_fixed64 v.offset ++ encode_fixed32 v.file_no ++ encode_fixed32 v.length

-- The status, and the entry, which stays as it was unless the size is right.
unfoldable pub decode_vlog_info : VLogEntryInfo → List ℕ → Code × VLogEntryInfo
decode_vlog_info v src = if not (length src == 16) then (corruption, v) else (
  ok,
  record {
    offset = decode_fixed64 src;
    file_no = decode_fixed32 (drop 8 src);
    length = decode_fixed32 (drop 12 src);
  },
)

abbrev pub table_magic_number : ℕ
table_magic_number = 0xdb4775248b80fb57

-- The masks of the source: 28 bits for the low half.
abbrev pub magic_lo : ℕ
magic_lo = table_magic_number % 2 ^ 28

abbrev pub magic_hi : ℕ
magic_hi = table_magic_number / 2 ^ 32

abbrev pub encoded_length : ℕ
encoded_length = 16 * 3 + 8

pub record Footer : Type 0 where
  pub metaindex_handle : BlockEntryInfo
  pub index_handle : BlockEntryInfo
  pub model_handle : BlockEntryInfo

unfoldable pub encode_footer : Footer → List ℕ
encode_footer f =
    encode_block_info f.metaindex_handle
    ++ encode_block_info f.index_handle
    ++ encode_block_info f.model_handle
    ++ encode_fixed32 magic_lo
    ++ encode_fixed32 magic_hi

-- The test of the magic number in eight bytes; `none` is a read past the end.
unfoldable pub check_magic : Footer → List ℕ → Option (Code × Footer)
check_magic f input =
    if ltb (length input) 8
    then none
    else if decode_fixed32 input == magic_lo && decode_fixed32 (drop 4 input) == magic_hi
    then some (ok, f)
    else some (corruption, f)

infixl 5 ◌>>=◌
abbrev ◌>>=◌ {ℓ κ} : {A : Type ℓ} {B : Type κ} → Option A → (A → Option B) → Option B
none >>= f = none
some a >>= f = f a

unfoldable pub decode_footer : List ℕ → Option (Code × Footer)
decode_footer input = do
  metaindex ← decode_block_info input
  index ← decode_block_info (drop 16 input)
  model ← decode_block_info (drop 32 input)
  check_magic (record { metaindex_handle = metaindex; index_handle = index; model_handle = model })
      (drop 48 input)

pub record SstFileMeta : Type 0 where
  pub file_size : ℕ
  pub file_number : ℕ
  pub level : ℕ
  pub vlog_file_no : ℕ
  pub smallest : InternalKey
  pub largest : InternalKey

-- The tests `<= 0` and `>= 0` of a comparison's result.
abbrev pub not_above : Ordering → Bool
not_above o = elim o [ Ordering.gt ↦ Bool.false | _ ↦ Bool.true ]

abbrev pub not_below : Ordering → Bool
not_below o = elim o [ Ordering.lt ↦ Bool.false | _ ↦ Bool.true ]

-- `InRange` of a query key: its user key lies between those of the file's bounds.
unfoldable pub in_range : SstFileMeta → QueryKey → Bool
in_range m ikey =
    let user_key = query_user_key ikey in
    not_above (compare_str user_key (internal_user_key m.largest))
    && not_below (compare_str user_key (internal_user_key m.smallest))

-- `Max` and `Min` by a comparator.
unfoldable pub max_by : Comparator → List ℕ → List ℕ → List ℕ
max_by cmp a b = elim (compare_with cmp a b) [ Ordering.gt ↦ a | _ ↦ b ]

unfoldable pub min_by : Comparator → List ℕ → List ℕ → List ℕ
min_by cmp a b = elim (compare_with cmp a b) [ Ordering.lt ↦ a | _ ↦ b ]

-- `InRange` of a range of internal keys.
unfoldable pub overlaps : SstFileMeta → InternalKey → InternalKey → Comparator → Bool
overlaps m small large cmp = not_above (
    compare_with cmp (max_by cmp (encode_internal_key m.smallest) (encode_internal_key small))
      (min_by cmp (encode_internal_key m.largest) (encode_internal_key large)))

unfoldable pub is_valid_file : SstFileMeta → Bool
is_valid_file m = ltb 0 m.file_size

-- The status, and the metadata, which stays as it was on a refusal. The test adds the sizes of
-- the keys in 32 bits; `none` is a key that reaches past the end behind a sum that wrapped.
unfoldable pub decode_meta : SstFileMeta → List ℕ → Option (Code × SstFileMeta)
decode_meta m src =
    if ltb (length src) 32
    then some (corruption, m)
    else let smallest_sz = decode_fixed32 src in
      let largest_sz = decode_fixed32 (drop 4 src) in
      if not (length src == (smallest_sz + largest_sz) % 2 ^ 32 + 32)
      then some (corruption, m)
      else if ltb (length src) (smallest_sz + largest_sz + 32)
      then none
      else let keys = drop 8 src in
        let buf = drop (smallest_sz + largest_sz) keys in
        some (
          ok,
          record {
            smallest = decode_internal_key (take smallest_sz keys);
            largest = decode_internal_key (take largest_sz (drop smallest_sz keys));
            file_number = decode_fixed64 buf;
            file_size = decode_fixed64 (drop 8 buf);
            level = decode_fixed32 (drop 16 buf);
            vlog_file_no = decode_fixed32 (drop 20 buf);
          },
        )

-- ===== src/Builder.antt =====
-- src/include/builder.h and src/table_builder.cpp: the builder of a table. It gathers entries in a data
-- block, writes each full block with its checksum, and at the end the filter, the index and the footer.
-- The learned index is never switched on (`enable_fixed_length` is 0), so there is no trainer here.
pub mod Written
pub mod Posix
pub mod Layout
pub mod Indexed
pub mod Finished
pub mod Filtered
mod Tests
use lsmkv.Base.{
  ℕ, ◌+◌, ◌*◌, ◌%◌, ◌^◌, List, [], ◌++◌, Bool, true, false, not, ◌&&◌, Option, none, some, length,
  leb, ◌==◌, if◌then◌else◌,
}
use lsmkv.Coding.{encode_fixed32}
use lsmkv.Keys.{extract_user_key}
use lsmkv.Block as Block
use lsmkv.Format.{BlockEntryInfo, VLogEntryInfo, Footer, encode_block_info, encode_footer}
use lsmkv.Status.{Code, ok, is_ok}
use lsmkv.BloomFilter.{FilterBlockBuilder, new_filter_block, add_key, flush_filter, finish_filter}

-- `WritableFile`: the operations of a file that the builder writes to.
pub record WritableFile (F : Type 0) : Type 0 where
  pub append : F → List ℕ → Code × F
  pub flush : F → Code × F

abbrev pub block_size : ℕ
block_size = 4096 * 4

abbrev pub trailer_size : ℕ
trailer_size = 4

abbrev pub bloom_size : ℕ
bloom_size = 8192

pub record TableBuilder (F : Type 0) : Type 0 where
  pub file : F
  pub need_next_index_entry : Bool
  pub index_block : List ℕ
  pub data_block : List ℕ
  pub data_block_entry : BlockEntryInfo
  pub num_entries : ℕ
  pub status : Code
  pub closed : Bool
  pub offset : ℕ
  pub last_key : List ℕ
  pub filter_block : Option FilterBlockBuilder

abbrev pub empty_entry : BlockEntryInfo
empty_entry = record { offset = 0; size = 0 }

-- The constructor, by `open_filter`.
unfoldable pub new_builder : {F : Type 0} → F → Bool → TableBuilder F
new_builder file open_filter = record {
  file = file;
  need_next_index_entry = false;
  index_block = [];
  data_block = [];
  data_block_entry = empty_entry;
  num_entries = 0;
  status = ok;
  closed = false;
  offset = 0;
  last_key = [];
  filter_block = if open_filter then some (new_filter_block bloom_size) else none;
}

abbrev pub filter_size : Option FilterBlockBuilder → ℕ
filter_size none = 0
filter_size (some f) = length f.buffer

-- `filter_block_->AddKey(ExtractUserKey(key))`
abbrev pub add_filter_key : Option FilterBlockBuilder → List ℕ → Option FilterBlockBuilder
add_filter_key none key = none
add_filter_key (some f) key = some (add_key f (extract_user_key key))

abbrev pub flush_filter_block :
    (List ℕ → List ℕ) → Option FilterBlockBuilder → Option FilterBlockBuilder
flush_filter_block murmur_hash none = none
flush_filter_block murmur_hash (some f) = some (flush_filter murmur_hash f)

module _ {F : Type 0} where
  unfoldable pub set_last_key : TableBuilder F → List ℕ → TableBuilder F
  set_last_key b key = record b { last_key = key }

  unfoldable pub approximate_file_size : TableBuilder F → ℕ
  approximate_file_size b =
      b.offset
      + length b.index_block
      + length b.data_block
      + trailer_size
      + filter_size b.filter_block

  -- `index_block_.Add(last_key_, DataBlockEntryInfo())`, if an entry is due.
  unfoldable pub add_index_entry : TableBuilder F → TableBuilder F
  add_index_entry b =
      if b.need_next_index_entry
      then record b {
        index_block = Block.add b.index_block b.last_key (encode_block_info b.data_block_entry);
        need_next_index_entry = false;
      }
      else b

  unfoldable pub add_entry : TableBuilder F → List ℕ → List ℕ → TableBuilder F
  add_entry b key value = record b {
    filter_block = add_filter_key b.filter_block key;
    num_entries = b.num_entries + 1;
    data_block = Block.add b.data_block key value;
  }

-- `::crc32c::Crc32c` and the hash function of the filter stand in other projects' files.
module _ {F : Type 0} (io : WritableFile F) (crc32c : List ℕ → ℕ) where
  -- The trailer and the new offset, once the bytes are in the file.
  unfoldable pub write_trailer : TableBuilder F → List ℕ → TableBuilder F
  write_trailer b raw =
      let (status, file) = io.append b.file (encode_fixed32 (crc32c raw)) in
      record b {
        file = file;
        status = status;
        offset = if is_ok status then (b.offset + length raw + trailer_size) % 2 ^ 64 else b.offset;
      }

  -- `WriteRawBlock`: the handle is set whether or not the writes succeed.
  unfoldable pub write_raw_block : TableBuilder F → List ℕ → TableBuilder F × BlockEntryInfo
  write_raw_block b raw =
      let (status, file) = io.append b.file raw in
      let written = record b { file = file; status = status } in
      (
        if is_ok status then write_trailer written raw else written,
        record { offset = b.offset; size = length raw },
      )

  -- `WriteBlock(&data_block_, &data_block_entry_)`, for a block that is not empty, and what `Flush` does
  -- behind it.
  unfoldable pub flush_data : TableBuilder F → Bool → TableBuilder F
  flush_data b next_index_entry =
      let (written, handle) = write_raw_block b b.data_block in
      let b = record written { data_block_entry = handle; data_block = [] } in
      let (status, file) = io.flush b.file in
      if is_ok b.status
      then record b { need_next_index_entry = next_index_entry; status = status; file = file }
      else b

  -- `WriteBlock(&index_block_, &index_block_handle)`: an empty block keeps the zeroed handle.
  unfoldable pub write_index : TableBuilder F → TableBuilder F × BlockEntryInfo
  write_index b =
      let (written, handle) = write_raw_block b b.index_block in
      if length b.index_block == 0
      then (b, empty_entry)
      else (record written { index_block = [] }, handle)

  unfoldable pub write_footer : TableBuilder F → Footer → TableBuilder F
  write_footer b footer =
      let encoding = encode_footer footer in
      let (status, file) = io.append b.file encoding in
      record b {
        file = file;
        status = status;
        offset = if is_ok status then (b.offset + length encoding) % 2 ^ 64 else b.offset;
      }

  -- `Finish` ends at the first failure: here behind the index, and below behind the filter.
  unfoldable pub finish_footer : TableBuilder F × BlockEntryInfo → BlockEntryInfo → TableBuilder F
  finish_footer (b, index_handle) filter_handle =
      let footer : Footer = record {
        metaindex_handle = filter_handle;
        index_handle = index_handle;
        model_handle = empty_entry;
      } in
      if not (is_ok b.status) then b else write_footer b footer

  unfoldable pub finish_index : TableBuilder F × BlockEntryInfo → TableBuilder F
  finish_index (b, filter_handle) =
      if not (is_ok b.status)
      then b
      else finish_footer (write_index (add_index_entry b)) filter_handle

  module _ (murmur_hash : List ℕ → List ℕ) where
    unfoldable pub flush : TableBuilder F → Bool → TableBuilder F
    flush b next_index_entry =
        let filtered = record b { filter_block = flush_filter_block murmur_hash b.filter_block } in
        if not (is_ok b.status)
        then b
        else if length b.data_block == 0
        then filtered
        else flush_data filtered next_index_entry

    -- `Add(key, value)`. The builder is not closed.
    unfoldable pub add : TableBuilder F → List ℕ → List ℕ → TableBuilder F
    add b key value =
        let added = add_entry (record (add_index_entry b) { last_key = key }) key value in
        if not (is_ok b.status)
        then b
        else if leb block_size (length added.data_block)
        then flush added true
        else added

    -- `Add(key, value, info)`: `info` is set unless the builder has failed, and the last key at a full
    -- block only.
    unfoldable pub add_with_info :
        TableBuilder F → List ℕ → List ℕ → VLogEntryInfo → TableBuilder F × VLogEntryInfo
    add_with_info b key value info =
        let added = add_entry (add_index_entry b) key value in
        let placed = record info {
          offset = (b.offset + length b.data_block) % 2 ^ 64;
          length = (length value + length key + 8) % 2 ^ 32;
        } in
        if not (is_ok b.status)
        then (b, info)
        else if leb block_size (length added.data_block)
        then (flush (record added { last_key = key }) true, placed)
        else (added, placed)

    -- The filter's part of `Finish`.
    unfoldable pub write_filter :
        TableBuilder F → Option FilterBlockBuilder → TableBuilder F × BlockEntryInfo
    write_filter b none = (b, empty_entry)
    write_filter b (some f) =
        let (flushed, bits) = finish_filter murmur_hash f in
        write_raw_block (record b { filter_block = some flushed }) bits

    -- The part of `Finish` behind the data.
    unfoldable pub finish_filters : TableBuilder F → TableBuilder F
    finish_filters b =
        if not (is_ok b.status) then b else finish_index (write_filter b b.filter_block)

    unfoldable pub finish : TableBuilder F → TableBuilder F
    finish b = finish_filters (flush (record b { closed = true }) true)

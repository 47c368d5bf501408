-- ===== src/Reader/Files.antt =====
-- `ReadOne` (src/reader.cpp) and `ReadBatch` (src/include/reader.h): the lookup in one file of the
-- levels and in several. What the system calls give for a file is a parameter. A table with a learned
-- index, which the builder never makes, is outside the model: `none`, like a read out of range.
use lsmkv.Base.{
  ℕ, ◌+◌, ◌-◌, ◌%◌, ◌^◌, List, [], ◌∷◌, Option, none, some, length, ◌==◌, not, if◌then◌else◌,
}
use lsmkv.Keys.{extract_user_key}
use lsmkv.Status.{Code, ok, not_found, is_ok, is_not_found}
use lsmkv.Format.{BlockEntryInfo, VLogEntryInfo, Footer, SstFileMeta, decode_footer, encoded_length}
use lsmkv.BloomFilter.{key_may_match}
use lsmkv.Reader.{find_in_block, filter_in_index}

-- `NewSequentialFile` by the file's number, `MoveTo`, and `Read` of a number of bytes from an offset.
pub record FileSystem (H : Type 0) : Type 0 where
  pub open_sst : ℕ → Code × H
  pub move_to : H → ℕ → Code
  pub read : H → ℕ → ℕ → List ℕ

abbrev pub no_block : BlockEntryInfo
no_block = record { offset = 0; size = 0 }

abbrev pub no_location : VLogEntryInfo
no_location = record { offset = 0; file_no = 0; length = 0 }

module _ {H : Type 0} (fs : FileSystem H) (murmur_hash : List ℕ → List ℕ)
    (internal_key : List ℕ) where
  -- The data block that the index names.
  unfoldable pub read_data :
      H → Code × BlockEntryInfo → VLogEntryInfo → Option (Code × VLogEntryInfo)
  read_data h (status, block) info =
      let input = fs.read h block.offset block.size in
      if not (is_ok status)
      then some (status, info)
      else if not (is_ok (fs.move_to h block.offset))
      then some (fs.move_to h block.offset, info)
      else find_in_block (length input) input internal_key info

  abbrev pub with_block :
      H → Option (Code × BlockEntryInfo) → VLogEntryInfo → Option (Code × VLogEntryInfo)
  with_block h none info = none
  with_block h (some found) info = read_data h found info

  unfoldable pub read_index : H → BlockEntryInfo → VLogEntryInfo → Option (Code × VLogEntryInfo)
  read_index h handle info =
      let input = fs.read h handle.offset handle.size in
      if not (is_ok (fs.move_to h handle.offset))
      then some (fs.move_to h handle.offset, info)
      else with_block h (filter_in_index (length input) input internal_key no_block) info

  -- The filter, and what is behind it. The status of the read itself is not looked at.
  unfoldable pub read_filter : H → Code × Footer → VLogEntryInfo → Option (Code × VLogEntryInfo)
  read_filter h (status, footer) info =
      let handle = footer.metaindex_handle in
      if not (is_ok status)
      then some (status, info)
      else if not (is_ok (fs.move_to h handle.offset))
      then some (fs.move_to h handle.offset, info)
      else if not (
          key_may_match murmur_hash (extract_user_key internal_key)
            (fs.read h handle.offset handle.size))
      then some (not_found, info)
      else if not (footer.model_handle.size == 0)
      then none
      else read_index h footer.index_handle info

  abbrev pub with_footer :
      H → Option (Code × Footer) → VLogEntryInfo → Option (Code × VLogEntryInfo)
  with_footer h none info = none
  with_footer h (some decoded) info = read_filter h decoded info

  -- The footer stands at the end of the file, by the size that is kept of it.
  unfoldable pub read_one : SstFileMeta → VLogEntryInfo → Option (Code × VLogEntryInfo)
  read_one meta info =
      let (status, h) = fs.open_sst meta.file_number in
      let offset = (meta.file_size + 2 ^ 64 - encoded_length) % 2 ^ 64 in
      if not (is_ok status)
      then some (status, info)
      else if not (is_ok (fs.move_to h offset))
      then some (fs.move_to h offset, info)
      else with_footer h (decode_footer (fs.read h offset encoded_length)) info

-- A lookup in a file, for a key that is given.
abbrev pub Lookup : Type 0
Lookup = SstFileMeta → VLogEntryInfo → Option (Code × VLogEntryInfo)

-- The answer of one task, before those of the later ones; `none` in any task is `none` for all.
abbrev pub first_answer :
    VLogEntryInfo
    → Option (Code × VLogEntryInfo)
    → Option (Code × VLogEntryInfo)
    → Option (Code × VLogEntryInfo)
first_answer info none later = none
first_answer info (some (status, found)) none = none
first_answer info (some (status, found)) (some later) =
    some
      (if is_ok status then (ok, found) else if is_not_found status then later else (status, info))

-- `ReadAsyncBatch`: every task has a location of its own, and the first that is not `NotFound` counts.
unfoldable pub read_async_batch :
    Lookup → List SstFileMeta → VLogEntryInfo → Option (Code × VLogEntryInfo)
read_async_batch lookup [] info = some (not_found, info)
read_async_batch lookup (meta ∷ metas) info =
    first_answer info (lookup meta no_location) (read_async_batch lookup metas info)

unfoldable pub read_batch :
    Lookup → List SstFileMeta → VLogEntryInfo → Option (Code × VLogEntryInfo)
read_batch lookup (meta ∷ []) info = lookup meta info
read_batch lookup metas info = read_async_batch lookup metas info

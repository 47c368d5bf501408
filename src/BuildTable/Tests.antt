-- ===== src/BuildTable/Tests.antt =====
-- A table of two entries that is built in a buffered file, with a toy checksum and a toy hash.
use lsmkv.Base.{ℕ, ◌≡◌, ◌⊎◌, none, refl, List, [], ◌∷◌, true, some, length}
use lsmkv.Coding.{store_at, encode_fixed}
use lsmkv.Keys.{extract_user_key}
use lsmkv.Block.Entries.{Entry}
use lsmkv.Block as Block
use lsmkv.BloomFilter as BloomFilter
use lsmkv.BloomFilter.{key_may_match, finish_filter, new_filter_block}
use lsmkv.Status.{ok, is_ok}
use lsmkv.Format as Format
use lsmkv.Format.{Footer, decode_footer, encoded_length}
use lsmkv.File as File
use lsmkv.File.{PosixWritableFile, new_file}
use lsmkv.File.Buffered.{contents}
use lsmkv.Builder.{
  new_builder, finish, add, add_index_entry, flush, finish_filters, add_entry, flush_data,
  write_raw_block, write_trailer, finish_footer, finish_index, write_filter, write_footer,
  write_index, set_last_key,
}
use lsmkv.Builder.Posix.{posix_file}
use lsmkv.Keys.{InternalKey, decode_internal_key}
use lsmkv.Format.{SstFileMeta}
use lsmkv.Version.{new_version, set_sst_file_number}
use lsmkv.Status.{invalid_argument}
use lsmkv.BuildTable.{
  TableFiles, Outcome, build_table, build_opened, close_table, keep, sync_and_close, add_all, fill,
  end_with_key, last_key_of, set_largest,
}
use lsmkv.BuildTable.Kept.{IsLeft, IsTaken, IsRecorded, build_table_lem}

abbrev toy_crc : List ℕ → ℕ
toy_crc bytes = length bytes

abbrev toy_hash : List ℕ → List ℕ
toy_hash bytes = length bytes ∷ 77 ∷ []

abbrev posix_files : TableFiles PosixWritableFile
posix_files = record {
  writes = posix_file;
  open_file = λ number. (ok, new_file [] true true);
  sync = File.sync;
  close = File.close;
  size_of = λ f. length (contents f);
}

abbrev first_entry : Entry
first_entry = record { key = 1 ∷ 1 ∷ 9 ∷ 0 ∷ 0 ∷ 0 ∷ 0 ∷ 0 ∷ 0 ∷ []; value = 8 ∷ [] }

abbrev other_entries : List Entry
other_entries = record { key = 2 ∷ 1 ∷ 9 ∷ 0 ∷ 0 ∷ 0 ∷ 0 ∷ 0 ∷ 0 ∷ []; value = [] } ∷ []

abbrev no_key : InternalKey
no_key = decode_internal_key []

abbrev blank_meta : SstFileMeta
blank_meta = record {
  file_size = 0;
  file_number = 0;
  level = 0;
  vlog_file_no = 0;
  smallest = no_key;
  largest = no_key;
}

-- An iterator without an entry opens no file.
nothing_to_build :
    build_table posix_files toy_crc toy_hash new_version [] blank_meta
    ≡ some (record {
      status = invalid_argument;
      file_meta = blank_meta;
      version = new_version;
      file = none;
    })
unfolding build_table
nothing_to_build = refl

abbrev kept_file : PosixWritableFile
kept_file =
    (sync_and_close posix_files toy_crc toy_hash
      (finish posix_file toy_crc toy_hash (
        fill posix_files toy_crc toy_hash (new_file [] true true) first_entry
          other_entries)).file).1

abbrev outcome : Outcome PosixWritableFile
outcome = record {
  status = ok;
  file_meta = record {
    file_size = 8328;
    file_number = 0;
    level = 0;
    vlog_file_no = 0;
    smallest = decode_internal_key first_entry.key;
    largest = decode_internal_key (2 ∷ 1 ∷ 9 ∷ 0 ∷ 0 ∷ 0 ∷ 0 ∷ 0 ∷ 0 ∷ []);
  };
  version = set_sst_file_number 1 new_version;
  file = some kept_file;
}

outcome_done :
    build_table posix_files toy_crc toy_hash new_version (first_entry ∷ other_entries) blank_meta
    ≡ some outcome
unfolding new_builder finish finish_filters is_ok flush add add_entry Block.add store_at
    add_index_entry encode_fixed flush_data write_raw_block File.append new_file write_trailer
    File.flush File.flush_buffer BloomFilter.add_hashes BloomFilter.add_key BloomFilter.add_keys
    BloomFilter.create_filter finish_filter BloomFilter.flush_filter new_filter_block
    BloomFilter.set_bit finish_footer finish_index write_filter write_footer write_index
    File.append_rest File.write_unbuffered Format.encode_block_info Format.encode_footer
    extract_user_key build_table build_opened close_table keep sync_and_close add_all fill
    end_with_key last_key_of set_largest set_last_key File.sync File.close new_version
    set_sst_file_number contents decode_internal_key
outcome_done = refl

build_table_lem_example :
    IsLeft new_version outcome
    ⊎ (IsTaken posix_files new_version outcome
        × IsRecorded new_version (first_entry ∷ other_entries) blank_meta outcome.file_meta)
build_table_lem_example =
    build_table_lem posix_files toy_crc toy_hash new_version (first_entry ∷ other_entries)
      blank_meta outcome outcome_done

-- ===== src/Builder/Tests.antt =====
-- A table of two entries in a buffered file, with a toy checksum and a toy hash.
use lsmkv.Base.{
  ℕ, ◌-◌, ◌^◌, ◌<◌, ◌≡◌, refl, arith, List, [], ◌∷◌, true, false, some, length, drop, All,
}
use lsmkv.Coding.{store_at, encode_fixed}
use lsmkv.Keys.{extract_user_key}
use lsmkv.Block.Entries.{Entry}
use lsmkv.Block as Block
use lsmkv.BloomFilter as BloomFilter
use lsmkv.BloomFilter.{key_may_match, finish_filter, new_filter_block}
use lsmkv.Status.{ok, is_ok}
use lsmkv.Format as Format
use lsmkv.Format.{Footer, decode_footer, encoded_length}
use lsmkv.File as File
use lsmkv.File.{PosixWritableFile, new_file}
use lsmkv.File.Buffered.{contents}
use lsmkv.Builder.{
  TableBuilder, new_builder, approximate_file_size, finish, add, add_index_entry, flush, bloom_size,
  finish_filters, add_entry, flush_data, write_raw_block, write_trailer, finish_footer,
  finish_index, write_filter, write_footer, write_index,
}
use lsmkv.BloomFilter.Collect.{bytes_of}
use lsmkv.BloomFilter.{FilterBlockBuilder, add_key}
use lsmkv.Builder.Posix.{posix_file, posix_laws}
use lsmkv.Builder.Layout.{block_at}
use lsmkv.Builder.Filtered.{finish-add_entries, add_entries, user_keys}

empty_size : approximate_file_size (new_builder (new_file [] true true) false) ≡ 4
unfolding new_file new_builder approximate_file_size
empty_size = refl

abbrev toy_crc : List ℕ → ℕ
toy_crc bytes = length bytes

abbrev toy_hash : List ℕ → List ℕ
toy_hash bytes = length bytes ∷ 77 ∷ []

abbrev empty_file : PosixWritableFile
empty_file = new_file [] true true

abbrev two_entries : List Entry
two_entries =
    record { key = 1 ∷ 1 ∷ 9 ∷ 0 ∷ 0 ∷ 0 ∷ 0 ∷ 0 ∷ 0 ∷ []; value = 8 ∷ [] }
    ∷ record { key = 2 ∷ 1 ∷ 9 ∷ 0 ∷ 0 ∷ 0 ∷ 0 ∷ 0 ∷ 0 ∷ []; value = [] }
    ∷ []

abbrev table : TableBuilder PosixWritableFile
table =
    finish posix_file toy_crc toy_hash
      (add_entries posix_laws toy_crc toy_hash (new_builder empty_file true) two_entries)

table_ok : table.status ≡ ok
unfolding new_builder finish finish_filters is_ok flush add add_entry Block.add store_at
    add_index_entry encode_fixed flush_data write_raw_block File.append new_file write_trailer
    File.flush File.flush_buffer BloomFilter.add_hashes BloomFilter.add_key BloomFilter.add_keys
    BloomFilter.create_filter finish_filter BloomFilter.flush_filter new_filter_block
    BloomFilter.set_bit finish_footer finish_index write_filter write_footer write_index
    File.append_rest File.write_unbuffered Format.encode_block_info Format.encode_footer
    extract_user_key
table_ok = refl

table_size : length (posix_laws.contents table.file) ≡ 8328
unfolding new_builder finish finish_filters is_ok flush add add_entry Block.add store_at
    add_index_entry encode_fixed flush_data write_raw_block File.append new_file write_trailer
    File.flush File.flush_buffer BloomFilter.add_hashes BloomFilter.add_key BloomFilter.add_keys
    BloomFilter.create_filter finish_filter BloomFilter.flush_filter new_filter_block
    BloomFilter.set_bit finish_footer finish_index write_filter write_footer write_index
    File.append_rest File.write_unbuffered Format.encode_block_info Format.encode_footer
    extract_user_key contents
table_size = refl

file_empty : posix_laws.contents empty_file ≡ []
unfolding contents new_file
file_empty = refl

table_short : length (posix_laws.contents table.file) < 2 ^ 64
table_short = rw table_size (omega arith)

user_bytes : bytes_of (user_keys two_entries) < 2 ^ 32
unfolding extract_user_key
user_bytes = omega arith

abbrev filled : TableBuilder PosixWritableFile
filled = add_entries posix_laws toy_crc toy_hash (new_builder empty_file true) two_entries

abbrev filled_filter : FilterBlockBuilder
filled_filter = add_key (add_key (new_filter_block bloom_size) (1 ∷ [])) (2 ∷ [])

finish-add_entries_example :
    (footer : Footer) × (decode_footer
        (drop (table.offset - encoded_length) (posix_laws.contents table.file))
      ≡ some (ok, footer))
    × All
        (λ key.
          key_may_match toy_hash key
            (block_at footer.metaindex_handle (posix_laws.contents table.file))
          ≡ true)
        (user_keys two_entries)
finish-add_entries_example =
    finish-add_entries posix_laws toy_crc toy_hash empty_file two_entries file_empty user_bytes
      table_ok table_short

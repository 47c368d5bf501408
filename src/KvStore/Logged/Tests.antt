-- ===== src/KvStore/Logged/Tests.antt =====
-- A new store over a log in a buffered file, with a toy checksum and a toy hash.
use lsmkv.Base.{
  ℕ, ◌+◌, replicate, none, false, ◌%◌, ◌^◌, ◌<◌, ◌≡◌, refl, arith, List, [], ◌∷◌, ◌++◌, true, some,
  length, take, drop,
}
use lsmkv.Status.{Code, ok, is_ok}
use lsmkv.Coding.{store_at, encode_fixed}
use lsmkv.Keys.{make_tag}
use lsmkv.Format.{VLogEntryInfo}
use lsmkv.File as File
use lsmkv.File.{PosixWritableFile, new_file}
use lsmkv.File.Buffered.{contents}
use lsmkv.Block as Block
use lsmkv.Builder as Builder
use lsmkv.Builder.{TableBuilder, new_builder}
use lsmkv.Builder.Posix.{posix_file, posix_laws}
use lsmkv.VLog.{VLogBuilder, encode_key, append, append_entry, settle, full, init_file}
use lsmkv.VLog.RoundTrip as RoundTrip
use lsmkv.VLog.ReadBack.{log_disk}
use lsmkv.Keys.{ValueType}
use lsmkv.Status.{not_found}
use lsmkv.MemTable.{empty_memtable}
use lsmkv.Reader.Files.{Lookup}
use lsmkv.Version.{new_version}
use lsmkv.KvStore.{Storage, KvStore, no_location, write_impl, get_impl}
use lsmkv.KvStore.Writes.{IsReady, new-IsReady}
use lsmkv.KvStore.Log.{Log}
use lsmkv.KvStore.Logged.{storage, live_value, get_impl-write_impl}
use lsmkv.Builder.{approximate_file_size}
use lsmkv.Lru as Lru
use lsmkv.BloomFilter.{new_filter_block}

abbrev toy_crc : List ℕ → ℕ
toy_crc bytes = length bytes % 2 ^ 32

toy_crc-lt : (s : List ℕ) → toy_crc s < 2 ^ 32
toy_crc-lt s = omega arith

abbrev toy_hash : List ℕ → List ℕ
toy_hash bytes = length bytes ∷ []

abbrev log_builder : TableBuilder PosixWritableFile
log_builder = new_builder (new_file [] true true) true

abbrev open_vlog : VLogBuilder PosixWritableFile
open_vlog = record { file_no = 7; offset = 0; builder = some log_builder }

open-IsReady : RoundTrip.IsReady posix_laws log_builder
unfolding new_builder new_file contents
open-IsReady = record { good = refl; empty = refl; at_end = refl; written = refl }

abbrev Handle : Type 0
Handle = ℕ

abbrev StoreLog : Type 0
StoreLog = Log PosixWritableFile Handle

abbrev create_empty : ℕ → Code × PosixWritableFile
create_empty n = (ok, new_file [] true true)

abbrev open_number : ℕ → Code × Handle
open_number n = (ok, n)

-- Every read is one of the log's present file.
abbrev pread_log : StoreLog → Handle → ℕ → ℕ → Code × List ℕ
pread_log l h offset n = (ok, take n (drop offset (log_disk posix_laws l.builder.builder ++ [])))

abbrev no_files : Lookup
no_files f info = some (not_found, info)

abbrev new_store : KvStore StoreLog
new_store = record {
  version = new_version;
  mem = empty_memtable;
  imm = none;
  vlog = record { builder = open_vlog; closed = []; open_files = [] };
  cache = [] ∷ [];
  bg_catch_error = false;
  background_compaction_scheduled = false;
  shutting_down = false;
  trigger_sst_compaction = false;
  submitted = 0;
}

abbrev user_key : List ℕ
user_key = 1 ∷ 2 ∷ []

abbrev user_value : List ℕ
user_value = 3 ∷ 4 ∷ 5 ∷ []

abbrev appended : Code × VLogEntryInfo × VLogBuilder PosixWritableFile
appended =
    append_entry posix_file toy_crc toy_hash open_vlog log_builder
      (encode_key user_key (make_tag new_version.last_sequence ValueType.value)) user_value
      no_location

appended_ok : appended.0 ≡ ok
unfolding append_entry settle encode_key make_tag new_builder new_file is_ok Builder.add_with_info
    Builder.add_entry Block.add store_at Builder.add_index_entry encode_fixed Builder.flush
    Builder.set_last_key Builder.flush_data Builder.write_raw_block File.append
    Builder.write_trailer File.flush File.flush_buffer File.write_unbuffered new_version
appended_ok = refl

append_done :
    append posix_file toy_crc toy_hash open_vlog
      (make_tag new_version.last_sequence ValueType.value)
      user_key
      user_value
      no_location
    ≡ some (ok, appended.1, appended.2)
unfolding append
append_done = λ i. some (appended_ok i, appended.1, appended.2)

log_has_room : full log_builder (length user_value) ≡ false
unfolding full approximate_file_size new_builder new_file new_filter_block
log_has_room = refl

first_sequence : new_version.last_sequence + 1 < 2 ^ 56
unfolding new_version
first_sequence = omega arith

first_offset : log_builder.offset + length user_key + length user_value + 20 < 2 ^ 64
unfolding new_builder
first_offset = omega arith

opens :
    (init_file open_number
      (pread_log (record new_store.vlog { builder = appended.2 }))
      toy_crc
      (record { live_sequence = some new_version.last_live_sequence; lru = [] })
      7).0
    ≡ (ok, some 7)
unfolding init_file Lru.get Lru.lookup is_ok
opens = refl

abbrev log_store : Storage StoreLog
log_store = storage posix_laws toy_crc toy_hash create_empty open_number pread_log no_files

get_impl-write_impl_example :
    (s' : KvStore StoreLog) × (write_impl log_store new_store user_key user_value ValueType.value
        (replicate 30 0)
        6
      ≡ some (ok, s'))
    × IsReady s'
    × ((after : TableBuilder PosixWritableFile) × (s'.vlog.builder.builder ≡ some after)
        × RoundTrip.IsReady posix_laws after)
    × (get_impl log_store s' user_key
        ≡ some (
            live_value posix_laws toy_crc toy_hash create_empty open_number pread_log no_files
              new_version.last_live_sequence new_version.last_sequence user_value))
get_impl-write_impl_example =
    get_impl-write_impl posix_laws toy_crc toy_hash create_empty open_number pread_log no_files
      new_store log_builder user_key user_value (replicate 30 0) [] 6 appended.1 appended.2 7
      (new-IsReady new_store refl) first_sequence (omega arith) refl refl open-IsReady (omega arith)
      log_has_room first_offset (omega arith) toy_crc-lt append_done opens (λ offset n. refl)

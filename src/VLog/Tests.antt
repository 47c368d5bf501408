-- ===== src/VLog/Tests.antt =====
-- A log over a buffered file, with a toy checksum and a toy hash.
use lsmkv.Base.{
  ℕ, ◌%◌, ◌^◌, ◌<◌, ◌≡◌, refl, arith, List, [], ◌∷◌, ◌++◌, true, some, length, take, drop,
}
use lsmkv.Status.{Code, ok, is_ok}
use lsmkv.Coding.{store_at, encode_fixed}
use lsmkv.Keys.{value, make_tag}
use lsmkv.Format.{VLogEntryInfo}
use lsmkv.File as File
use lsmkv.File.{PosixWritableFile, new_file}
use lsmkv.File.Buffered.{contents}
use lsmkv.Block as Block
use lsmkv.Builder as Builder
use lsmkv.Builder.{TableBuilder, new_builder}
use lsmkv.Builder.Posix.{posix_file, posix_laws}
use lsmkv.VLog.{VLogBuilder, encode_key, append, append_entry, settle, check_live, read_from}
use lsmkv.VLog.RoundTrip.{IsReady}
use lsmkv.VLog.ReadBack.{log_disk, append-read}

abbrev toy_crc : List ℕ → ℕ
toy_crc bytes = length bytes % 2 ^ 32

toy_crc-lt : (s : List ℕ) → toy_crc s < 2 ^ 32
toy_crc-lt s = omega arith

abbrev toy_hash : List ℕ → List ℕ
toy_hash bytes = length bytes ∷ []

abbrev log_builder : TableBuilder PosixWritableFile
log_builder = new_builder (new_file [] true true) true

abbrev open_vlog : VLogBuilder PosixWritableFile
open_vlog = record { file_no = 7; offset = 0; builder = some log_builder }

open-IsReady : IsReady posix_laws log_builder
unfolding new_builder new_file contents
open-IsReady = record { good = refl; empty = refl; at_end = refl; written = refl }

abbrev no_info : VLogEntryInfo
no_info = record { offset = 0; file_no = 0; length = 0 }

abbrev user_key : List ℕ
user_key = 1 ∷ 2 ∷ []

abbrev user_value : List ℕ
user_value = 3 ∷ 4 ∷ 5 ∷ []

abbrev appended : Code × VLogEntryInfo × VLogBuilder PosixWritableFile
appended =
    append_entry posix_file toy_crc toy_hash open_vlog log_builder
      (encode_key user_key (make_tag 9 value)) user_value no_info

appended_ok : appended.0 ≡ ok
unfolding append_entry settle encode_key make_tag new_builder new_file is_ok Builder.add_with_info
    Builder.add_entry Block.add store_at Builder.add_index_entry encode_fixed Builder.flush
    Builder.set_last_key Builder.flush_data Builder.write_raw_block File.append
    Builder.write_trailer File.flush File.flush_buffer File.write_unbuffered
appended_ok = refl

append_done :
    append posix_file toy_crc toy_hash open_vlog (make_tag 9 value) user_key user_value no_info
    ≡ some (ok, appended.1, appended.2)
unfolding append
append_done = λ i. some (appended_ok i, appended.1, appended.2)

abbrev log_file : List ℕ
log_file = log_disk posix_laws appended.2.builder ++ 6 ∷ []

abbrev pread_toy : List ℕ → ℕ → ℕ → Code × List ℕ
pread_toy h offset n = (ok, take n (drop offset h))

append-read_example :
    (appended.1.file_no ≡ 7)
    × ((after : TableBuilder PosixWritableFile) × (appended.2.builder ≡ some after)
        × IsReady posix_laws after)
    × (read_from pread_toy toy_crc (some 9) log_file appended.1 ≡ check_live (some 9) 9 user_value)
unfolding new_builder
append-read_example =
    append-read posix_laws toy_crc toy_hash pread_toy open_vlog appended.2 log_builder user_key
      user_value 9 value no_info appended.1 (some 9) log_file (6 ∷ []) refl open-IsReady
      (omega arith) (omega arith) (omega arith) toy_crc-lt append_done (λ offset n. refl)

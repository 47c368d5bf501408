-- ===== src/KvStore/Log.antt =====
-- The storage of the store as src/kvstore.cc has it: a value log of src/include/vlog_builder.h, its reader
-- and the lookup in the levels. What the system does is left: a new file, and the reads of one.
use lsmkv.Base.{ℕ, List, [], ◌∷◌, Option, none, some, Bool}
use lsmkv.Status.{Code, ok}
use lsmkv.Format.{VLogEntryInfo}
use lsmkv.LevelCache.Lookup as Lookup
use lsmkv.Reader.Files.{Lookup}
use lsmkv.Builder.{WritableFile, TableBuilder}
use lsmkv.VLog.{
  VLogBuilder, VLogReader, ReadResult, found, refused, fault, open_log, close_log, full, append,
  read,
}
use lsmkv.KvStore.{Storage, no_location}

-- `vlog_`, the files that were closed, and the files that `vlog_reader_` has open.
pub record Log (F H : Type 0) : Type 0 where
  pub builder : VLogBuilder F
  pub closed : List (Option (TableBuilder F))
  pub open_files : List (ℕ × H)

abbrev pub full_log : {F : Type 0} → Option (TableBuilder F) → ℕ → Option Bool
full_log none n = none
full_log (some b) n = some (full b n)

-- The status and the value that the caller of a read has.
abbrev pub read_status : ReadResult → Option (Code × List ℕ)
read_status (found value) = some (ok, value)
read_status (refused status) = some (status, [])
read_status fault = none

module _ {F H : Type 0} where
  abbrev pub with_builder :
      Log F H
      → Option (Code × VLogEntryInfo × VLogBuilder F)
      → Option (Code × (VLogEntryInfo × Log F H))
  with_builder l none = none
  with_builder l (some (status, info, builder)) =
      some (status, (info, record l { builder = builder }))

  abbrev pub reader : ℕ → Log F H → VLogReader H
  reader live l = record { live_sequence = some live; lru = l.open_files }

module _ {F H : Type 0} (io : WritableFile F) (crc32c : List ℕ → ℕ) (murmur_hash : List ℕ → List ℕ)
    (create : ℕ → Code × F) (open_random : ℕ → Code × H)
    (pread : Log F H → H → ℕ → ℕ → Code × List ℕ) (lookup : Lookup) where
  abbrev pub close : Log F H → Code × Log F H
  close l =
      let (status, builder, closed) = close_log io crc32c murmur_hash l.builder in
      (status, record l { builder = builder; closed = closed ∷ l.closed })

  abbrev pub open_next : Log F H → ℕ → Log F H
  open_next l n =
      let (status, file) = create n in record l { builder = (open_log l.builder n status file).1 }

  -- A read; that it may open a file and put it in front of the others is forgotten behind it.
  abbrev pub read_log : ℕ → Log F H → VLogEntryInfo → Option (Code × List ℕ)
  read_log live l info = read_status (read open_random (pread l) crc32c (reader live l) info).0

  abbrev pub log_storage : Storage (Log F H)
  log_storage = record {
    full = λ l n. full_log l.builder.builder n;
    close = close;
    open_file = open_next;
    append = λ l seq key val.
        with_builder l (append io crc32c murmur_hash l.builder seq key val no_location);
    read = read_log;
    get_from_files = λ cache query info. Lookup.get lookup query cache info;
  }

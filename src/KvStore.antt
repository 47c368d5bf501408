-- ===== src/KvStore.antt =====
-- src/kvstore.cc: the store. It writes to the value log and to the table in memory and reads from the
-- table in memory, the table that is being written to disk, the levels and the value log. The value
-- log and the reading of a table's files are parameters: they work on files.
pub mod Writes
pub mod Log
pub mod Logged
pub mod Background
pub mod Schedule
mod Tests
use lsmkv.Base.{
  ℕ, zero, suc, ◌+◌, ◌-◌, ◌*◌, ◌%◌, ◌^◌, List, [], ◌∷◌, ◌++◌, Option, none, some, length, ltb, leb,
  ◌==◌, ◌&&◌, ◌||◌, not, Bool, true, false, if◌then◌else◌,
}
use lsmkv.Keys.{ValueType, make_tag, QueryKey, query_key}
use lsmkv.Status.{Code, ok, not_found, corruption, io_error, bg_error, is_ok, is_not_found}
use lsmkv.Format.{VLogEntryInfo, encode_vlog_info, SstFileMeta}
use lsmkv.MemTable
use lsmkv.MemTable.{MemTable, empty_memtable}
use lsmkv.LevelCache
use lsmkv.LevelCache.{
  is_empty, num_level_files_ex, Cache, CompactInfo, num_level_files, add_file, pick_compaction,
  do_compaction_work, level_trigger, is_some,
}
use lsmkv.LevelCache.Compaction.{fresh_info}
use lsmkv.Version
use lsmkv.Version.{
  Version, new_vlog_file_number, reuse_vlog_file_number, set_sst_file_number, set_last_sequence,
  set_last_living_sequence,
}

-- What the store uses of the value log and of the levels' files: `none` is a failed assertion, or a call
-- on a log that is not open. `L` is the state of the log. KvStore/Log fills it with the program's own log.
pub record Storage (L : Type 0) : Type 0 where
  -- `vlog_->Full(val.size())`
  pub full : L → ℕ → Option Bool
  pub close : L → Code × L
  pub open_file : L → ℕ → L
  pub append : L → ℕ → List ℕ → List ℕ → Option (Code × (VLogEntryInfo × L))
  -- `vlog_reader_.Read`, which is given the oldest living sequence number: a status and the value.
  pub read : ℕ → L → VLogEntryInfo → Option (Code × List ℕ)
  -- `kc->get`: the status, and the location if one was found.
  pub get_from_files : Cache → QueryKey → VLogEntryInfo → Option (Code × VLogEntryInfo)

pub record KvStore (L : Type 0) : Type 0 where
  pub version : Version
  pub mem : MemTable
  pub imm : Option MemTable
  pub vlog : L
  pub cache : Cache
  pub bg_catch_error : Bool
  pub background_compaction_scheduled : Bool
  pub shutting_down : Bool
  pub trigger_sst_compaction : Bool
  -- How many calls of `BackgroundCall` the scheduler has been given and has not run.
  pub submitted : ℕ

abbrev pub no_location : VLogEntryInfo
no_location = record { offset = 0; file_no = 0; length = 0 }

-- What `mem_->put` stores for a type: nothing, or the sixteen bytes of the location.
abbrev pub stored_value : ValueType → VLogEntryInfo → List ℕ
stored_value ValueType.deletion info = []
stored_value ValueType.value info = encode_vlog_info info

module _ {L : Type 0} (storage : Storage L) where
  -- The start of a new log file in `WriteImpl`; the status of opening it is not looked at.
  unfoldable pub rotate : KvStore L → Code × KvStore L
  rotate s =
      let closed = storage.close s.vlog in
      let numbered = new_vlog_file_number s.version in
      if is_ok closed.0
      then (ok, record s { vlog = storage.open_file closed.1 numbered.0; version = numbered.1 })
      else (
        closed.0,
        record s { vlog = closed.1; version = reuse_vlog_file_number numbered.0 numbered.1 },
      )

  -- The last step of a write: the new table, and the next number.
  abbrev pub commit : KvStore L → ℕ → Option MemTable → Option (Code × KvStore L)
  commit s last_seq none = none
  commit s last_seq (some mem) = elim (set_last_sequence (last_seq + 1) s.version) [
    | none ↦ none
    | some version ↦ some (ok, record s { mem = mem; version = version })
  ]

  -- The part of `WriteImpl` behind the change of the log file: log first, then the table. `fresh` is
  -- memory of the arena, `rnd` a number of the generator; `none` is a failed assertion.
  abbrev pub put_logged :
      KvStore L
      → ℕ
      → List ℕ
      → ValueType
      → List ℕ
      → ℕ
      → Option (Code × (VLogEntryInfo × L))
      → Option (Code × KvStore L)
  put_logged s last_seq key type fresh rnd none = none
  put_logged s last_seq key type fresh rnd (some (status, (info, log))) =
      let s = record s { vlog = log } in
      if is_ok status
      then commit s last_seq
          (MemTable.put s.mem (make_tag last_seq type) key (stored_value type info) fresh rnd)
      else some (status, s)

  unfoldable pub append_and_put :
      KvStore L → ℕ → List ℕ → List ℕ → ValueType → List ℕ → ℕ → Option (Code × KvStore L)
  append_and_put s last_seq key val type fresh rnd =
      put_logged s last_seq key type fresh rnd
        (storage.append s.vlog (make_tag last_seq type) key val)

  unfoldable pub write_impl :
      KvStore L → List ℕ → List ℕ → ValueType → List ℕ → ℕ → Option (Code × KvStore L)
  write_impl s key val type fresh rnd =
      let last_seq = s.version.last_sequence in
      let rotated = rotate s in
      elim (storage.full s.vlog (length val)) [
        | none ↦ none
        | some true ↦
            if is_ok rotated.0
            then append_and_put rotated.1 last_seq key val type fresh rnd
            else some rotated
        | some false ↦ append_and_put s last_seq key val type fresh rnd
      ]

  -- The end of `GetImpl`: the value behind a location; a length of zero is a deleted key.
  abbrev pub read_value : KvStore L → Code × VLogEntryInfo → Option (Code × List ℕ)
  read_value s found =
      if is_ok found.0
      then (if found.1.length == 0
          then some (not_found, [])
          else storage.read s.version.last_live_sequence s.vlog found.1)
      else some (found.0, [])

  abbrev pub read_found : KvStore L → Option (Code × VLogEntryInfo) → Option (Code × List ℕ)
  read_found s none = none
  read_found s (some found) = read_value s found

  -- What `GetImpl` asks when neither table in memory decides.
  abbrev pub get_on_disk : KvStore L → QueryKey → VLogEntryInfo → Option (Code × List ℕ)
  get_on_disk s query info =
      if is_empty s.cache
      then some (not_found, [])
      else read_found s (storage.get_from_files s.cache query info)

  -- The table that is being written out: if it decides, its status stands with an empty value.
  abbrev pub get_in_imm :
      KvStore L → QueryKey → Code → VLogEntryInfo → Option MemTable → Option (Code × List ℕ)
  get_in_imm s query status info none = get_on_disk s query info
  get_in_imm s query status info (some imm) = elim (MemTable.get imm query status info) [
    | none ↦ none
    | some (true, (status, info)) ↦ some (status, [])
    | some (false, (status, info)) ↦ get_on_disk s query info
  ]

  -- `none` is out of fuel in the search of a table, or a failure of the storage.
  unfoldable pub get_impl : KvStore L → List ℕ → Option (Code × List ℕ)
  get_impl s key =
      let query = query_key s.version.last_sequence key in
      elim (MemTable.get s.mem query ok no_location) [
        | none ↦ none
        | some (true, (status, info)) ↦ read_value s (status, info)
        | some (false, (status, info)) ↦ get_in_imm s query status info s.imm
      ]

  -- `put`: the write goes ahead if `Prepare` lets it, whose loop is the argument `prepare`. A key of any
  -- size passes `CheckFixedSize`, since no fixed size is set.
  unfoldable pub put :
      (KvStore L → Code × KvStore L)
      → KvStore L
      → List ℕ
      → List ℕ
      → List ℕ
      → ℕ
      → Option (Code × KvStore L)
  put prepare s key val fresh rnd =
      let prepared = prepare s in
      let written = write_impl prepared.1 key val ValueType.value fresh rnd in
      if is_ok prepared.0 then written else some prepared

  -- `del`: a key that a read does not find is not deleted.
  unfoldable pub del :
      (KvStore L → Code × KvStore L) → KvStore L → List ℕ → List ℕ → ℕ → Option (Code × KvStore L)
  del prepare s key fresh rnd =
      let prepared = prepare s in
      let written = write_impl prepared.1 key [] ValueType.deletion fresh rnd in
      elim (get_impl s key) [
        | none ↦ none
        | some (status, val) ↦
            if not (is_ok status)
            then some (status, s)
            else if is_ok prepared.0
            then written
            else some prepared
      ]

  -- `reset`, with a value log that was reset: new counters, an empty table, no levels.
  unfoldable pub reset : (L → L) → KvStore L → KvStore L
  reset reset_log s =
      let numbered = new_vlog_file_number (Version.reset s.version) in
      record s {
        imm = none;
        version = numbered.1;
        vlog = storage.open_file (reset_log s.vlog) numbered.0;
        cache = LevelCache.reset s.cache;
        mem = empty_memtable;
      }

  -- `ExpireAt`
  unfoldable pub expire_at : KvStore L → ℕ → Code × KvStore L
  expire_at s seq =
      if ltb s.version.last_sequence seq
      then (corruption, s)
      else if ltb seq s.version.last_live_sequence
      then (ok, s)
      else (ok, record s { version = set_last_living_sequence ((seq + 1) % 2 ^ 64) s.version })

-- ===== src/KvStore/Background.antt =====
-- The background calls of src/kvstore.cc, and the round of `Prepare` that starts them.
use lsmkv.Base.{
  ℕ, zero, suc, ◌+◌, ◌-◌, ◌*◌, List, Option, none, some, length, ltb, leb, ◌==◌, ◌&&◌, ◌||◌, not,
  Bool, true, false, if◌then◌else◌,
}
use lsmkv.Status.{Code, ok, io_error, is_ok}
use lsmkv.Format.{SstFileMeta}
use lsmkv.MemTable.{empty_memtable}
use lsmkv.LevelCache.{
  num_level_files_ex, num_level_files, add_file, pick_compaction, do_compaction_work, level_trigger,
  is_some,
}
use lsmkv.LevelCache.Compaction.{fresh_info}
use lsmkv.Version.{set_sst_file_number}
use lsmkv.KvStore.{Storage, KvStore}

-- Thirty-two kilobytes of a file, less a filter and a footer.
abbrev pub mem_max_size : ℕ
mem_max_size = 32 * 1024 - 8192 - 32

-- What one round of the loop of `Prepare` decides.
pub data Action : Type 0 where
  stop delay proceed wait switch : Action

module _ {L : Type 0} (storage : Storage L) where
  -- `MaybeScheduleCompaction`
  unfoldable pub maybe_schedule_compaction : KvStore L → KvStore L
  maybe_schedule_compaction s =
      if s.background_compaction_scheduled
        || s.shutting_down
        || s.bg_catch_error
        || not (is_some s.imm)
      then s
      else record s { background_compaction_scheduled = true; submitted = s.submitted + 1 }

  -- `RecordBackgroundError`
  unfoldable pub record_background_error : KvStore L → KvStore L
  record_background_error s =
      if s.bg_catch_error then s else record s { background_compaction_scheduled = false }

  -- `WriteLevel0Table`, with what `BuildTable` made: a status and the new file's metadata.
  unfoldable pub write_level0_table : Code × SstFileMeta → KvStore L → Code × KvStore L
  write_level0_table built s =
      if is_ok built.0 && ltb 0 built.1.file_size
      then (
        built.0,
        record s {
          version = set_sst_file_number (built.1.file_number + 1) s.version;
          cache = add_file 0 built.1 s.cache;
        },
      )
      else (built.0, s)

  -- `CompactMemTable`
  unfoldable pub compact_mem_table : Code × SstFileMeta → KvStore L → KvStore L
  compact_mem_table built s =
      let wrote = write_level0_table built s in
      let status = if is_ok wrote.0 && s.shutting_down then io_error else wrote.0 in
      if not (is_some s.imm)
      then s
      else if is_ok status
      then record (wrote.1) { imm = none }
      else record (record_background_error wrote.1) { background_compaction_scheduled = false }

  module _ (build : List SstFileMeta → List SstFileMeta → Bool → Code × List SstFileMeta) where
    -- `CompactSSTFile` calls itself for the next level; `none` is out of fuel, a failed assertion, or a
    -- choice that follows a pointer that was not set.
    unfoldable pub compact_sst_file : ℕ → ℕ → KvStore L → Option (Code × KvStore L)
    compact_sst_file zero level s = none
    compact_sst_file (suc fuel) level s =
        if s.shutting_down
        then some (ok, s)
        else elim (pick_compaction (fresh_info level) s.cache) [
          | none ↦ none
          | some info ↦
              let done = do_compaction_work build info s.cache in
              let s' = record s { cache = done.cache } in
              let rest = compact_sst_file fuel (level + 1) s' in
              if length info.old_files == 0
              then some (ok, s)
              else if not done.asserted
              then none
              else if is_ok done.status
              then rest
              else some (done.status, s')
        ]

    -- The end of `BackgroundCompaction`, behind `CompactSSTFile`.
    abbrev pub after_sst : KvStore L → Option (Code × KvStore L) → Option (KvStore L)
    after_sst s none = none
    after_sst s (some (status, s')) =
        if is_ok status
        then some s'
        else some (record (record_background_error s') { background_compaction_scheduled = false })

    unfoldable pub background_compaction : ℕ → Code × SstFileMeta → KvStore L → Option (KvStore L)
    background_compaction fuel built s =
        let s = compact_mem_table built s in
        if ltb (num_level_files_ex 0 s.cache) level_trigger && not s.trigger_sst_compaction
        then some s
        else after_sst s (compact_sst_file fuel 0 s)

    -- `BackgroundCall`, once the scheduler has taken it from its queue.
    unfoldable pub background_call : ℕ → Code × SstFileMeta → KvStore L → Option (KvStore L)
    background_call fuel built s =
        elim (if s.shutting_down then some s else background_compaction fuel built s) [
          | none ↦ none
          | some s' ↦
              some
                (maybe_schedule_compaction (record s' { background_compaction_scheduled = false }))
        ]

  -- One round of `Prepare`, with the memory that the table uses and the limit of the source.
  unfoldable pub prepare_round : Bool → ℕ → KvStore L → Action × KvStore L
  prepare_round allow_delay memory_usage s =
      let full_level = leb level_trigger (num_level_files 0 s.cache) in
      if s.bg_catch_error
      then (stop, s)
      else if allow_delay && full_level
      then (delay, s)
      else if leb memory_usage mem_max_size
      then (proceed, s)
      else if is_some s.imm
      then (wait, s)
      else if full_level
      then (wait, s)
      else (switch, maybe_schedule_compaction (record s { imm = some s.mem; mem = empty_memtable }))

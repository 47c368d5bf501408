-- ===== src/KvStore/Schedule.antt =====
-- The hand-over of the table in memory to the background, and the scheduling of the background calls.
use lsmkv.Base.{
  ℕ, zero, suc, ◌⊎◌, [], ◌∷◌, ◌+◌, ◌≤◌, ◌<◌, ◌≡◌, refl, arith, List, Option, none, some, Bool, true,
  false, if◌then◌else◌,
}
use lsmkv.Status.{Code, is_ok}
use lsmkv.Format.{SstFileMeta}
use lsmkv.MemTable.{empty_memtable}
use lsmkv.Base.OrderedMap.{find, find-emplace_self}
use lsmkv.LevelCache.{Cache, add_file, num_level_files, is_some, level_files, grow, set_level}
use lsmkv.Version.{set_sst_file_number}
use lsmkv.Keys.{ValueType}
use lsmkv.KvStore.{Storage, KvStore, write_impl}
use lsmkv.KvStore.Background.{
  maybe_schedule_compaction, record_background_error, write_level0_table, compact_mem_table,
  compact_sst_file, after_sst, background_compaction, background_call, Action, stop, delay, proceed,
  wait, switch, prepare_round, mem_max_size,
}

module _ {L : Type 0} (storage : Storage L) where
  -- The flag says whether a call is waiting in the scheduler, and there is one at most.
  abbrev pub OneCall : KvStore L → Type 0
  OneCall s = s.submitted ≡ (if s.background_compaction_scheduled then 1 else 0)

  maybe_schedule_compaction-OneCall :
      (s : KvStore L) → OneCall s → OneCall (maybe_schedule_compaction storage s)
  unfolding maybe_schedule_compaction
  maybe_schedule_compaction-OneCall s h = ground arith

  -- What each decision of a round of `Prepare` stands for: `s` is the store before, `t` behind it.
  abbrev pub Decided : Bool → ℕ → KvStore L → KvStore L → Action → Type 0
  Decided allow_delay memory_usage s t stop = (s.bg_catch_error ≡ true) × (t ≡ s)
  Decided allow_delay memory_usage s t delay =
      (s.bg_catch_error ≡ false) × (allow_delay ≡ true) × (4 ≤ num_level_files 0 s.cache) × (t ≡ s)
  Decided allow_delay memory_usage s t proceed =
      (s.bg_catch_error ≡ false)
      × ((allow_delay ≡ false) ⊎ (num_level_files 0 s.cache < 4))
      × (memory_usage ≤ mem_max_size)
      × (t ≡ s)
  Decided allow_delay memory_usage s t wait =
      (s.bg_catch_error ≡ false)
      × ((allow_delay ≡ false) ⊎ (num_level_files 0 s.cache < 4))
      × (mem_max_size < memory_usage)
      × ((is_some s.imm ≡ true) ⊎ (4 ≤ num_level_files 0 s.cache))
      × (t ≡ s)
  Decided allow_delay memory_usage s t switch =
      (s.bg_catch_error ≡ false)
      × (num_level_files 0 s.cache < 4)
      × (mem_max_size < memory_usage)
      × (s.imm ≡ none)
      × (t.imm ≡ some s.mem)
      × (t.mem ≡ empty_memtable)
      × ((t.submitted ≡ s.submitted
            × t.background_compaction_scheduled ≡ s.background_compaction_scheduled
            × ((s.shutting_down ≡ true) ⊎ (s.background_compaction_scheduled ≡ true)))
          ⊎ (t.submitted ≡ s.submitted + 1
              × t.background_compaction_scheduled ≡ true
              × (s.shutting_down ≡ false)
              × (s.background_compaction_scheduled ≡ false)))

  -- A round of `Prepare` stops at a background error only, delays only a write that may be delayed and
  -- only for four files in level 0, and lets a write proceed within the memory limit only. It hands the
  -- table over only when it is over the limit, no other waits to be written out and level 0 is not full;
  -- then the table is kept, an empty one takes its place, and a background call is submitted unless the
  -- store shuts down or has one already. Every other decision leaves the store as it is.
  pub prepare_round_lem :
      (allow_delay : Bool) (memory_usage : ℕ) (s : KvStore L)
      → Decided allow_delay memory_usage s
          (prepare_round storage allow_delay memory_usage s).1
          (prepare_round storage allow_delay memory_usage s).0
  unfolding prepare_round maybe_schedule_compaction
  prepare_round_lem allow_delay memory_usage s = ground arith

  compact_mem_table-submitted :
      (built : Code × SstFileMeta) (s : KvStore L)
      → (compact_mem_table storage built s).submitted ≡ s.submitted
  unfolding compact_mem_table write_level0_table record_background_error
  compact_mem_table-submitted built s = ground arith

  added_file :
      (f : SstFileMeta) (c : Cache)
      → find f.file_number (level_files c 0) ≡ none
      → find f.file_number (level_files (add_file 0 f c) 0) ≡ some f
  unfolding add_file grow set_level
  added_file f [] free = find-emplace_self f.file_number f [] free
  added_file f (level ∷ levels) free = find-emplace_self f.file_number f level free

  -- When the number of the file that was built is free in level 0: the table that was handed over goes
  -- away only when its file was built and the store is not shutting down; if that file is not empty,
  -- level 0 then has it under its number, and the next file number is behind it. Otherwise the table
  -- stays. The table for writes and the submitted calls are left alone.
  pub compact_mem_table_lem :
      (built : Code × SstFileMeta) (s : KvStore L)
      → find built.1.file_number (level_files s.cache 0) ≡ none
      → (((compact_mem_table storage built s).imm ≡ s.imm)
          ⊎ (((compact_mem_table storage built s).imm ≡ none)
              × (is_ok built.0 ≡ true)
              × (s.shutting_down ≡ false)
              × ((built.1.file_size ≡ 0)
                  ⊎ ((find built.1.file_number
                          (level_files (compact_mem_table storage built s).cache 0)
                        ≡ some built.1)
                      × ((compact_mem_table storage built s).version.fileno
                          ≡ built.1.file_number + 1)))))
        × ((compact_mem_table storage built s).mem ≡ s.mem)
        × ((compact_mem_table storage built s).submitted ≡ s.submitted)
  unfolding compact_mem_table write_level0_table record_background_error set_sst_file_number is_ok
  compact_mem_table_lem built s free = ground (arith, added_file built.1 s.cache free)

  -- What the scheduling looks at, which a write leaves alone.
  abbrev pub SameCalls : KvStore L → KvStore L → Type 0
  SameCalls s t =
      (t.submitted ≡ s.submitted)
      × (t.background_compaction_scheduled ≡ s.background_compaction_scheduled)
      × (t.imm ≡ s.imm)
      × (t.shutting_down ≡ s.shutting_down)
      × (t.bg_catch_error ≡ s.bg_catch_error)

  module _ (build : List SstFileMeta → List SstFileMeta → Bool → Code × List SstFileMeta) where
    compact_sst_file-submitted :
        (fuel level : ℕ) (s s' : KvStore L) (status : Code)
        → compact_sst_file storage build fuel level s ≡ some (status, s')
        → s'.submitted ≡ s.submitted
    unfolding compact_sst_file
    compact_sst_file-submitted zero level s s' status e = cc
    compact_sst_file-submitted (suc fuel) level s s' status e =
        grind (arith, e, compact_sst_file-submitted fuel (level + 1))

    after_sst-submitted :
        (s s' : KvStore L) (o : Option (Code × KvStore L))
        → ((status : Code) (t : KvStore L) → o ≡ some (status, t) → t.submitted ≡ s.submitted)
        → after_sst storage build s o ≡ some s'
        → s'.submitted ≡ s.submitted
    unfolding record_background_error
    after_sst-submitted s s' none h e = cc
    after_sst-submitted s s' (some (status, t)) h e = ground (arith, h status t refl, e)

    background_compaction-submitted :
        (fuel : ℕ) (built : Code × SstFileMeta) (s s' : KvStore L)
        → background_compaction storage build fuel built s ≡ some s'
        → s'.submitted ≡ s.submitted
    unfolding background_compaction record_background_error
    background_compaction-submitted fuel built s s' e =
        let s1 = compact_mem_table storage built s in
        let c = compact_mem_table-submitted built s in
        let sst =
          after_sst-submitted s1 s' (compact_sst_file storage build fuel 0 s1)
            (λ status t. compact_sst_file-submitted fuel 0 s1 t status) in
        ground (arith, e, c, sst)

    -- When a background call that was the only one ends, the flag agrees with the scheduler again.
    pub background_call-OneCall :
        (fuel : ℕ) (built : Code × SstFileMeta) (s s' : KvStore L)
        → s.submitted ≡ 0
        → background_call storage build fuel built s ≡ some s'
        → OneCall s'
    unfolding background_call
    background_call-OneCall fuel built s s' z e =
        grind (
          arith,
          e,
          background_compaction-submitted fuel built s,
          maybe_schedule_compaction-OneCall,
        )

    -- The store while writers, with their rounds of `Prepare`, and the scheduler take turns, with the number
    -- of the background calls that run. A call is one step, at its end; a writer may come in between.
    pub data Reachable : KvStore L → ℕ → Type 0 where
      start :
          (s : KvStore L)
          → s.submitted ≡ 0
          → s.background_compaction_scheduled ≡ false
          → s.imm ≡ none
          → Reachable s 0
      round :
          (allow_delay : Bool) (memory_usage : ℕ) (s : KvStore L) (running : ℕ)
          → Reachable s running
          → Reachable (prepare_round storage allow_delay memory_usage s).1 running
      write :
          (s t : KvStore L) (key val : List ℕ) (type : ValueType) (fresh : List ℕ) (rnd : ℕ)
          (status : Code) (running : ℕ)
          → Reachable s running
          → write_impl storage s key val type fresh rnd ≡ some (status, t)
          → Reachable t running
      take :
          (s : KvStore L) (n running : ℕ)
          → Reachable s running
          → s.submitted ≡ n + 1
          → Reachable (record s { submitted = n }) (running + 1)
      finish :
          (fuel : ℕ) (built : Code × SstFileMeta) (s s' : KvStore L) (running : ℕ)
          → Reachable s (running + 1)
          → background_call storage build fuel built s ≡ some s'
          → Reachable s' running
      shut :
          (s : KvStore L) (running : ℕ)
          → Reachable s running
          → Reachable (record s { shutting_down = true }) running

    -- A table that was handed over will be seen to.
    abbrev pub IsPending : KvStore L → Type 0
    IsPending s =
        (is_some s.imm ≡ false)
        ⊎ ((s.background_compaction_scheduled ≡ true)
            ⊎ ((s.shutting_down ≡ true) ⊎ (s.bg_catch_error ≡ true)))

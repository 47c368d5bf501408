-- ===== src/LevelCache/Tests.antt =====
-- Levels with one file each, and a compaction of the first.
use lsmkv.Base.{ℕ, ◌+◌, ◌≡◌, ◌≢◌, refl, arith, List, [], ◌∷◌, some, take, All, Bool}
use lsmkv.Base.OrderedMap.{values}
use lsmkv.Keys.{InternalKey}
use lsmkv.Comparator.{internal_key}
use lsmkv.Status.{Code, ok}
use lsmkv.Format.{SstFileMeta, overlaps}
use lsmkv.LevelCache.{
  Cache, CompactInfo, level_files, filter, pick_sst_file_num, pick_compaction, do_compaction_work,
}
use lsmkv.LevelCache.Invariant.{IsWellFormed, do_compaction_work-IsWellFormed}
use lsmkv.LevelCache.Compaction.{fresh_info, Within, pick_compaction_lem}

abbrev bound : ℕ → InternalKey
bound b = record { size = 9; rep = b ∷ 1 ∷ 5 ∷ 0 ∷ 0 ∷ 0 ∷ 0 ∷ 0 ∷ 0 ∷ [] }

abbrev file : ℕ → ℕ → ℕ → ℕ → SstFileMeta
file number level low high = record {
  file_size = 700;
  file_number = number;
  level = level;
  vlog_file_no = 2;
  smallest = bound low;
  largest = bound high;
}

abbrev two_levels : Cache
two_levels = ((4, file 4 0 97 99) ∷ []) ∷ ((2, file 2 1 98 105) ∷ []) ∷ []

two_levels-IsWellFormed : IsWellFormed two_levels
two_levels-IsWellFormed = (((tt, tt), ((refl, refl), tt)), (((tt, tt), ((refl, refl), tt)), tt))

picks_one : pick_sst_file_num 0 two_levels ≢ 0
unfolding pick_sst_file_num
picks_one e = absurd (omega arith)

pick_compaction_lem_example :
    (info : CompactInfo) × (small : InternalKey) × (large : InternalKey) × (pick_compaction
        (fresh_info 0)
        two_levels
      ≡ some info)
    × (info.old_files ≡ take (pick_sst_file_num 0 two_levels) (file 4 0 97 99 ∷ []))
    × All (Within small large) info.old_files
    × (info.overlap_files
        ≡ filter
            (λ g. overlaps g small large internal_key)
            (values (level_files two_levels (0 + 1))))
pick_compaction_lem_example =
    pick_compaction_lem two_levels 0 (file 4 0 97 99) [] (omega arith) refl picks_one

-- The merge of the two files into one.
abbrev merged : List SstFileMeta → List SstFileMeta → Bool → Code × List SstFileMeta
merged old overlap vlog = (ok, file 5 0 97 105 ∷ [])

abbrev chosen : CompactInfo
chosen = record {
  level = 0;
  old_files = file 4 0 97 99 ∷ [];
  overlap_files = file 2 1 98 105 ∷ [];
  smallest_key = some (bound 97);
  largest_key = some (bound 99);
}

do_compaction_work-IsWellFormed_example :
    IsWellFormed (do_compaction_work merged chosen two_levels).cache
do_compaction_work-IsWellFormed_example =
    do_compaction_work-IsWellFormed merged chosen two_levels two_levels-IsWellFormed

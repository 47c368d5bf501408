-- ===== src/LevelCache/Lookup.antt =====
-- `LevelCache::get` (src/levelcache.cpp): the files of level 0 from the newest to the oldest, then those
-- of each later level.
pub mod FirstFound
mod Tests
use lsmkv.Base.{
  ℕ, ◌≡◌, refl, sym, ◌∙◌, ap, ap₂, arith, List, [], ◌∷◌, ◌++◌, Option, none, some, Bool, true,
  false, if◌then◌else◌, Bool-cases, inl, inr, ◌⊎◌, All, All-append_left, All-append_right,
  append-nil,
}
use lsmkv.Base.OrderedMap.{values}
use lsmkv.Keys.{QueryKey}
use lsmkv.Status.{Code, ok, not_found, is_ok, is_not_found}
use lsmkv.Format.{SstFileMeta, VLogEntryInfo, in_range}
use lsmkv.LevelCache.{Level, Cache}
use lsmkv.Reader.Files.{Lookup, no_location, first_answer, read_async_batch, read_batch}

-- `std::ranges::reverse_view`
unfoldable pub reverse_view : List SstFileMeta → List SstFileMeta
reverse_view [] = []
reverse_view (f ∷ fs) = reverse_view fs ++ f ∷ []

-- The loop that gathers the files with the key in their range.
unfoldable pub files_in_range : QueryKey → List SstFileMeta → List SstFileMeta
files_in_range key [] = []
files_in_range key (f ∷ fs) =
    let rest = files_in_range key fs in if in_range f key then f ∷ rest else rest

-- A success ends the loop over the levels.
abbrev pub unless_ok :
    Option (Code × VLogEntryInfo)
    → (Code × VLogEntryInfo → Option (Code × VLogEntryInfo))
    → Option (Code × VLogEntryInfo)
unless_ok none later = none
unless_ok (some s) later = if is_ok s.0 then some s else later s

-- The levels are asked only behind a `NotFound`.
abbrev pub if_not_found :
    Option (Code × VLogEntryInfo)
    → (Code × VLogEntryInfo → Option (Code × VLogEntryInfo))
    → Option (Code × VLogEntryInfo)
if_not_found none later = none
if_not_found (some s) later = if is_not_found s.0 then later s else some s

module _ (lookup : Lookup) where
  -- The lookup in a level's files, if there are any; else the status stays as it was.
  abbrev pub read_level : List SstFileMeta → Code × VLogEntryInfo → Option (Code × VLogEntryInfo)
  read_level [] before = some before
  read_level (f ∷ fs) before = read_batch lookup (f ∷ fs) before.1

  -- The loop over the later levels, which ends at a success only.
  unfoldable pub get_levels :
      QueryKey → Cache → Code × VLogEntryInfo → Option (Code × VLogEntryInfo)
  get_levels key [] before = some before
  get_levels key (level ∷ levels) before =
      unless_ok (read_level (files_in_range key (values level)) before) (get_levels key levels)

  -- `none` is a lookup that reads out of range, or level 0 of a cache that was reset.
  unfoldable pub get : QueryKey → Cache → VLogEntryInfo → Option (Code × VLogEntryInfo)
  get key [] info = none
  get key (level0 ∷ levels) info =
      if_not_found
        (read_level (files_in_range key (reverse_view (values level0))) (not_found, info))
        (get_levels key levels)

-- ===== src/LevelCache/Lookup/Tests.antt =====
-- A lookup in four files on two levels.
use lsmkv.Base.{
  ℕ, ◌≡◌, refl, List, [], ◌∷◌, some, All, ◌||◌, ◌==◌, if◌then◌else◌, Bool-cases, inl, inr,
}
use lsmkv.Keys.{
  InternalKey, QueryKey, query_key, query_user_key, internal_user_key, extract_user_key,
  encode_internal_key,
}
use lsmkv.Status.{Code, ok, not_found, is_ok}
use lsmkv.Format.{SstFileMeta, VLogEntryInfo, in_range}
use lsmkv.LevelCache.{Level, Cache}
use lsmkv.LevelCache.Lookup.{get}
use lsmkv.Comparator.{compare_str}
use lsmkv.Coding.{store_at, encode_fixed}
use lsmkv.LevelCache.Lookup.FirstFound.{Answers, Knows, newest_found, levels_found, get-first_found}
use lsmkv.Base.OrderedMap.{values}
use lsmkv.Reader.Files.{Lookup, no_location}

abbrev bound : ℕ → InternalKey
bound b = record { size = 9; rep = b ∷ 1 ∷ 5 ∷ 0 ∷ 0 ∷ 0 ∷ 0 ∷ 0 ∷ 0 ∷ [] }

abbrev file : ℕ → ℕ → ℕ → SstFileMeta
file number low high = record {
  file_size = 700;
  file_number = number;
  level = 0;
  vlog_file_no = 2;
  smallest = bound low;
  largest = bound high;
}

abbrev newest : Level
newest = (3, file 3 97 99) ∷ (4, file 4 97 99) ∷ (6, file 6 97 98) ∷ []

abbrev older : Cache
older = ((5, file 5 97 99) ∷ []) ∷ []

abbrev asked : QueryKey
asked = query_key 9 (98 ∷ [])

abbrev found_at : ℕ → VLogEntryInfo
found_at n = record { offset = n; file_no = 1; length = 30 }

-- Files 3 and 5 have the key.
abbrev key_answer : SstFileMeta → Code × VLogEntryInfo
key_answer f =
    if f.file_number == 3 || f.file_number == 5
    then (ok, found_at f.file_number)
    else (not_found, no_location)

abbrev key_lookup : Lookup
key_lookup f info = some (key_answer f)

key_lookup-Answers : (f : SstFileMeta) → Answers key_lookup key_answer f
key_lookup-Answers f = (
  refl,
  elim (Bool-cases (f.file_number == 3 || f.file_number == 5)) [
    | inl has ↦ inl (rw has refl)
    | inr lacks ↦ inr (rw lacks refl)
  ],
)

All-Knows : (fs : List SstFileMeta) → All (Knows key_lookup key_answer asked) fs
All-Knows [] = tt
All-Knows (f ∷ fs) = (inr (key_lookup-Answers f), All-Knows fs)

get-first_found_example :
    get key_lookup asked (newest ∷ older) no_location
    ≡ some (
        if is_ok (newest_found key_lookup key_answer asked newest).0
        then newest_found key_lookup key_answer asked newest
        else levels_found key_lookup key_answer asked older)
get-first_found_example =
    get-first_found key_lookup key_answer asked newest older (All-Knows (values newest))
      (All-Knows (values ((5, file 5 97 99) ∷ [])), tt)

-- The file with the higher number, 4, does not have the key, and that of the later level is not asked.
gives_three : newest_found key_lookup key_answer asked newest ≡ (ok, found_at 3)
unfolding newest_found in_range compare_str query_user_key query_key store_at encode_fixed
    internal_user_key extract_user_key encode_internal_key is_ok
gives_three = refl

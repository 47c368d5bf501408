-- ===== src/LevelCache.antt =====
-- src/levelcache.cpp and src/include/levelcache.h: the files of each level, kept by their numbers,
-- and the choice and the effect of a compaction. What `BuildWhenCompaction` merges and writes is an
-- argument; locks and the removal of files from the disk are left out, but for the files' numbers.
pub mod Invariant
pub mod Compaction
pub mod Scan
pub mod Lookup
mod Tests
use lsmkv.Base.{
  ℕ, zero, suc, ◌+◌, ◌-◌, ◌%◌, ◌^◌, List, [], ◌∷◌, ◌++◌, map, Option, none, some, length, replicate,
  take, drop, get_or, ltb, leb, ◌==◌, ◌&&◌, ◌||◌, not, Bool, true, false, if◌then◌else◌, by_order,
  Ordering,
}
use lsmkv.Base.OrderedMap.{OrderedMap, find, emplace, erase, values}
use lsmkv.Keys.{InternalKey, encode_internal_key}
use lsmkv.Comparator.{internal_key, compare_internal}
use lsmkv.Status.{Code, ok, not_found, corruption, is_ok}
use lsmkv.Format.{SstFileMeta, overlaps}
use lsmkv.Skiplist.{is_lt}

abbrev pub Level : Type 0
Level = OrderedMap SstFileMeta

-- `std::vector` of levels.
abbrev pub Cache : Type 0
Cache = List Level

abbrev pub level_trigger : ℕ
level_trigger = 4

abbrev pub compaction_vlog_level : ℕ
compaction_vlog_level = 3

-- The constructor resizes to eight levels.
unfoldable pub new_cache : Cache
new_cache = replicate 8 []

-- `cache.resize(n)` where it grows.
unfoldable pub grow : ℕ → Cache → Cache
grow n c = c ++ replicate (n - length c) []

abbrev pub level_files : Cache → ℕ → Level
level_files c level = get_or c level []

unfoldable pub set_level : ℕ → Level → Cache → Cache
set_level level m [] = []
set_level zero m (l ∷ c) = m ∷ c
set_level (suc level) m (l ∷ c) = l ∷ set_level level m c

unfoldable pub num_level_files : ℕ → Cache → ℕ
num_level_files level c = if leb (length c) level then 0 else length (level_files c level) % 2 ^ 32

-- `NumLevelFilesEx`, the same without the lock.
unfoldable pub num_level_files_ex : ℕ → Cache → ℕ
num_level_files_ex level c =
    if leb (length c) level then 0 else length (level_files c level) % 2 ^ 32

-- `empty` and `reset`: no level at all.
unfoldable pub is_empty : Cache → Bool
is_empty c = length c == 0

unfoldable pub reset : Cache → Cache
reset c = []

unfoldable pub add_file : ℕ → SstFileMeta → Cache → Cache
add_file level f c =
    let c = grow (level + 1) c in set_level level (emplace f.file_number f (level_files c level)) c

-- The loop of `AddFile` for a list, which sets the files' level.
unfoldable pub add_all : ℕ → List SstFileMeta → Level → Level
add_all level [] m = m
add_all level (f ∷ fs) m = add_all level fs (emplace f.file_number (record f { level = level }) m)

unfoldable pub add_files : ℕ → List SstFileMeta → Cache → Cache
add_files level fs c =
    let c = grow (level + 1) c in set_level level (add_all level fs (level_files c level)) c

abbrev pub is_some : {A : Type 0} → Option A → Bool
is_some none = false
is_some (some a) = true

unfoldable pub remove_file : ℕ → ℕ → Cache → Code × Cache
remove_file level file_no c =
    if leb (length c) level
    then (corruption, c)
    else if is_some (find file_no (level_files c level))
    then (ok, set_level level (erase file_no (level_files c level)) c)
    else (not_found, c)

-- `RemoveFileAtCompaction` stops at the first file that is not there.
unfoldable pub remove_files : ℕ → List SstFileMeta → Cache → Code × Cache
remove_files level [] c = (ok, c)
remove_files level (f ∷ fs) c =
    let removed = remove_file level f.file_number c in
    let rest = remove_files level fs removed.1 in if is_ok removed.0 then rest else removed

-- One round of `MoveFiles`: the file goes to the new level under its number.
abbrev pub move_found : ℕ → ℕ → ℕ → Option SstFileMeta → Cache → Code × Cache
move_found level new_level n none c = (not_found, c)
move_found level new_level n (some f) c =
    let c =
      set_level new_level (emplace n (record f { level = new_level }) (level_files c new_level))
        c in
    (ok, set_level level (erase n (level_files c level)) c)

unfoldable pub move_all : ℕ → ℕ → List SstFileMeta → Cache → Code × Cache
move_all level new_level [] c = (ok, c)
move_all level new_level (f ∷ fs) c =
    let moved =
      move_found level new_level f.file_number (find f.file_number (level_files c level)) c in
    let rest = move_all level new_level fs moved.1 in if is_ok moved.0 then rest else moved

unfoldable pub move_files : ℕ → List SstFileMeta → ℕ → Cache → Code × Cache
move_files level fs new_level c =
    if leb (length c) level
    then (corruption, c)
    else move_all level new_level fs (grow (new_level + 1) c)

-- How many files of a level to compact: all of level 0, and of the others one more than two below
-- what the level has over its limit, in the `size_t` and `uint32_t` of the source.
unfoldable pub pick_sst_file_num : ℕ → Cache → ℕ
pick_sst_file_num level c =
    let size = length (level_files c level) in
    let num = 10 ^ level % 2 ^ 32 in
    if level == 0
    then size % 2 ^ 32
    else if ltb size num
    then 0
    else (num + 2 ^ 64 + 2 - size % 2 ^ 64) % 2 ^ 64 % 2 ^ 32

pub record CompactInfo : Type 0 where
  pub level : ℕ
  pub old_files : List SstFileMeta
  pub overlap_files : List SstFileMeta
  -- `none` is a pointer that was not set.
  pub smallest_key : Option InternalKey
  pub largest_key : Option InternalKey

-- The bounds with one more file; the first file sets them.
abbrev pub lower_bound : Option InternalKey → InternalKey → InternalKey
lower_bound none k = k
lower_bound (some b) k =
    if is_lt (compare_internal (encode_internal_key k) (encode_internal_key b)) then k else b

abbrev pub upper_bound : Option InternalKey → InternalKey → InternalKey
upper_bound none k = k
upper_bound (some b) k =
    by_order (compare_internal (encode_internal_key k) (encode_internal_key b)) b b k

-- The bound so far; the source asks whether a file was chosen already.
abbrev pub known : List SstFileMeta → Option InternalKey → Option InternalKey
known [] bound = none
known (f ∷ fs) bound = bound

unfoldable pub widen : CompactInfo → SstFileMeta → CompactInfo
widen info f = record info {
  smallest_key = some (lower_bound (known info.old_files info.smallest_key) f.smallest);
  largest_key = some (upper_bound (known info.old_files info.largest_key) f.largest);
  old_files = info.old_files ++ (f ∷ []);
}

-- The loop of `PickCompaction`, which stops when it has the number of files.
unfoldable pub pick_files : ℕ → List SstFileMeta → CompactInfo → CompactInfo
pick_files pick [] info = info
pick_files pick (f ∷ fs) info =
    let info = widen info f in
    let rest = pick_files pick fs info in if length info.old_files == pick then info else rest

abbrev pub filter : {A : Type 0} → (A → Bool) → List A → List A
filter p [] = []
filter p (x ∷ xs) = if p x then x ∷ filter p xs else filter p xs

-- The loop of `PickOverlappingFiles` over the files of a level; without bounds it would follow a
-- pointer that was not set: `none`.
abbrev pub overlapping :
    Option InternalKey → Option InternalKey → CompactInfo → List SstFileMeta → Option CompactInfo
overlapping (some small) (some large) info files = some (record info {
  overlap_files = info.overlap_files ++ filter (λ f. overlaps f small large internal_key) files;
})
overlapping _ _ info files = none

unfoldable pub pick_overlapping_files : CompactInfo → Cache → Option CompactInfo
pick_overlapping_files info c =
    if leb (length c) (info.level + 1)
    then some info
    else overlapping info.smallest_key info.largest_key info
        (values (level_files c (info.level + 1)))

unfoldable pub pick_compaction : CompactInfo → Cache → Option CompactInfo
pick_compaction info c =
    if leb (length c) info.level
    then some info
    else if pick_sst_file_num info.level c == 0
    then some info
    else pick_overlapping_files
        (pick_files (pick_sst_file_num info.level c) (values (level_files c info.level)) info) c

-- What a compaction leaves: the status, the levels, and the files to delete.
pub record CompactResult : Type 0 where
  pub status : Code
  pub cache : Cache
  pub rm_sst_files : List ℕ
  pub rm_vlog_files : List ℕ
  pub asserted : Bool  -- whether every assertion on the way held

-- The numbers are kept as `uint32_t`.
abbrev pub file_numbers : List SstFileMeta → List ℕ
file_numbers = map (λ f. f.file_number % 2 ^ 32)

abbrev pub vlog_numbers : List SstFileMeta → List ℕ
vlog_numbers = map (λ f. f.vlog_file_no)

-- `assert(f.vlog_file_no_ != 0)` for each of the files.
unfoldable pub have_vlog : List SstFileMeta → Bool
have_vlog [] = true
have_vlog (f ∷ fs) = not (f.vlog_file_no == 0) && have_vlog fs

-- `DoCompactionWork`, where `build` is what `BuildWhenCompaction` makes of the old files, the files
-- they overlap and whether to rewrite the value log: a status and the new files.
unfoldable pub do_compaction_work :
    (List SstFileMeta → List SstFileMeta → Bool → Code × List SstFileMeta)
    → CompactInfo
    → Cache
    → CompactResult
do_compaction_work build info c =
    let level = info.level in
    let compact_vlog = leb compaction_vlog_level (level + 1) in
    let moved = move_files level info.old_files (level + 1) c in
    let built = build info.old_files info.overlap_files compact_vlog in
    let removed = remove_files level info.old_files c in
    let removed = remove_files (level + 1) info.overlap_files removed.1 in
    let gathered =
      (not (leb compaction_vlog_level level) || have_vlog info.old_files)
      && (not compact_vlog || have_vlog info.overlap_files) in
    if leb (length c) level
    then record {
      status = corruption;
      cache = c;
      rm_sst_files = [];
      rm_vlog_files = [];
      asserted = true;
    }
    else if not (level == 0) && not compact_vlog && length info.overlap_files == 0
    then record {
      status = moved.0;
      cache = moved.1;
      rm_sst_files = [];
      rm_vlog_files = [];
      asserted = true;
    }
    else if not (is_ok built.0)
    then record {
      status = built.0;
      cache = c;
      rm_sst_files = [];
      rm_vlog_files = [];
      asserted = gathered;
    }
    else record {
      status = ok;
      cache = add_files (level + 1) built.1 removed.1;
      rm_sst_files = file_numbers info.old_files ++ file_numbers info.overlap_files;
      rm_vlog_files =
          (if leb compaction_vlog_level level then vlog_numbers info.old_files else [])
          ++ (if compact_vlog then vlog_numbers info.overlap_files else []);
      asserted = gathered && (not compact_vlog || have_vlog built.1);
    }

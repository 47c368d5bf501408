-- ===== src/LevelCache/Invariant.antt =====
-- Every file stands at the level that it names, under its number, in ascending order, and the
-- operations on the levels keep it so.
use lsmkv.Base.{
  ℕ, zero, suc, ◌+◌, ◌-◌, ◌≡◌, refl, arith, List, [], ◌∷◌, ◌++◌, Option, none, some, length,
  replicate, All, Bool, leb,
}
use lsmkv.Base.OrderedMap.{
  find, emplace, erase, Ascending, find-All, emplace-All, erase-All, emplace-Ascending,
  erase-Ascending,
}
use lsmkv.Status.{Code}
use lsmkv.Format.{SstFileMeta}
use lsmkv.LevelCache.{
  Level, Cache, level_files, set_level, grow, new_cache, add_file, add_all, add_files, remove_file,
  remove_files, move_found, move_all, move_files, CompactInfo, do_compaction_work,
}

-- The files of one level.
abbrev pub IsPlaced : ℕ → Level → Type 0
IsPlaced level m = Ascending m × All (λ e. (e.1.file_number ≡ e.0) × (e.1.level ≡ level)) m

-- The levels of a list, the first of which has a given number.
abbrev pub PlacedFrom : ℕ → Cache → Type 0
PlacedFrom level [] = Unit
PlacedFrom level (m ∷ c) = IsPlaced level m × PlacedFrom (suc level) c

abbrev pub IsWellFormed : Cache → Type 0
IsWellFormed = PlacedFrom 0

level_files-PlacedFrom :
    (from level : ℕ) (c : Cache) → PlacedFrom from c → IsPlaced (from + level) (level_files c level)
level_files-PlacedFrom from level [] h = (tt, tt)
level_files-PlacedFrom from zero (m ∷ c) h = let e : from + 0 ≡ from = omega arith in rw e h.0
level_files-PlacedFrom from (suc level) (m ∷ c) h =
    let e : from + suc level ≡ suc from + level = omega arith in
    rw e (level_files-PlacedFrom (suc from) level c h.1)

set_level-PlacedFrom :
    (from level : ℕ) (m : Level) (c : Cache)
    → PlacedFrom from c
    → IsPlaced (from + level) m
    → PlacedFrom from (set_level level m c)
unfolding set_level
set_level-PlacedFrom from level m [] h p = tt
set_level-PlacedFrom from zero m (l ∷ c) h p =
    let e : from + 0 ≡ from = omega arith in (rw e at p, h.1)
set_level-PlacedFrom from (suc level) m (l ∷ c) h p =
    let e : from + suc level ≡ suc from + level = omega arith in
    (h.0, set_level-PlacedFrom (suc from) level m c h.1 (rw e at p))

grow-PlacedFrom :
    (n from : ℕ) (c : Cache) → PlacedFrom from c → PlacedFrom from (c ++ replicate n [])
grow-PlacedFrom zero from [] h = tt
grow-PlacedFrom (suc n) from [] h = ((tt, tt), grow-PlacedFrom n (suc from) [] tt)
grow-PlacedFrom n from (m ∷ c) h = (h.0, grow-PlacedFrom n (suc from) c h.1)

emplace-IsPlaced :
    (level n : ℕ) (f : SstFileMeta) (m : Level)
    → f.file_number ≡ n
    → f.level ≡ level
    → IsPlaced level m
    → IsPlaced level (emplace n f m)
emplace-IsPlaced level n f m en el h = (
  emplace-Ascending n f m h.0,
  emplace-All (λ e. (e.1.file_number ≡ e.0) × (e.1.level ≡ level)) n f m (en, el) h.1,
)

erase-IsPlaced : (level n : ℕ) (m : Level) → IsPlaced level m → IsPlaced level (erase n m)
erase-IsPlaced level n m h = (
  erase-Ascending n m h.0,
  erase-All (λ e. (e.1.file_number ≡ e.0) × (e.1.level ≡ level)) n m h.1,
)

-- The files of a level of a well-formed list of levels.
level_files-IsPlaced :
    (level : ℕ) (c : Cache) → IsWellFormed c → IsPlaced level (level_files c level)
level_files-IsPlaced level c h =
    let e : 0 + level ≡ level = omega arith in rw e at (level_files-PlacedFrom 0 level c h)

set_level-IsWellFormed :
    (level : ℕ) (m : Level) (c : Cache)
    → IsWellFormed c
    → IsPlaced level m
    → IsWellFormed (set_level level m c)
set_level-IsWellFormed level m c h p =
    let e : 0 + level ≡ level = omega arith in set_level-PlacedFrom 0 level m c h (rw e p)

grow-IsWellFormed : (n : ℕ) (c : Cache) → IsWellFormed c → IsWellFormed (grow n c)
unfolding grow
grow-IsWellFormed n c h = grow-PlacedFrom (n - length c) 0 c h

pub add_file-IsWellFormed :
    (level : ℕ) (f : SstFileMeta) (c : Cache)
    → f.level ≡ level
    → IsWellFormed c
    → IsWellFormed (add_file level f c)
unfolding add_file
add_file-IsWellFormed level f c e h =
    let g = grow-IsWellFormed (level + 1) c h in
    set_level-IsWellFormed level _ _ g (
      emplace-IsPlaced level f.file_number f _ refl e
        (level_files-IsPlaced level (grow (level + 1) c) g))

add_all-IsPlaced :
    (level : ℕ) (fs : List SstFileMeta) (m : Level)
    → IsPlaced level m
    → IsPlaced level (add_all level fs m)
unfolding add_all
add_all-IsPlaced level [] m h = h
add_all-IsPlaced level (f ∷ fs) m h =
    add_all-IsPlaced level fs _
      (emplace-IsPlaced level f.file_number (record f { level = level }) m refl refl h)

pub add_files-IsWellFormed :
    (level : ℕ) (fs : List SstFileMeta) (c : Cache)
    → IsWellFormed c
    → IsWellFormed (add_files level fs c)
unfolding add_files
add_files-IsWellFormed level fs c h =
    let g = grow-IsWellFormed (level + 1) c h in
    set_level-IsWellFormed level _ _ g
      (add_all-IsPlaced level fs _ (level_files-IsPlaced level (grow (level + 1) c) g))

pub remove_file-IsWellFormed :
    (level n : ℕ) (c : Cache) → IsWellFormed c → IsWellFormed (remove_file level n c).1
unfolding remove_file
remove_file-IsWellFormed level n c h =
    let r =
      set_level-IsWellFormed level (erase n (level_files c level)) c h
        (erase-IsPlaced level n (level_files c level) (level_files-IsPlaced level c h)) in
    ground (arith, h, r)

pub remove_files-IsWellFormed :
    (level : ℕ) (fs : List SstFileMeta) (c : Cache)
    → IsWellFormed c
    → IsWellFormed (remove_files level fs c).1
unfolding remove_files
remove_files-IsWellFormed level [] c h = h
remove_files-IsWellFormed level (f ∷ fs) c h =
    let r = remove_file-IsWellFormed level f.file_number c h in
    let rest = remove_files-IsWellFormed level fs (remove_file level f.file_number c).1 r in
    ground (arith, r, rest)

move_found-IsWellFormed :
    (level new_level n : ℕ) (o : Option SstFileMeta) (c : Cache)
    → find n (level_files c level) ≡ o
    → IsWellFormed c
    → IsWellFormed (move_found level new_level n o c).1
move_found-IsWellFormed level new_level n none c e h = h
move_found-IsWellFormed level new_level n (some f) c e h =
    let p = level_files-IsPlaced level c h in
    let (en, el) =
      find-All (λ n f. (f.file_number ≡ n) × (f.level ≡ level)) n (level_files c level) f p.1 e in
    let placed = set_level-IsWellFormed new_level _ c h (
      emplace-IsPlaced new_level n (record f { level = new_level }) _ en refl
        (level_files-IsPlaced new_level c h)) in
    set_level-IsWellFormed level _ _ placed
      (erase-IsPlaced level n _ (level_files-IsPlaced level _ placed))

move_all-IsWellFormed :
    (level new_level : ℕ) (fs : List SstFileMeta) (c : Cache)
    → IsWellFormed c
    → IsWellFormed (move_all level new_level fs c).1
unfolding move_all
move_all-IsWellFormed level new_level [] c h = h
move_all-IsWellFormed level new_level (f ∷ fs) c h =
    let r = move_found-IsWellFormed level new_level f.file_number _ c refl h in
    let rest = move_all-IsWellFormed level new_level fs _ r in ground (arith, r, rest)

pub move_files-IsWellFormed :
    (level : ℕ) (fs : List SstFileMeta) (new_level : ℕ) (c : Cache)
    → IsWellFormed c
    → IsWellFormed (move_files level fs new_level c).1
unfolding move_files
move_files-IsWellFormed level fs new_level c h =
    let r = move_all-IsWellFormed level new_level fs _ (grow-IsWellFormed (new_level + 1) c h) in
    ground (arith, h, r)

-- If every file stands at the level and under the number that its metadata names, then whatever files
-- were chosen and whatever the merge gives, after a compaction every file still stands
-- at the level and under the number that its metadata names, in ascending order of the numbers.
pub do_compaction_work-IsWellFormed :
    (build : List SstFileMeta → List SstFileMeta → Bool → Code × List SstFileMeta)
    (info : CompactInfo) (c : Cache)
    → IsWellFormed c
    → IsWellFormed (do_compaction_work build info c).cache
unfolding do_compaction_work
do_compaction_work-IsWellFormed build info c h =
    let moved = move_files-IsWellFormed info.level info.old_files (info.level + 1) c h in
    let removed = remove_files-IsWellFormed info.level info.old_files c h in
    let both = remove_files-IsWellFormed (info.level + 1) info.overlap_files _ removed in
    let added =
      add_files-IsWellFormed (info.level + 1)
        (build info.old_files info.overlap_files (leb 3 (info.level + 1))).1 _ both in
    ground (arith, h, moved, added)

-- A new list of levels is well formed.
pub new_cache-IsWellFormed : IsWellFormed new_cache
unfolding new_cache
new_cache-IsWellFormed = grow-PlacedFrom 8 0 [] tt

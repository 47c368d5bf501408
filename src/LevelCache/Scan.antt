-- ===== src/LevelCache/Scan.antt =====
-- `Scan` (src/include/levelcache.h): it collects from an iterator the newest version of every key that a
-- snapshot sees. What the iterator gives is a list of keys and values, and the map, which is ordered by
-- the keys' bytes, keeps an element that it has.
use lsmkv.Base.{ℕ, List, [], ◌∷◌, leb, not, ◌&&◌, if◌then◌else◌, by_order}
use lsmkv.Keys.{extract_user_key, extract_sequence_number}
use lsmkv.Comparator.{compare_str}
use lsmkv.Skiplist.{is_eq}

abbrev pub Item : Type 0
Item = List ℕ × List ℕ

-- `std::map::emplace`
unfoldable pub emplace : List ℕ → List ℕ → List Item → List Item
emplace k v [] = (k, v) ∷ []
emplace k v ((j, w) ∷ m) =
    let rest = emplace k v m in
    by_order (compare_str k j) ((k, v) ∷ ((j, w) ∷ m)) ((j, w) ∷ m) ((j, w) ∷ rest)

-- The second loop, with the last key that was taken.
unfoldable pub scan_rest : ℕ → List ℕ → List Item → List Item → List Item
scan_rest seq last [] m = m
scan_rest seq last ((k, v) ∷ items) m =
    let user = extract_user_key k in
    let taken = scan_rest seq user items (emplace user v m) in
    let skipped = scan_rest seq last items m in
    if leb (extract_sequence_number k) seq && not (is_eq (compare_str user last))
    then taken
    else skipped

-- The first loop takes the first version that the snapshot sees.
unfoldable pub scan : ℕ → List Item → List Item → List Item
scan seq [] m = m
scan seq ((k, v) ∷ items) m =
    let user = extract_user_key k in
    let taken = scan_rest seq user items (emplace user v m) in
    let skipped = scan seq items m in if leb (extract_sequence_number k) seq then taken else skipped

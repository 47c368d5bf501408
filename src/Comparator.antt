-- ===== src/Comparator.antt =====
-- utils/comparator.h and src/comparator.cpp: the orders on keys. The `int` that a comparison
-- returns is used by its sign alone, so it is an `Ordering` here.
pub mod Order
pub mod Separator
mod Tests
use lsmkv.Base.{
  ℕ, zero, suc, ◌+◌, ◌-◌, ◌%◌, ◌<◌, compare, Ordering, List, [], ◌∷◌, ◌++◌, Bool, true, false, not,
  ◌&&◌, ◌||◌, Option, none, some, length, take, drop, min, ltb, ◌==◌, if◌then◌else◌, get_or,
}
use lsmkv.Coding.{decode_fixed64}
use lsmkv.Keys.{extract_user_key}

-- The sign of `-res`.
abbrev pub negate : Ordering → Ordering
negate Ordering.lt = Ordering.gt
negate Ordering.eq = Ordering.eq
negate Ordering.gt = Ordering.lt

-- `res ? res : next`
abbrev pub or_else : Ordering → Ordering → Ordering
or_else Ordering.lt next = Ordering.lt
or_else Ordering.eq next = next
or_else Ordering.gt next = Ordering.gt

-- `string_view::compare`: the first byte that differs decides, as an unsigned number, and a
-- proper prefix is the smaller one.
unfoldable pub compare_str : List ℕ → List ℕ → Ordering
compare_str [] [] = Ordering.eq
compare_str [] (y ∷ ys) = Ordering.lt
compare_str (x ∷ xs) [] = Ordering.gt
compare_str (x ∷ xs) (y ∷ ys) = or_else (compare x y) (compare_str xs ys)

-- `(l > r) - (l < r)` of the two numbers, under the assertion that the slices have the same size and for
-- slices of eight bytes, which the calls on the ends of internal keys hand over.
unfoldable pub compare_num : List ℕ → List ℕ → Ordering
compare_num a b = compare (decode_fixed64 a) (decode_fixed64 b)

unfoldable pub extract_seq_num : List ℕ → List ℕ
extract_seq_num key = take 8 (drop (length key - 8) key)

-- If the user key is the same, the larger sequence number comes first.
unfoldable pub compare_internal : List ℕ → List ℕ → Ordering
compare_internal a b =
    or_else (compare_str (extract_user_key a) (extract_user_key b))
      (negate (compare_num (extract_seq_num a) (extract_seq_num b)))

unfoldable pub compare_user : List ℕ → List ℕ → Ordering
compare_user a b = compare_str (extract_user_key a) (extract_user_key b)

-- `Comparator` is a variant of the four built-in comparators and a user's.
pub data Comparator : Type 0 where
  internal_key str num user_key : Comparator
  user_defined : (List ℕ → List ℕ → Ordering) → Comparator

unfoldable pub compare_with : Comparator → List ℕ → List ℕ → Ordering
compare_with internal_key = compare_internal
compare_with str = compare_str
compare_with num = compare_num
compare_with user_key = compare_user
compare_with (user_defined f) = f

-- The loop of `find_shortest_separator`: the first index below the bound where the two differ.
unfoldable pub diff_index : List ℕ → List ℕ → ℕ
diff_index [] l = 0
diff_index (x ∷ s) [] = 0
diff_index (x ∷ s) (y ∷ l) = if x == y then suc (diff_index s l) else 0

unfoldable pub find_shortest_separator : List ℕ → List ℕ → List ℕ
find_shortest_separator start limit =
    let i = diff_index start limit in
    let diff_byte = get_or start i 0 in
    if not (ltb i (min (length start) (length limit)))
    then start
    else if ltb diff_byte 0xff && ltb (diff_byte + 1) (get_or limit i 0)
    then take i start ++ ((diff_byte + 1) ∷ [])
    else start

-- `find_short_successor_impl`, where `signed` says whether the platform's `char` is signed: the
-- test `(*key)[i] != 0xff` promotes the byte to `int`, and no signed char promotes to 0xff.
unfoldable pub find_short_successor : Bool → List ℕ → List ℕ
find_short_successor signed [] = []
find_short_successor signed (c ∷ key) =
    if signed || not (c == 0xff) then ((c + 1) % 256) ∷ [] else c ∷ find_short_successor signed key

-- `NumComparator` has a loop of its own with the same steps.
unfoldable pub find_short_successor_num : Bool → List ℕ → List ℕ
find_short_successor_num signed [] = []
find_short_successor_num signed (c ∷ key) =
    let rest = find_short_successor_num signed key in
    if signed || not (c == 0xff) then ((c + 1) % 256) ∷ [] else c ∷ rest

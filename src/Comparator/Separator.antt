-- ===== src/Comparator/Separator.antt =====
-- Separators and successors of keys.
use lsmkv.Base.{
  ℕ, ◌+◌, ◌≤◌, ◌<◌, Ordering, List, [], ◌∷◌, ◌++◌, ◌≡◌, ◌⊎◌, inl, refl, true, false, arith, length,
  take, get_or, min,
}
use lsmkv.Coding.RoundTrip.{IsBytes}
use lsmkv.Comparator.{compare_str, diff_index, find_shortest_separator, find_short_successor}

-- A byte between those of the two strings at the first difference makes a string between them.
bump_between :
    (s l : List ℕ)
    → diff_index s l < min (length s) (length l)
    → get_or s (diff_index s l) 0 + 1 < get_or l (diff_index s l) 0
    → let sep = take (diff_index s l) s ++ ((get_or s (diff_index s l) 0 + 1) ∷ []) in
      (compare_str s sep ≡ Ordering.lt)
      × (compare_str sep l ≡ Ordering.lt)
      × (length sep ≤ length s)
unfolding diff_index compare_str
bump_between [] l i b = absurd (omega arith)
bump_between (x ∷ s) [] i b = absurd (omega arith)
bump_between (x ∷ s) (y ∷ l) i b = ground (arith, bump_between s l)

-- The separator of two strings in order is the first string or lies strictly between the two; it
-- stays below the limit and is no longer than the first string.
pub find_shortest_separator_lem :
    (s l : List ℕ)
    → compare_str s l ≡ Ordering.lt
    → let sep = find_shortest_separator s l in
      ((sep ≡ s) ⊎ (compare_str s sep ≡ Ordering.lt))
      × (compare_str sep l ≡ Ordering.lt)
      × (length sep ≤ length s)
unfolding find_shortest_separator
find_shortest_separator_lem s l h = ground (arith, bump_between s l)

-- With unsigned characters the successor of a string of bytes is the string itself, or is above it
-- and no longer.
pub find_short_successor_lem :
    (k : List ℕ)
    → IsBytes k
    → (find_short_successor false k ≡ k)
      ⊎ ((compare_str k (find_short_successor false k) ≡ Ordering.lt)
          × (length (find_short_successor false k) ≤ length k))
unfolding find_short_successor compare_str
find_short_successor_lem [] h = inl refl
find_short_successor_lem (c ∷ k) h = ground (arith, find_short_successor_lem k)

-- Where characters are signed, the successor of a string of bytes that is not empty is one byte. It lies
-- above the string unless the first byte is 0xff, and then below it.
pub find_short_successor_signed :
    (c : ℕ) (k : List ℕ)
    → c < 256
    → (length (find_short_successor true (c ∷ k)) ≡ 1)
      × (((c ≡ 255) × (compare_str (find_short_successor true (c ∷ k)) (c ∷ k) ≡ Ordering.lt))
          ⊎ ((c < 255) × (compare_str (c ∷ k) (find_short_successor true (c ∷ k)) ≡ Ordering.lt)))
unfolding find_short_successor compare_str
find_short_successor_signed c k byte = ground arith

-- ===== src/Comparator/Tests.antt =====
-- The orders and the separators at concrete inputs.
use lsmkv.Base.{ℕ, ◌<◌, ◌≤◌, ◌≡◌, refl, arith, List, [], ◌∷◌, Ordering, ◌⊎◌, ◌↔◌, length, true}
use lsmkv.Keys.Layout.{with_tag}
use lsmkv.Comparator.{
  negate, compare_internal, compare_str, find_shortest_separator, find_short_successor,
}
use lsmkv.Comparator.Order.{
  compare_parts, compare_internal-with_tag, compare_internal_order, compare_internal_trans,
}
use lsmkv.Comparator.Separator.{find_shortest_separator_lem, find_short_successor_signed}

abbrev key_a : List ℕ
key_a = 97 ∷ []

abbrev key_d : List ℕ
key_d = 100 ∷ []

abbrev newer : ℕ
newer = 8

abbrev older : ℕ
older = 3

compare_internal_order_example :
    (compare_internal (with_tag key_a 3) (with_tag key_a 8)
      ≡ negate (compare_internal (with_tag key_a 8) (with_tag key_a 3)))
    × ((compare_internal (with_tag key_a 8) (with_tag key_a 3) ≡ Ordering.eq)
        ↔ ((key_a ≡ key_a) × (newer ≡ older)))
    × (key_a ≡ key_a → 3 < 8 → compare_internal (with_tag key_a 8) (with_tag key_a 3) ≡ Ordering.lt)
compare_internal_order_example =
    compare_internal_order key_a key_a newer older (omega arith) (omega arith)

first_before_second : compare_internal (with_tag key_a 8) (with_tag key_a 3) ≡ Ordering.lt
first_before_second =
    (compare_internal_order key_a key_a 8 3 (omega arith) (omega arith)).2 refl (omega arith)

second_before_third : compare_internal (with_tag key_a 3) (with_tag key_d 5) ≡ Ordering.lt
unfolding compare_parts compare_str
second_before_third = compare_internal-with_tag key_a key_d 3 5 (omega arith) (omega arith)

compare_internal_trans_example :
    compare_internal (with_tag key_a 8) (with_tag key_d 5) ≡ Ordering.lt
compare_internal_trans_example =
    compare_internal_trans key_a key_a key_d 8 3 5 (omega arith) (omega arith) (omega arith)
      first_before_second second_before_third

a_before_d : compare_str key_a key_d ≡ Ordering.lt
unfolding compare_str
a_before_d = refl

find_shortest_separator_lem_example :
    ((find_shortest_separator key_a key_d ≡ key_a)
      ⊎ (compare_str key_a (find_shortest_separator key_a key_d) ≡ Ordering.lt))
    × (compare_str (find_shortest_separator key_a key_d) key_d ≡ Ordering.lt)
    × (length (find_shortest_separator key_a key_d) ≤ length key_a)
find_shortest_separator_lem_example = find_shortest_separator_lem key_a key_d a_before_d

abbrev high_low : List ℕ
high_low = 255 ∷ 97 ∷ []

abbrev first_byte : ℕ
first_byte = 0xff

find_short_successor_signed_example :
    (length (find_short_successor true (0xff ∷ 97 ∷ [])) ≡ 1)
    × (((first_byte ≡ 255)
          × (compare_str (find_short_successor true (0xff ∷ 97 ∷ [])) (0xff ∷ 97 ∷ [])
              ≡ Ordering.lt))
        ⊎ ((first_byte < 255)
            × (compare_str (0xff ∷ 97 ∷ []) (find_short_successor true (0xff ∷ 97 ∷ []))
                ≡ Ordering.lt)))
find_short_successor_signed_example = find_short_successor_signed first_byte (97 ∷ []) (omega arith)

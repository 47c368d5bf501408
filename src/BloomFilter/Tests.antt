-- ===== src/BloomFilter/Tests.antt =====
-- A filter of two bytes under a toy hash.
use lsmkv.Base.{ℕ, ◌+◌, ◌*◌, ◌≡◌, refl, arith, List, [], ◌∷◌, true, false, All}
use lsmkv.BloomFilter.{
  set_bit, has_bit, add_hashes, add_keys, create_filter, all_bits, key_may_match, new_filter_block,
  finish_filter,
}
use lsmkv.BloomFilter.NoFalseNegative.{create_filter_lem}
use lsmkv.BloomFilter.Collect.{
  FilterCall, hand_key, flush_keys, keys_of, after_calls, finish_filter_lem,
}

abbrev toy_hash : List ℕ → List ℕ
toy_hash [] = 0 ∷ 1 ∷ 2 ∷ 3 ∷ []
toy_hash (b ∷ bs) = b ∷ (b * 3) ∷ (b + 7) ∷ (b * b) ∷ []

abbrev two_keys : List (List ℕ)
two_keys = (5 ∷ []) ∷ (9 ∷ 1 ∷ []) ∷ []

abbrev empty_filter : List ℕ
empty_filter = 0 ∷ 0 ∷ []

two_keys_filter : create_filter toy_hash two_keys empty_filter ≡ 0x23 ∷ 0x9a ∷ []
unfolding create_filter add_keys add_hashes set_bit
two_keys_filter = refl

absent_key : key_may_match toy_hash (4 ∷ []) (0x23 ∷ 0x9a ∷ []) ≡ false
unfolding key_may_match all_bits has_bit
absent_key = refl

create_filter_lem_example :
    All
      (λ key. key_may_match toy_hash key (create_filter toy_hash two_keys empty_filter) ≡ true)
      two_keys
create_filter_lem_example = create_filter_lem toy_hash two_keys empty_filter (omega arith)

abbrev filter_calls : List FilterCall
filter_calls =
    hand_key (5 ∷ [])
    ∷ flush_keys
    ∷ hand_key (9 ∷ 1 ∷ [])
    ∷ flush_keys
    ∷ flush_keys
    ∷ hand_key []
    ∷ []

finish_filter_lem_example :
    All
      (λ key.
        key_may_match toy_hash key
          (finish_filter toy_hash (after_calls toy_hash filter_calls (new_filter_block 2))).1
        ≡ true)
      (keys_of filter_calls)
finish_filter_lem_example = finish_filter_lem toy_hash 2 filter_calls (omega arith) (omega arith)

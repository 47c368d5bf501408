-- ===== src/Keys/Tests.antt =====
-- The layouts of keys at concrete inputs.
use lsmkv.Base.{ℕ, ◌*◌, ◌+◌, ◌%◌, ◌^◌, ◌≡◌, ◌++◌, arith, List, [], ◌∷◌, some, length}
use lsmkv.Coding.{encode_fixed32}
use lsmkv.Keys.{
  ValueType, extract_user_key, extract_sequence_number, extract_value_type, make_tag, query_key,
  query_user_key, query_internal_key, query_mem_key, query_sequence,
}
use lsmkv.Keys.Layout.{with_tag, extract-with_tag, query_key_lem}

abbrev key_ab : List ℕ
key_ab = 97 ∷ 98 ∷ []

extract-with_tag_example :
    (extract_user_key (with_tag key_ab (make_tag 9 ValueType.value)) ≡ key_ab)
    × (extract_sequence_number (with_tag key_ab (make_tag 9 ValueType.value)) ≡ 9)
    × (extract_value_type (with_tag key_ab (make_tag 9 ValueType.value)) ≡ some ValueType.value)
extract-with_tag_example = extract-with_tag key_ab 9 ValueType.value (omega arith)

query_key_lem_example :
    (query_user_key (query_key 9 key_ab) ≡ key_ab)
    × (query_internal_key (query_key 9 key_ab) ≡ with_tag key_ab (9 * 256 % 2 ^ 64))
    × (query_mem_key (query_key 9 key_ab)
        ≡ encode_fixed32 (length key_ab + 8) ++ with_tag key_ab (9 * 256 % 2 ^ 64))
    × (query_sequence (query_key 9 key_ab) ≡ 9 % 2 ^ 56)
query_key_lem_example = query_key_lem 9 key_ab (omega arith)

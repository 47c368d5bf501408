-- ===== src/MemTable/Order.antt =====
-- The order of a memtable's keys, and the buffers that `put` makes.
use lsmkv.Base.{
  ℕ, ◌+◌, ◌^◌, ◌<◌, ◌≡◌, refl, arith, List, [], ◌++◌, append_assoc, append-nil, length, drop,
  length-append, length-drop, drop-append, take-append, drop_of_length-le,
}
use lsmkv.Coding.{decode_fixed64, decode_fixed32, encode_fixed32, encode_fixed64}
use lsmkv.Coding.RoundTrip.{length-encode_fixed, decode_fixed-encode_fixed, store_at_lem}
use lsmkv.Keys.{extract_user_key}
use lsmkv.Keys.Layout.{with_tag, length-with_tag}
use lsmkv.Comparator.{compare_internal, compare_num, extract_seq_num}
use lsmkv.Comparator.Order.{
  compare_parts, compare_parts_swap, compare_parts_trans, eq_of_compare_parts,
}
use lsmkv.Skiplist.Insert.{IsOrder}
use lsmkv.MemTable.{get_value_from_mem_key, get_key_from_mem_key, mem_compare, put_buffer}

abbrev tag_of : List ℕ → ℕ
tag_of k = decode_fixed64 (extract_seq_num k)

mem_compare_parts :
    (a b : List ℕ)
    → mem_compare a b
      ≡ compare_parts
          (extract_user_key (get_key_from_mem_key a))
          (tag_of (get_key_from_mem_key a))
          (extract_user_key (get_key_from_mem_key b))
          (tag_of (get_key_from_mem_key b))
unfolding mem_compare compare_internal compare_num compare_parts
mem_compare_parts a b = refl

-- The comparator of the memtable is an order on all buffers, as its skip list needs.
pub mem_compare-IsOrder : IsOrder mem_compare
mem_compare-IsOrder = record {
  swap = λ a b. rw (mem_compare_parts a b, mem_compare_parts b a) (compare_parts_swap _ _ _ _);
  trans = λ a b c p q. rw (mem_compare_parts a c) (
      compare_parts_trans _ _ _ _ _ _ (rw (mem_compare_parts a b) at p)
        (rw (mem_compare_parts b c) at q));
  lt_eq = λ a b c p q.
      let (u, t) = eq_of_compare_parts _ _ _ _ (rw (mem_compare_parts b c) at q) in
      rw (mem_compare_parts a c, ← u, ← t) (rw (mem_compare_parts a b) at p);
}

-- A buffer with an internal key and what follows it.
abbrev pub mem_buffer : List ℕ → ℕ → List ℕ → List ℕ
mem_buffer key tag rest = encode_fixed32 (length key + 8) ++ (with_tag key tag ++ rest)

-- The accessors split a buffer again.
pub mem_buffer_lem :
    (key : List ℕ) (tag : ℕ) (rest : List ℕ)
    → length key + 8 < 2 ^ 32
    → (get_key_from_mem_key (mem_buffer key tag rest) ≡ with_tag key tag)
      × (get_value_from_mem_key (mem_buffer key tag rest) ≡ rest)
unfolding get_key_from_mem_key get_value_from_mem_key
mem_buffer_lem key tag rest h =
    let size : decode_fixed32 (mem_buffer key tag rest) ≡ length key + 8 =
      decode_fixed-encode_fixed 4 (length key + 8) (with_tag key tag ++ rest) (omega arith) in
    let skip : drop 4 (mem_buffer key tag rest) ≡ with_tag key tag ++ rest =
      drop-append 4 (encode_fixed32 (length key + 8)) (with_tag key tag ++ rest)
        (omega (arith, length-encode_fixed 4 (length key + 8))) in
    let n = length-with_tag key tag in
    (
      rw (size, skip) (take-append _ (with_tag key tag) rest (omega arith)),
      rw (size, ← append_assoc)
          (drop-append _ (encode_fixed32 (length key + 8) ++ with_tag key tag) rest (
            omega (
              arith,
              length-append (encode_fixed32 (length key + 8)) (with_tag key tag),
              length-encode_fixed 4 (length key + 8),
            ))),
    )

-- `put` makes such a buffer of sixteen bytes behind the key: the value, if it has them, and else the
-- value with what the arena's memory held behind it.
pub put_buffer_lem :
    (fresh : List ℕ) (seq : ℕ) (key value : List ℕ)
    → length fresh ≡ 16 + 8 + length key + 4
    → (rest : List ℕ) × (put_buffer fresh seq key value ≡ mem_buffer key seq rest)
      × (length value ≡ 16 → rest ≡ value)
unfolding put_buffer
put_buffer_lem fresh seq key value h =
    let a = encode_fixed32 (length key + 8) in
    let t = encode_fixed64 seq in
    let la : length a ≡ 4 = length-encode_fixed 4 (length key + 8) in
    let lt : length t ≡ 8 = length-encode_fixed 8 seq in
    let z1 = drop (length a) fresh in
    let z2 = drop (length key) z1 in
    let z3 = drop (length t) z2 in
    let left = drop (length value) z3 in
    (
      value ++ left,
      rw
          (
            store_at_lem 0 [] a fresh refl,
            store_at_lem 4 a key z1 (omega arith),
            store_at_lem (4 + length key) (a ++ key) t z2 (omega (arith, length-append a key)),
            store_at_lem (12 + length key) (a ++ key ++ t) value z3
                (omega (arith, length-append a key, length-append (a ++ key) t)),
          )
          (simp append_assoc refl),
      λ e.
          rw
            (drop_of_length-le (length value) z3 (
              omega (
                arith,
                length-drop (length a) fresh,
                length-drop (length key) z1,
                length-drop (length t) z2,
              )))
            (append-nil value),
    )

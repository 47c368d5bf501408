-- ===== src/Keys/Layout.antt =====
-- What the accessors read from keys that the constructors build.
use lsmkv.Base.{
  ℕ, ◌+◌, ◌-◌, ◌*◌, ◌%◌, ◌^◌, ◌<◌, ◌≡◌, refl, ap, ◌∙◌, arith, List, ◌++◌, append_assoc, length,
  drop, some, length-append, length-replicate, take-append, drop-append, take_of_length-le,
}
use lsmkv.Base.Bits.{bit_or-even}
use lsmkv.Coding.{decode_fixed64, encode_fixed32, encode_fixed64}
use lsmkv.Coding.RoundTrip.{length-encode_fixed, decode_fixed-encode_fixed_self, store_at_three}
use lsmkv.Keys.{
  ValueType, deletion, value, type_code, type_of_code, extract_user_key, extract_tag,
  extract_value_type, extract_sequence_number, make_tag, query_key, query_sequence, query_user_key,
  query_mem_key, query_internal_key,
}

-- An internal key with a given tag.
abbrev pub with_tag : List ℕ → ℕ → List ℕ
with_tag key tag = key ++ encode_fixed64 tag

pub length-with_tag : (key : List ℕ) (tag : ℕ) → length (with_tag key tag) ≡ length key + 8
length-with_tag key tag =
    length-append key (encode_fixed64 tag) ∙ ap (λ n. length key + n) (length-encode_fixed 8 tag)

minus_tag : (key : List ℕ) (tag : ℕ) → length (with_tag key tag) - 8 ≡ length key
minus_tag key tag = omega (arith, length-with_tag key tag)

pub extract_user_key-with_tag : (key : List ℕ) (tag : ℕ) → extract_user_key (with_tag key tag) ≡ key
unfolding extract_user_key
extract_user_key-with_tag key tag = take-append _ key (encode_fixed64 tag) (minus_tag key tag)

pub extract_tag-with_tag :
    (key : List ℕ) (tag : ℕ) → tag < 2 ^ 64 → extract_tag (with_tag key tag) ≡ tag
extract_tag-with_tag key tag h =
    ap decode_fixed64 (drop-append _ key (encode_fixed64 tag) (minus_tag key tag))
    ∙ decode_fixed-encode_fixed_self 8 tag h

pub type_code-lt : (t : ValueType) → type_code t < 2
type_code-lt deletion = omega arith
type_code-lt value = omega arith

pub make_tag_lem :
    (seq : ℕ) (t : ValueType) → seq < 2 ^ 56 → make_tag seq t ≡ seq * 256 + type_code t
unfolding make_tag
make_tag_lem seq t h =
    bit_or-even (seq * 256 % 2 ^ 64) (type_code t) (omega arith) (type_code-lt t) ∙ omega arith

pub type_of_code-type_code : (t : ValueType) → type_of_code (type_code t) ≡ some t
type_of_code-type_code deletion = refl
type_of_code-type_code value = refl

pub type_of_tag : (seq : ℕ) (t : ValueType) → (seq * 256 + type_code t) % 256 ≡ type_code t
type_of_tag seq t = omega (arith, type_code-lt t)

-- The tag that a write stores for a number below 2 ^ 56 gives the number and its type back, and the
-- user key in front of it too.
pub extract-with_tag :
    (key : List ℕ) (seq : ℕ) (t : ValueType)
    → seq < 2 ^ 56
    → (extract_user_key (with_tag key (make_tag seq t)) ≡ key)
      × (extract_sequence_number (with_tag key (make_tag seq t)) ≡ seq)
      × (extract_value_type (with_tag key (make_tag seq t)) ≡ some t)
unfolding extract_sequence_number extract_value_type
extract-with_tag key seq t h = rw (make_tag_lem seq t h) (
  extract_user_key-with_tag key _,
  rw (extract_tag-with_tag key (seq * 256 + type_code t) (omega (arith, type_code-lt t)))
      (omega (arith, type_code-lt t)),
  rw
      (
        extract_tag-with_tag key (seq * 256 + type_code t) (omega (arith, type_code-lt t)),
        type_of_tag seq t,
      )
      (type_of_code-type_code t),
)

module _ (seq : ℕ) (key : List ℕ) (short : length key + 12 < 2 ^ 32) where
  -- The three writes of the constructor lay the parts of the key side by side.
  query_key_rep :
      (query_key seq key).rep
      ≡ encode_fixed32 (length key + 8) ++ key ++ encode_fixed64 (seq * 256 % 2 ^ 64)
  unfolding query_key
  query_key_rep =
      store_at_three 4 (4 + length key) (encode_fixed32 (length key + 8)) key
        (encode_fixed64 (seq * 256 % 2 ^ 64)) _
        (omega (arith, length-encode_fixed 4 (length key + 8))) refl
        (omega (
          arith,
          length-replicate ((length key + 12) % 2 ^ 32) (let z : ℕ = 0 in z),
          length-encode_fixed 8 (seq * 256 % 2 ^ 64),
        ))

  query_key_len : (query_key seq key).len ≡ length key + 12
  unfolding query_key
  query_key_len = omega arith

  abbrev head : List ℕ
  head = encode_fixed32 (length key + 8)

  abbrev tag : List ℕ
  tag = encode_fixed64 (seq * 256 % 2 ^ 64)

  length-head : 4 ≡ length head
  length-head = omega (arith, length-encode_fixed 4 (length key + 8))

  drop-head : (r : List ℕ) → drop 4 (head ++ r) ≡ r
  drop-head r = drop-append 4 head r length-head

  drop_to_tag : drop (length key + 12 - 8) (head ++ (key ++ tag)) ≡ tag
  drop_to_tag =
      rw (← append_assoc)
        (drop-append _ (head ++ key) tag (omega (arith, length-append head key, length-head)))

  -- A query key of a key that fits the length field holds its user key, and its internal key is that key under the shifted number.
  pub query_key_lem :
      (query_user_key (query_key seq key) ≡ key)
      × (query_internal_key (query_key seq key) ≡ with_tag key (seq * 256 % 2 ^ 64))
      × (query_mem_key (query_key seq key)
          ≡ encode_fixed32 (length key + 8) ++ with_tag key (seq * 256 % 2 ^ 64))
      × (query_sequence (query_key seq key) ≡ seq % 2 ^ 56)
  unfolding query_user_key query_internal_key query_mem_key query_sequence
  query_key_lem =
      rw (query_key_rep, query_key_len, append_assoc)
        (
          rw drop-head (take-append _ key tag (omega arith)),
          rw drop-head
              (take_of_length-le _ (key ++ tag) (omega (arith, length-with_tag key tag_number))),
          take_of_length-le _ (head ++ (key ++ tag)) (
              omega (
                arith,
                length-append head (key ++ tag),
                length-with_tag key tag_number,
                length-head,
              )),
          rw (drop_to_tag, decode_fixed-encode_fixed_self 8 tag_number (omega arith)) (omega arith),
        )
    where
      tag_number : ℕ
      tag_number = seq * 256 % 2 ^ 64

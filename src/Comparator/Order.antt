-- ===== src/Comparator/Order.antt =====
-- The comparators are total orders, and on internal keys they read the parts of the key.
use lsmkv.Base.{
  ℕ, ◌^◌, ◌<◌, compare, Ordering, List, [], ◌∷◌, ◌≡◌, refl, ap, ◌∙◌, ◌↔◌, arith, take, drop-append,
  take_of_length-le,
}
use lsmkv.Coding.{encode_fixed64}
use lsmkv.Coding.RoundTrip.{length-encode_fixed, decode_fixed-encode_fixed_self}
use lsmkv.Keys.Layout.{with_tag, length-with_tag, extract_user_key-with_tag}
use lsmkv.Comparator.{negate, or_else, compare_str, compare_num, extract_seq_num, compare_internal}

pub compare_str_self : (a : List ℕ) → compare_str a a ≡ Ordering.eq
unfolding compare_str
compare_str_self [] = refl
compare_str_self (x ∷ xs) = ground (arith, compare_str_self xs)

-- Two strings compare as equal exactly when they are equal.
eq_of_compare_str : (a b : List ℕ) → compare_str a b ≡ Ordering.eq → a ≡ b
unfolding compare_str
eq_of_compare_str [] [] h = refl
eq_of_compare_str [] (y ∷ ys) h = cc
eq_of_compare_str (x ∷ xs) [] h = cc
eq_of_compare_str (x ∷ xs) (y ∷ ys) h = ground (arith, eq_of_compare_str xs ys)

pub compare_str_eq_iff : (a b : List ℕ) → (compare_str a b ≡ Ordering.eq) ↔ (a ≡ b)
compare_str_eq_iff a b = (eq_of_compare_str a b, λ e. rw e (compare_str_self b))

-- Swapping the arguments negates the result.
pub compare_str_swap : (a b : List ℕ) → compare_str b a ≡ negate (compare_str a b)
unfolding compare_str
compare_str_swap [] [] = refl
compare_str_swap [] (y ∷ ys) = refl
compare_str_swap (x ∷ xs) [] = refl
compare_str_swap (x ∷ xs) (y ∷ ys) = ground (arith, compare_str_swap xs ys)

pub compare_str_trans :
    (a b c : List ℕ)
    → compare_str a b ≡ Ordering.lt
    → compare_str b c ≡ Ordering.lt
    → compare_str a c ≡ Ordering.lt
unfolding compare_str
compare_str_trans [] [] c p q = cc
compare_str_trans [] (y ∷ ys) [] p q = cc
compare_str_trans [] (y ∷ ys) (z ∷ zs) p q = refl
compare_str_trans (x ∷ xs) [] c p q = cc
compare_str_trans (x ∷ xs) (y ∷ ys) [] p q = cc
compare_str_trans (x ∷ xs) (y ∷ ys) (z ∷ zs) p q = ground (arith, compare_str_trans xs ys zs)

-- What `compare_internal` decides by: the user keys, then the tags in descending order.
unfoldable pub compare_parts : List ℕ → ℕ → List ℕ → ℕ → Ordering
compare_parts a s b t = or_else (compare_str a b) (negate (compare s t))

extract_seq_num-with_tag :
    (key : List ℕ) (tag : ℕ) → extract_seq_num (with_tag key tag) ≡ encode_fixed64 tag
unfolding extract_seq_num
extract_seq_num-with_tag key tag =
    ap (take 8) (drop-append _ key (encode_fixed64 tag) (omega (arith, length-with_tag key tag)))
    ∙ take_of_length-le 8 (encode_fixed64 tag) (omega (arith, length-encode_fixed 8 tag))

-- On keys with a tag of 64 bits the internal order compares the parts.
pub compare_internal-with_tag :
    (a b : List ℕ) (s t : ℕ)
    → s < 2 ^ 64
    → t < 2 ^ 64
    → compare_internal (with_tag a s) (with_tag b t) ≡ compare_parts a s b t
unfolding compare_internal compare_parts compare_num
compare_internal-with_tag a b s t hs ht =
    rw
      (
        extract_user_key-with_tag a s,
        extract_user_key-with_tag b t,
        extract_seq_num-with_tag a s,
        extract_seq_num-with_tag b t,
        decode_fixed-encode_fixed_self 8 s hs,
        decode_fixed-encode_fixed_self 8 t ht,
      )
      refl

pub compare_parts_swap :
    (a b : List ℕ) (s t : ℕ) → compare_parts b t a s ≡ negate (compare_parts a s b t)
unfolding compare_parts
compare_parts_swap a b s t = ground (arith, compare_str_swap a b)

pub compare_parts_trans :
    (a b c : List ℕ) (s t u : ℕ)
    → compare_parts a s b t ≡ Ordering.lt
    → compare_parts b t c u ≡ Ordering.lt
    → compare_parts a s c u ≡ Ordering.lt
unfolding compare_parts
compare_parts_trans a b c s t u p q = ground (
  arith,
  compare_str_trans a b c,
  eq_of_compare_str a b,
  eq_of_compare_str b c,
  compare_str_self a,
)

pub eq_of_compare_parts :
    (a b : List ℕ) (s t : ℕ) → compare_parts a s b t ≡ Ordering.eq → (a ≡ b) × (s ≡ t)
unfolding compare_parts
eq_of_compare_parts a b s t h = ground (arith, eq_of_compare_str a b)

module _ (a b : List ℕ) (s t : ℕ) (hs : s < 2 ^ 64) (ht : t < 2 ^ 64) where
  -- Internal keys with tags of 64 bits compare as equal exactly when user key and tag agree, the swapped comparison is
  -- the negated one, and the versions of one user key stand newest first.
  pub compare_internal_order :
      (compare_internal (with_tag b t) (with_tag a s)
        ≡ negate (compare_internal (with_tag a s) (with_tag b t)))
      × ((compare_internal (with_tag a s) (with_tag b t) ≡ Ordering.eq) ↔ ((a ≡ b) × (s ≡ t)))
      × (a ≡ b → t < s → compare_internal (with_tag a s) (with_tag b t) ≡ Ordering.lt)
  compare_internal_order =
      rw (compare_internal-with_tag a b s t hs ht, compare_internal-with_tag b a t s ht hs)
        (
          compare_parts_swap a b s t,
          (
            eq_of_compare_parts a b s t,
            λ e. unfold compare_parts in ground (arith, compare_str_self a),
          ),
          λ e l. unfold compare_parts in ground (arith, compare_str_self a),
        )

-- On keys with tags of 64 bits the internal order is transitive.
pub compare_internal_trans :
    (a b c : List ℕ) (s t u : ℕ)
    → s < 2 ^ 64
    → t < 2 ^ 64
    → u < 2 ^ 64
    → compare_internal (with_tag a s) (with_tag b t) ≡ Ordering.lt
    → compare_internal (with_tag b t) (with_tag c u) ≡ Ordering.lt
    → compare_internal (with_tag a s) (with_tag c u) ≡ Ordering.lt
compare_internal_trans a b c s t u hs ht hu p q = rw (compare_internal-with_tag a c s u hs hu) (
    compare_parts_trans a b c s t u (rw (compare_internal-with_tag a b s t hs ht) at p)
      (rw (compare_internal-with_tag b c t u ht hu) at q))

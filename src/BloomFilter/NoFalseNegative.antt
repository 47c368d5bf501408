-- ===== src/BloomFilter/NoFalseNegative.antt =====
-- A key that went into the filter is never refused.
use Prim.Native.Nat.{bit_or}
use native.Mathlib.Decide.{dec_lt, ℕ_discrete}
use native.Mathlib.Nat.{mod-lt}
use lsmkv.Base.{
  ℕ, zero, suc, ◌*◌, ◌/◌, ◌%◌, ◌^◌, ◌≤◌, ◌<◌, ◌≡◌, refl, sym, ◌∙◌, arith, List, [], ◌∷◌, true, not,
  length, get_or, set, ◌==◌, All, All-map, length-set, get_or-set_self, get_or-set_ne,
}
use lsmkv.Base.Bits.{bit_or_sets, bit_or_keeps}
use lsmkv.BloomFilter.{
  set_bit, has_bit, add_hashes, add_keys, create_filter, all_bits, key_may_match,
}

set_of_length-le : (xs : List ℕ) (i v : ℕ) → length xs ≤ i → set xs i v ≡ xs
set_of_length-le [] i v h = refl
set_of_length-le (x ∷ xs) zero v h = absurd (omega arith)
set_of_length-le (x ∷ xs) (suc i) v h =
    let rest = set_of_length-le xs i v (omega arith) in λ t. x ∷ rest t

nonzero-test : (n : ℕ) → 0 < n → not (n == 0) ≡ true
nonzero-test n h = ground arith

test-nonzero : (n : ℕ) → not (n == 0) ≡ true → 0 < n
test-nonzero n h = ground arith

length-set_bit : (array : List ℕ) (pos : ℕ) → length (set_bit array pos) ≡ length array
unfolding set_bit
length-set_bit array pos = length-set array (pos / 8) _

has_bit-set_bit :
    (array : List ℕ) (pos : ℕ) → pos / 8 < length array → has_bit (set_bit array pos) pos ≡ true
unfolding set_bit has_bit
has_bit-set_bit array pos h =
    rw (get_or-set_self array (pos / 8) (bit_or (get_or array (pos / 8) 0) (2 ^ (pos % 8))) 0 h)
      (nonzero-test _ (bit_or_sets (pos % 8) (get_or array (pos / 8) 0)))

set_bit-keeps :
    (array : List ℕ) (pos old : ℕ)
    → has_bit array old ≡ true
    → has_bit (set_bit array pos) old ≡ true
unfolding set_bit has_bit
set_bit-keeps array pos old h =
    let byte = bit_or (get_or array (pos / 8) 0) (2 ^ (pos % 8)) in
    elim (ℕ_discrete (pos / 8) (old / 8)) [
      | no apart ↦ rw (get_or-set_ne array (pos / 8) (old / 8) byte 0 apart) h
      | yes same ↦ elim (dec_lt (pos / 8) (length array)) [
        | no out ↦ rw (set_of_length-le array (pos / 8) byte (omega arith)) h
        | yes inside ↦
            rw (sym same, get_or-set_self array (pos / 8) byte 0 inside)
              (nonzero-test _ (
                bit_or_keeps (old % 8) (pos % 8) (get_or array (pos / 8) 0)
                  (rw (sym same) at (test-nonzero _ h))))
      ]
    ]

module _ (size : ℕ) where
  length-add_hashes : (hash array : List ℕ) → length (add_hashes size hash array) ≡ length array
  unfolding add_hashes
  length-add_hashes [] array = refl
  length-add_hashes (h ∷ hash) array =
      length-add_hashes hash (set_bit array (h % size)) ∙ length-set_bit array (h % size)

  add_hashes-keeps :
      (hash array : List ℕ) (old : ℕ)
      → has_bit array old ≡ true
      → has_bit (add_hashes size hash array) old ≡ true
  unfolding add_hashes
  add_hashes-keeps [] array old h = h
  add_hashes-keeps (first ∷ hash) array old h =
      add_hashes-keeps hash (set_bit array (first % size)) old
        (set_bit-keeps array (first % size) old h)

  add_hashes-all_bits :
      (hash array : List ℕ)
      → size ≡ length array * 8
      → 0 < size
      → all_bits size hash (add_hashes size hash array) ≡ true
  unfolding add_hashes all_bits
  add_hashes-all_bits [] array e pos = refl
  add_hashes-all_bits (first ∷ hash) array e pos =
      let bounded : first % size < size = mod-lt first pos in
      let here : has_bit (set_bit array (first % size)) (first % size) ≡ true =
        has_bit-set_bit array (first % size) (omega arith) in
      let later =
        add_hashes-all_bits hash (set_bit array (first % size))
          (rw (length-set_bit array (first % size)) e) pos in
      rw (add_hashes-keeps hash (set_bit array (first % size)) (first % size) here) later

  all_bits-add_hashes :
      (asked hash array : List ℕ)
      → all_bits size asked array ≡ true
      → all_bits size asked (add_hashes size hash array) ≡ true
  unfolding all_bits
  all_bits-add_hashes [] hash array h = refl
  all_bits-add_hashes (first ∷ asked) hash array h =
      ground
        (arith, add_hashes-keeps hash array (first % size), all_bits-add_hashes asked hash array)

module _ (murmur_hash : List ℕ → List ℕ) where
  length-add_keys :
      (size : ℕ) (keys : List (List ℕ)) (array : List ℕ)
      → length (add_keys murmur_hash size keys array) ≡ length array
  unfolding add_keys
  length-add_keys size [] array = refl
  length-add_keys size (key ∷ keys) array =
      length-add_keys size keys (add_hashes size (murmur_hash key) array)
      ∙ length-add_hashes size (murmur_hash key) array

  pub length-create_filter :
      (keys : List (List ℕ)) (dst : List ℕ)
      → length (create_filter murmur_hash keys dst) ≡ length dst
  unfolding create_filter
  length-create_filter keys dst = length-add_keys (length dst * 8) keys dst

  all_bits-add_keys :
      (size : ℕ) (asked : List ℕ) (keys : List (List ℕ)) (array : List ℕ)
      → all_bits size asked array ≡ true
      → all_bits size asked (add_keys murmur_hash size keys array) ≡ true
  unfolding add_keys
  all_bits-add_keys size asked [] array h = h
  all_bits-add_keys size asked (key ∷ keys) array h =
      all_bits-add_keys size asked keys (add_hashes size (murmur_hash key) array)
        (all_bits-add_hashes size asked (murmur_hash key) array h)

  add_keys-all_bits :
      (size : ℕ) (keys : List (List ℕ)) (array : List ℕ)
      → size ≡ length array * 8
      → 0 < size
      → All
          (λ key. all_bits size (murmur_hash key) (add_keys murmur_hash size keys array) ≡ true)
          keys
  unfolding add_keys
  add_keys-all_bits size [] array e pos = tt
  add_keys-all_bits size (key ∷ keys) array e pos =
      let hash = murmur_hash key in
      (
        all_bits-add_keys size hash keys (add_hashes size hash array)
            (add_hashes-all_bits size hash array e pos),
        add_keys-all_bits size keys (add_hashes size hash array)
            (rw (length-add_hashes size hash array) e) pos,
      )

  pub create_filter-keeps :
      (keys : List (List ℕ)) (dst key : List ℕ)
      → key_may_match murmur_hash key dst ≡ true
      → key_may_match murmur_hash key (create_filter murmur_hash keys dst) ≡ true
  unfolding create_filter key_may_match
  create_filter-keeps keys dst key h =
      rw (length-add_keys (length dst * 8) keys dst)
        (ground (arith, all_bits-add_keys (length dst * 8) (murmur_hash key) keys dst))

  -- Every key that goes into a filter of at least two bytes may match in it afterwards, whatever the
  -- hash function and whatever bits were set before.
  pub create_filter_lem :
      (keys : List (List ℕ)) (dst : List ℕ)
      → 2 ≤ length dst
      → All (λ key. key_may_match murmur_hash key (create_filter murmur_hash keys dst) ≡ true) keys
  unfolding create_filter key_may_match
  create_filter_lem keys dst enough = rw (length-add_keys (length dst * 8) keys dst) (
      All-map (λ key h. ground arith) keys
        (add_keys-all_bits (length dst * 8) keys dst refl (omega arith)))

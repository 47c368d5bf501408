-- ===== src/BloomFilter/Collect.antt =====
-- The keys that are handed to the filter's builder, between any flushes, are all in the filter.
use mathlib.Core.Path.{ap₂}
use lsmkv.Base.{
  ℕ, zero, suc, ◌+◌, ◌%◌, ◌^◌, ◌≤◌, ◌<◌, ◌≡◌, refl, sym, ap, ◌∙◌, arith, List, [], ◌∷◌, ◌++◌, map,
  true, length, take, drop, take_of_length-le, All, All-map, All-append, length-append, append-nil,
  append_assoc, drop_all-append, length-replicate,
}
use lsmkv.BloomFilter.{
  FilterBlockBuilder, new_filter_block, add_key, slice_of, flush_filter, finish_filter,
  key_may_match,
}
use lsmkv.BloomFilter.NoFalseNegative.{create_filter_lem, create_filter-keeps, length-create_filter}

-- A call on the builder, as the table's builder makes them.
pub data FilterCall : Type 0 where
  hand_key : List ℕ → FilterCall
  flush_keys : FilterCall

abbrev pub keys_of : List FilterCall → List (List ℕ)
keys_of [] = []
keys_of (hand_key key ∷ calls) = key ∷ keys_of calls
keys_of (flush_keys ∷ calls) = keys_of calls

abbrev pub bytes_of : List (List ℕ) → ℕ
bytes_of [] = 0
bytes_of (key ∷ keys) = length key + bytes_of keys

abbrev pub after_calls :
    (List ℕ → List ℕ) → List FilterCall → FilterBlockBuilder → FilterBlockBuilder
after_calls murmur_hash [] f = f
after_calls murmur_hash (hand_key key ∷ calls) f = after_calls murmur_hash calls (add_key f key)
after_calls murmur_hash (flush_keys ∷ calls) f =
    after_calls murmur_hash calls (flush_filter murmur_hash f)

take-drop-append :
    (n m : ℕ) (xs ys : List ℕ) → n + m ≤ length xs → take m (drop n (xs ++ ys)) ≡ take m (drop n xs)
take-drop-append zero zero xs ys h = refl
take-drop-append zero (suc m) [] ys h = absurd (omega arith)
take-drop-append zero (suc m) (x ∷ xs) ys h =
    let rest = take-drop-append zero m xs ys (omega arith) in λ i. x ∷ rest i
take-drop-append (suc n) m [] ys h = absurd (omega arith)
take-drop-append (suc n) m (x ∷ xs) ys h = take-drop-append n m xs ys (omega arith)

-- The slices lie within the bytes.
abbrev IsInside : List ℕ → ℕ × ℕ → Type 0
IsInside key_buf p = p.0 + p.1 ≤ length key_buf

slices-append :
    (key_buf key : List ℕ) (keys : List (ℕ × ℕ))
    → All (IsInside key_buf) keys
    → map (slice_of (key_buf ++ key)) keys ≡ map (slice_of key_buf) keys
slices-append key_buf key [] h = refl
slices-append key_buf key ((offset, size) ∷ keys) h =
    ap₂ ◌∷◌ (take-drop-append offset size key_buf key h.0) (slices-append key_buf key keys h.1)

map-append : (f : ℕ × ℕ → List ℕ) (xs ys : List (ℕ × ℕ)) → map f (xs ++ ys) ≡ map f xs ++ map f ys
map-append f [] ys = refl
map-append f (x ∷ xs) ys = ap (◌∷◌ (f x)) (map-append f xs ys)

new-slice :
    (key_buf key : List ℕ)
    → length key_buf + length key < 2 ^ 32
    → slice_of (key_buf ++ key) (length key_buf % 2 ^ 32, length key % 2 ^ 32) ≡ key
new-slice key_buf key h =
    let at : length key_buf % 2 ^ 32 ≡ length key_buf = omega arith in
    let size : length key % 2 ^ 32 ≡ length key = omega arith in
    rw (at, size, drop_all-append key_buf key) (take_of_length-le (length key) key (omega arith))

bytes-append : (xs ys : List (List ℕ)) → bytes_of (xs ++ ys) ≡ bytes_of xs + bytes_of ys
bytes-append [] ys = omega arith
bytes-append (x ∷ xs) ys = omega (arith, bytes-append xs ys)

module _ (murmur_hash : List ℕ → List ℕ) where
  -- The keys of `done` are in the filter, and those of `pending` wait among the bytes.
  record IsCollected (done pending : List (List ℕ)) (f : FilterBlockBuilder) : Type 0 where
    long : 2 ≤ length f.buffer
    matched : All (λ key. key_may_match murmur_hash key f.buffer ≡ true) done
    inside : All (IsInside f.key_buf) f.keys
    waiting : map (slice_of f.key_buf) f.keys ≡ pending
    sized : length f.key_buf ≡ bytes_of pending

  add_key-IsCollected :
      (done pending : List (List ℕ)) (f : FilterBlockBuilder) (key : List ℕ)
      → IsCollected done pending f
      → bytes_of pending + length key < 2 ^ 32
      → IsCollected done (pending ++ key ∷ []) (add_key f key)
  unfolding add_key
  add_key-IsCollected done pending f key c h = record {
    long = c.long;
    matched = c.matched;
    inside =
        All-append (IsInside (f.key_buf ++ key)) f.keys _
          (All-map (λ p h. omega (arith, length-append f.key_buf key)) f.keys c.inside)
          (omega (arith, length-append f.key_buf key), tt);
    waiting =
        map-append (slice_of (f.key_buf ++ key)) f.keys _
        ∙ ap₂ ◌++◌ (slices-append f.key_buf key f.keys c.inside ∙ c.waiting)
            (ap (λ k. k ∷ []) (new-slice f.key_buf key (omega (arith, c.sized))));
    sized = omega (arith, length-append f.key_buf key, bytes-append pending (key ∷ []), c.sized);
  }

  flush-IsCollected :
      (done pending : List (List ℕ)) (key_buf : List ℕ) (keys : List (ℕ × ℕ)) (buffer : List ℕ)
      → IsCollected done pending (record { key_buf = key_buf; keys = keys; buffer = buffer })
      → IsCollected
          (done ++ pending)
          []
          (flush_filter murmur_hash (record { key_buf = key_buf; keys = keys; buffer = buffer }))
  unfolding flush_filter
  flush-IsCollected done pending key_buf [] buffer c =
      rw (sym c.waiting, append-nil)
        (record {
          long = c.long;
          matched = c.matched;
          inside = tt;
          waiting = refl;
          sized = rw (sym c.waiting) at c.sized;
        })
  flush-IsCollected done pending key_buf (first ∷ rest) buffer c = record {
    long = omega (arith, length-create_filter murmur_hash _ buffer, c.long);
    matched =
        All-append _ done pending
          (All-map (λ key h. create_filter-keeps murmur_hash _ buffer key h) done c.matched)
          (rw (sym c.waiting)
            (create_filter_lem murmur_hash (map (slice_of key_buf) (first ∷ rest)) buffer c.long));
    inside = tt;
    waiting = refl;
    sized = refl;
  }

  calls-IsCollected :
      (calls : List FilterCall) (done pending : List (List ℕ)) (f : FilterBlockBuilder)
      → IsCollected done pending f
      → bytes_of pending + bytes_of (keys_of calls) < 2 ^ 32
      → (left : List (List ℕ)) × (past : List (List ℕ)) × (past ++ left
          ≡ (done ++ pending) ++ keys_of calls)
        × IsCollected past left (after_calls murmur_hash calls f)
  calls-IsCollected [] done pending f c h = (pending, done, simp append-nil, c)
  calls-IsCollected (hand_key key ∷ calls) done pending f c h =
      let (left, past, e, last) =
        calls-IsCollected calls done (pending ++ key ∷ []) (add_key f key)
          (add_key-IsCollected done pending f key c (omega arith))
          (omega (arith, bytes-append pending (key ∷ []))) in
      (left, past, simp (e, append_assoc), last)
  calls-IsCollected (flush_keys ∷ calls) done pending f c h =
      let (left, past, e, last) =
        calls-IsCollected calls (done ++ pending) [] (flush_filter murmur_hash f)
          (flush-IsCollected done pending f.key_buf f.keys f.buffer c) (omega arith) in
      (left, past, simp (e, append-nil), last)

  -- A new builder of a filter of two bytes or more is handed keys of less than 2³² bytes in all, with
  -- flushes at any places between. Every key then may match in the bytes that `Finish` gives.
  pub finish_filter_lem :
      (size : ℕ) (calls : List FilterCall)
      → 2 ≤ size
      → bytes_of (keys_of calls) < 2 ^ 32
      → All
          (λ key.
            key_may_match murmur_hash key
              (finish_filter murmur_hash (after_calls murmur_hash calls (new_filter_block size))).1
            ≡ true)
          (keys_of calls)
  unfolding finish_filter new_filter_block
  finish_filter_lem size calls enough small =
      let start : IsCollected [] [] (new_filter_block size) = record {
        long = omega (arith, length-replicate {A = ℕ} size 0);
        matched = tt;
        inside = tt;
        waiting = refl;
        sized = refl;
      } in
      let (left, past, e, c) =
        calls-IsCollected calls [] [] (new_filter_block size) start (omega arith) in
      let f = after_calls murmur_hash calls (new_filter_block size) in
      let flushed = flush-IsCollected past left f.key_buf f.keys f.buffer c in
      rw (sym e) flushed.matched

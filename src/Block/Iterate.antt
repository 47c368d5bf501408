-- ===== src/Block/Iterate.antt =====
-- Walking over a block that the builder made, and seeking in it.
use lsmkv.Base.{
  ℕ, zero, suc, ◌+◌, ◌%◌, ◌^◌, ◌≤◌, ◌<◌, ◌≡◌, refl, ap, ◌∙◌, arith, List, [], ◌∷◌, ◌++◌,
  append_assoc, append-nil, Bool, true, false, Option, none, some, length, drop, All, if◌then◌else◌,
  length-append, take_all-append, drop_all-append, drop-add, ◌⊎◌, inl, inr, Bool-cases,
}
use mathlib.Core.Option
use native.Mathlib.Numerals.{add-one}
use lsmkv.Comparator.{Comparator}
use lsmkv.Block.{
  BlockIterator, at, exhausted, parsed, parser_block, scan_entries, valid, seek_to_first,
  open_block, at_or_after, seek, next, key, value, set_invalid,
}
use lsmkv.Block.Entries.{
  Entry, Fits, block_entry, encode_block, first_at, length-block_entry, block_entry_sizes,
  block_entry_parts, parser_block-block_entry, scan_entries-encode_block,
}

-- An iterator over `p ++ q` that stands where `q` begins.
abbrev pub standing : Comparator → List ℕ → List ℕ → BlockIterator
standing cmp p q = record {
  cur = length p;
  end = length (p ++ q);
  userkey_cmp = cmp;
  block_buffer = p ++ q;
}

next-parsed :
    (it : BlockIterator) (entry rest : List ℕ)
    → parser_block (drop it.cur it.block_buffer) ≡ parsed entry rest
    → next it ≡ some (record it { cur = (it.cur + length entry) % 2 ^ 32 })
unfolding next
next-parsed it entry rest p = rw (p, next)

module _ (cmp : Comparator) (p : List ℕ) (e : Entry) (es : List Entry) (fits : Fits e) where
  -- Standing at an entry, the iterator gives its key and its value.
  pub standing_entry :
      (key (standing cmp p (encode_block (e ∷ es))) ≡ e.key)
      × (value (standing cmp p (encode_block (e ∷ es))) ≡ e.value)
  unfolding key value
  standing_entry =
      let (hk, hv) = block_entry_sizes e (encode_block es) fits in
      let (d, t) = block_entry_parts e (encode_block es) in
      rw (drop_all-append, hk)
        (
          rw (drop-add (length p) 8, drop_all-append) t,
          rw
              (
                drop-add (length p + 8) (length e.key),
                drop-add (length p) 8,
                drop-add (length p) 4,
                drop_all-append,
                d,
                drop_all-append,
                hv,
              )
              (take_all-append e.value (encode_block es)),
        )

  -- `next` moves to the next entry, in a block whose size fits an offset.
  pub next-standing :
      length (p ++ encode_block (e ∷ es)) < 2 ^ 32
      → (valid (standing cmp p (encode_block (e ∷ es))) ≡ true)
        × (next (standing cmp p (encode_block (e ∷ es)))
            ≡ some (standing cmp (p ++ block_entry e) (encode_block es)))
  unfolding valid
  next-standing small =
      let l = length-append p (encode_block (e ∷ es)) in
      let m = length-append (block_entry e) (encode_block es) in
      let n = length-append p (block_entry e) in
      let k = length-block_entry e in
      let c : (length p + length (block_entry e)) % 2 ^ 32 ≡ length (p ++ block_entry e) =
        omega arith in
      let parse = parser_block-block_entry e (encode_block es) fits in
      (
        ground arith,
        next-parsed (standing cmp p (encode_block (e ∷ es))) (block_entry e) (encode_block es)
              (rw drop_all-append parse)
            ∙ ap some (rw (c, append_assoc)),
      )

-- The loop of the iterator's clients, `for (; it.valid(); it.next())`, over what it gives. The
-- fuel bounds the rounds; `none` is out of fuel or a read out of range.
unfoldable pub read_all : ℕ → BlockIterator → Option (List Entry)
read_all zero it = none
read_all (suc fuel) it = elim (valid it) [
  | false ↦ some []
  | true ↦ elim (next it) [
    | none ↦ none
    | some it' ↦
        Option.map (λ es. record { key = key it; value = value it } ∷ es) (read_all fuel it')
  ]
]

read_all-valid :
    (fuel : ℕ) (it it' : BlockIterator)
    → valid it ≡ true
    → next it ≡ some it'
    → read_all (suc fuel) it
      ≡ Option.map (λ es. record { key = key it; value = value it } ∷ es) (read_all fuel it')
unfolding read_all
read_all-valid fuel it it' v n = rw (v, n, read_all)

read_all-standing :
    (cmp : Comparator) (p : List ℕ) (es : List Entry) (fuel : ℕ)
    → All Fits es
    → length (p ++ encode_block es) < 2 ^ 32
    → length es < fuel
    → read_all fuel (standing cmp p (encode_block es)) ≡ some es
unfolding read_all
read_all-standing cmp p es zero h small l = absurd (omega arith)
read_all-standing cmp p [] (suc fuel) h small l =
    let v : valid (standing cmp p []) ≡ false = unfold valid in rw append-nil (ground arith) in
    rw (v, read_all)
read_all-standing cmp p (e ∷ es) (suc fuel) h small l =
    let (v, n) = next-standing cmp p e es h.0 small in
    let (k, w) = standing_entry cmp p e es h.0 in
    rw (
      read_all-valid fuel _ _ v n,
      read_all-standing cmp (p ++ block_entry e) es fuel h.1 (rw append_assoc small) (omega arith),
      k,
      w,
    )

-- Walking over a block of fewer than 2 ^ 32 bytes that the builder made, of entries whose sizes fit
-- 32 bits, gives its entries back, in their order.
pub read_all-open_block :
    (cmp : Comparator) (es : List Entry)
    → All Fits es
    → length (encode_block es) < 2 ^ 32
    → read_all (length es + 1) (open_block (encode_block es) cmp) ≡ some es
unfolding open_block seek_to_first
read_all-open_block cmp es h small =
    let m : length (encode_block es) % 2 ^ 32 ≡ length (encode_block es) = omega arith in
    rw m (read_all-standing cmp [] es _ h small (omega arith))

-- The entries from the first whose key passes the test.
unfoldable pub drop_until : (List ℕ → Bool) → List Entry → List Entry
drop_until test [] = []
drop_until test (e ∷ es) = let rest = drop_until test es in if test e.key then e ∷ es else rest

-- What the loop of a seek finds splits the block in front of those entries.
first_at-drop_until :
    (test : List ℕ → Bool) (p : List ℕ) (es : List Entry)
    → ((first_at test (length p) es ≡ exhausted) × (drop_until test es ≡ []))
      ⊎ ((q : List ℕ) × (first_at test (length p) es ≡ at (length q))
          × (p ++ encode_block es ≡ q ++ encode_block (drop_until test es))
          × (length (drop_until test es) ≤ length es))
unfolding first_at drop_until
first_at-drop_until test p [] = inl (refl, refl)
first_at-drop_until test p (e ∷ es) = elim (Bool-cases (test e.key)) [
  | inl y ↦ rw y (inr (p, refl, refl, omega arith))
  | inr n ↦
      rw n
        (elim (rw (length-append p (block_entry e), append_assoc) at
          (first_at-drop_until test (p ++ block_entry e) es)) [
            | inl none_left ↦ inl none_left
            | inr (q, a, b, l) ↦ inr (q, a, b, omega arith)
          ])
]

Fits-drop_until :
    (test : List ℕ → Bool) (es : List Entry) → All Fits es → All Fits (drop_until test es)
unfolding drop_until
Fits-drop_until test [] h = h
Fits-drop_until test (e ∷ es) h = elim (Bool-cases (test e.key)) [
  | inl y ↦ rw y h
  | inr n ↦ rw n (Fits-drop_until test es h.1)
]

module _ (it : BlockIterator) (target : List ℕ) where
  seek-at :
      (off : ℕ)
      → scan_entries (length it.block_buffer) (at_or_after it.userkey_cmp target) 0 it.block_buffer
        ≡ at off
      → seek it target
        ≡ some (record it { cur = off % 2 ^ 32; end = length it.block_buffer % 2 ^ 32 })
  unfolding seek
  seek-at off p = rw (p, seek)

  seek-exhausted :
      scan_entries (length it.block_buffer) (at_or_after it.userkey_cmp target) 0 it.block_buffer
        ≡ exhausted
      → seek it target ≡ some (set_invalid it)
  unfolding seek
  seek-exhausted p = rw (p, seek)

read_all-set_invalid :
    (fuel : ℕ) (it : BlockIterator) → read_all (suc fuel) (set_invalid it) ≡ some []
unfolding read_all set_invalid valid
read_all-set_invalid fuel it = refl

-- In a block of fewer than 2 ^ 32 bytes that the builder made, of entries whose sizes fit 32 bits, a
-- seek reads nothing out of range, and after it the iterator gives the entries from the first whose key
-- is at or after the target.
pub read_all-seek :
    (cmp : Comparator) (es : List Entry) (target : List ℕ)
    → All Fits es
    → length (encode_block es) < 2 ^ 32
    → (it : BlockIterator) × (seek (open_block (encode_block es) cmp) target ≡ some it)
      × (read_all (length es + 1) it ≡ some (drop_until (at_or_after cmp target) es))
unfolding open_block seek_to_first
read_all-seek cmp es target h small = elim (first_at-drop_until test [] es) [
  | inl (x, d) ↦ (
    set_invalid it,
    seek-exhausted it target (scan ∙ x),
    rw (d, add-one) (read_all-set_invalid (length es) it),
  )
  | inr (q, a, b, l) ↦
      let lq : length q ≤ length (encode_block es) =
        rw b (omega (arith, length-append q (encode_block (drop_until test es)))) in
      let m : length q % 2 ^ 32 ≡ length q = omega arith in
      let n : length (encode_block es) % 2 ^ 32 ≡ length (encode_block es) = omega arith in
      (
        standing cmp q (encode_block (drop_until test es)),
        seek-at it target (length q) (scan ∙ a) ∙ ap some (rw (m, n, b)),
        read_all-standing cmp q (drop_until test es) _ (Fits-drop_until test es h) (rw (← b) small)
            (omega arith),
      )
]
  where
    test : List ℕ → Bool
    test = at_or_after cmp target

    it : BlockIterator
    it = open_block (encode_block es) cmp

    scan : scan_entries (length (encode_block es)) test 0 (encode_block es) ≡ first_at test 0 es
    scan = scan_entries-encode_block test _ 0 es h (omega arith)

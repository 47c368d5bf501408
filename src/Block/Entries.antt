-- ===== src/Block/Entries.antt =====
-- Blocks that the builder makes, and what the parser reads from them.
use lsmkv.Base.{
  ℕ, zero, suc, ◌+◌, ◌^◌, ◌≤◌, ◌<◌, ◌≡◌, refl, ap, ◌∙◌, arith, List, [], ◌∷◌, ◌++◌, append_assoc,
  append-nil, Bool, length, take, drop, All, if◌then◌else◌, length-append, length-replicate,
  take_all-append, drop_all-append, drop-append,
}
use lsmkv.Coding.{decode_fixed32, encode_fixed32}
use lsmkv.Coding.RoundTrip.{length-encode_fixed, decode_fixed-encode_fixed, store_at_four}
use lsmkv.Block.{
  add, corruption, parsed, entry_size, parser_block, Scan, at, exhausted, scan_entries,
}

pub record Entry : Type 0 where
  pub key : List ℕ
  pub value : List ℕ

abbrev pub Fits : Entry → Type 0
Fits e = length e.key + length e.value + 8 < 2 ^ 32

abbrev pub header : Entry → List ℕ
header e = encode_fixed32 (length e.key) ++ encode_fixed32 (length e.value)

unfoldable pub block_entry : Entry → List ℕ
block_entry e = header e ++ e.key ++ e.value

-- The block that holds the entries in their order.
abbrev pub encode_block : List Entry → List ℕ
encode_block [] = []
encode_block (e ∷ es) = block_entry e ++ encode_block es

pub length-block_entry : (e : Entry) → length (block_entry e) ≡ length e.key + length e.value + 8
unfolding block_entry
length-block_entry e = omega (
  arith,
  length-append (header e ++ e.key) e.value,
  length-append (header e) e.key,
  length-append (encode_fixed32 (length e.key)) (encode_fixed32 (length e.value)),
  length-encode_fixed 4 (length e.key),
  length-encode_fixed 4 (length e.value),
)

-- The four writes of `Add` append one entry to the buffer and leave the rest alone.
pub add_lem : (buffer : List ℕ) (e : Entry) → add buffer e.key e.value ≡ buffer ++ block_entry e
unfolding add block_entry
add_lem buffer e =
    store_at_four buffer (encode_fixed32 (length e.key)) (encode_fixed32 (length e.value)) e.key
      e.value _ _ _ _ _ refl (omega (arith, length-encode_fixed 4 (length e.key)))
      (omega (arith, length-encode_fixed 4 (length e.value))) refl
      (omega (
        arith,
        length-replicate (length e.key + length e.value + 8) (let z : ℕ = 0 in z),
        length-encode_fixed 4 (length e.key),
        length-encode_fixed 4 (length e.value),
      ))
    ∙ simp append_assoc

-- The two sizes at the front of an entry are those of its key and its value.
pub block_entry_sizes :
    (e : Entry) (rest : List ℕ)
    → Fits e
    → (decode_fixed32 (block_entry e ++ rest) ≡ length e.key)
      × (decode_fixed32 (drop 4 (block_entry e ++ rest)) ≡ length e.value)
unfolding block_entry
block_entry_sizes e rest h = (
  simp append_assoc (decode_fixed-encode_fixed 4 (length e.key) _ (omega arith)),
  simp append_assoc (
      ap decode_fixed32 (
        drop-append 4 (encode_fixed32 (length e.key)) _
          (omega (arith, length-encode_fixed 4 (length e.key))))
      ∙ decode_fixed-encode_fixed 4 (length e.value) _ (omega arith)),
)

-- The parser splits an entry whose size fits 32 bits off a block, whatever follows it.
pub parser_block-block_entry :
    (e : Entry) (rest : List ℕ)
    → Fits e
    → parser_block (block_entry e ++ rest) ≡ parsed (block_entry e) rest
unfolding parser_block
parser_block-block_entry e rest h =
    let (hk, hv) = block_entry_sizes e rest h in
    let n = length-block_entry e in
    let l = length-append (block_entry e) rest in
    let size : entry_size (block_entry e ++ rest) ≡ length (block_entry e) = omega arith in
    rw (size, take_all-append, drop_all-append) (ground arith)

-- The key of an entry stands behind its two sizes, and the value behind the key.
pub block_entry_parts :
    (e : Entry) (rest : List ℕ)
    → (drop 8 (block_entry e ++ rest) ≡ e.key ++ (e.value ++ rest))
      × (take (length e.key) (drop 8 (block_entry e ++ rest)) ≡ e.key)
unfolding block_entry
block_entry_parts e rest =
    let d : drop 8 (header e ++ e.key ++ e.value ++ rest) ≡ e.key ++ (e.value ++ rest) =
      simp append_assoc (skip (e.key ++ (e.value ++ rest))) in
    (d, rw d (take_all-append e.key (e.value ++ rest)))
  where
    skip :
        (t : List ℕ)
        → drop 8 (encode_fixed32 (length e.key) ++ (encode_fixed32 (length e.value) ++ t)) ≡ t
    skip t = rw (← append_assoc) (
        drop-append 8 (header e) t (
          omega (
            arith,
            length-append (encode_fixed32 (length e.key)) (encode_fixed32 (length e.value)),
            length-encode_fixed 4 (length e.key),
            length-encode_fixed 4 (length e.value),
          )))

parser_block-nil : parser_block [] ≡ corruption
unfolding parser_block
parser_block-nil = refl

module _ (test : List ℕ → Bool) where
  -- One round of a seek's loop.
  pub scan_entries-parsed :
      (fuel off : ℕ) (l entry rest : List ℕ)
      → parser_block l ≡ parsed entry rest
      → 8 ≤ length entry
      → 8 + decode_fixed32 entry ≤ length l
      → scan_entries (suc fuel) test off l ≡ (
          if test (take (decode_fixed32 entry) (drop 8 l))
          then at off
          else scan_entries fuel test (off + length entry) rest)
  unfolding scan_entries
  scan_entries-parsed fuel off [] entry rest p h k = cc parser_block-nil
  scan_entries-parsed fuel off (b ∷ bs) entry rest p h k = rw (p, scan_entries) (ground arith)

  -- The offset of the first entry whose key passes the test.
  unfoldable pub first_at : ℕ → List Entry → Scan
  first_at off [] = exhausted
  first_at off (e ∷ es) =
      let next = first_at (off + length (block_entry e)) es in if test e.key then at off else next

  -- A seek's loop over a block of entries whose sizes fit 32 bits finds the first entry that passes its
  -- test; with as much fuel as the block has bytes it does not run out.
  pub scan_entries-encode_block :
      (fuel off : ℕ) (es : List Entry)
      → All Fits es
      → length (encode_block es) ≤ fuel
      → scan_entries fuel test off (encode_block es) ≡ first_at off es
  unfolding first_at
  scan_entries-encode_block zero off [] h l = unfold scan_entries in refl
  scan_entries-encode_block (suc fuel) off [] h l = unfold scan_entries in refl
  scan_entries-encode_block zero off (e ∷ es) h l =
      absurd (omega (arith, length-append (block_entry e) (encode_block es), length-block_entry e))
  scan_entries-encode_block (suc fuel) off (e ∷ es) h l =
      let n = length-block_entry e in
      let m = length-append (block_entry e) (encode_block es) in
      let size = (block_entry_sizes e [] h.0).0 in
      let size' = rw append-nil at size in
      rw (
        scan_entries-parsed fuel off (block_entry e ++ encode_block es) (block_entry e)
            (encode_block es) (parser_block-block_entry e (encode_block es) h.0) (omega arith)
            (omega arith),
        size',
        (block_entry_parts e (encode_block es)).1,
        scan_entries-encode_block fuel (off + length (block_entry e)) es h.1 (omega arith),
      )

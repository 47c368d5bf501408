-- ===== src/Reader/Search.antt =====
-- A lookup in a block that the builder made, against a search of the block's list of entries.
use lsmkv.Base.{
  ℕ, zero, suc, ◌+◌, ◌≤◌, ◌≡◌, refl, ◌∙◌, ap, arith, List, [], ◌∷◌, ◌++◌, append-nil, Option, some,
  length, take, drop, ltb, All, if◌then◌else◌, Bool, false, inl, inr, ◌⊎◌, length-append, Ordering,
  by_order, drop_all-append, drop-add,
}
use lsmkv.Coding.{decode_fixed32}
use lsmkv.Keys.{extract_user_key}
use lsmkv.Comparator.{compare_str, compare_with, internal_key}
use lsmkv.Status.{Code}
use lsmkv.Block.{parsed, parser_block}
use lsmkv.Block.Entries.{
  Entry, Fits, block_entry, encode_block, length-block_entry, block_entry_sizes, block_entry_parts,
  parser_block-block_entry,
}
use lsmkv.Block.Iterate.{drop_until}
use lsmkv.Format.{BlockEntryInfo, decode_block_info, VLogEntryInfo, not_above}
use lsmkv.Reader.{take_version, find_in_block, filter_in_index, with_handle}

-- What both loops read from the first entry of a block.
record FirstRead (e : Entry) (rest : List ℕ) : Type 0 where
  parse : parser_block (block_entry e ++ rest) ≡ parsed (block_entry e) rest
  size : decode_fixed32 (block_entry e) ≡ length e.key
  key : take (length e.key) (drop 8 (block_entry e ++ rest)) ≡ e.key
  value : drop (8 + length e.key) (block_entry e) ≡ e.value
  long : length (block_entry e) ≡ length e.key + length e.value + 8
  total : length (block_entry e ++ rest) ≡ length (block_entry e) + length rest

behind_sizes : (e : Entry) → drop 8 (block_entry e) ≡ e.key ++ e.value
behind_sizes e = rw (append-nil, append-nil) at (block_entry_parts e []).0

first_read : (e : Entry) (rest : List ℕ) → Fits e → FirstRead e rest
first_read e rest h = record {
  parse = parser_block-block_entry e rest h;
  size = rw append-nil at (block_entry_sizes e [] h).0;
  key = (block_entry_parts e rest).1;
  value =
      drop-add 8 (length e.key) (block_entry e)
      ∙ rw (behind_sizes e) (drop_all-append e.key e.value);
  long = length-block_entry e;
  total = length-append (block_entry e) rest;
}

-- The user key of the query stands at or in front of the user key of an entry.
abbrev pub at_or_before_user : List ℕ → List ℕ → Bool
at_or_before_user query key =
    not_above (compare_str (extract_user_key query) (extract_user_key key))

-- What the first entry of a list gives to a query.
abbrev first_version : List ℕ → List Entry → VLogEntryInfo → Option (Code × VLogEntryInfo)
first_version query [] info = some (Code.not_found, info)
first_version query (e ∷ es) info =
    by_order (compare_str (extract_user_key query) (extract_user_key e.key))
      (some (Code.not_found, info)) (take_version query e.key e.value info)
      (some (Code.not_found, info))

-- The lookup that the list of entries asks for: skip the smaller user keys, then look at one entry.
abbrev pub lookup_version : List ℕ → List Entry → VLogEntryInfo → Option (Code × VLogEntryInfo)
lookup_version query es info = first_version query (drop_until (at_or_before_user query) es) info

find_in_block-parsed :
    (fuel : ℕ) (l : List ℕ) (e : Entry) (rest query : List ℕ) (info : VLogEntryInfo)
    → l ≡ block_entry e ++ rest
    → Fits e
    → 8 ≤ length e.key
    → 8 ≤ length query
    → find_in_block (suc fuel) l query info
      ≡ by_order
          (compare_str (extract_user_key query) (extract_user_key e.key))
          (some (Code.not_found, info))
          (take_version query e.key e.value info)
          (find_in_block fuel rest query info)
unfolding find_in_block
find_in_block-parsed fuel [] e rest query info q h tagged asked =
    absurd (omega (arith, length-block_entry e, length-append (block_entry e) rest, ap length q))
find_in_block-parsed fuel (b ∷ bs) e rest query info q h tagged asked =
    let f = first_read e rest h in
    let long = f.long in
    let total = f.total in
    let parse = rw (← q) at f.parse in
    let key = rw (← q) at f.key in
    let total' = rw (← q) at f.total in
    let size = f.size in
    let a : ltb (length (block_entry e)) 8 ≡ false = ground arith in
    let c : ltb (length (b ∷ bs)) (8 + length e.key) ≡ false = ground arith in
    let d : ltb (length (block_entry e)) (8 + length e.key) ≡ false = ground arith in
    let t : ltb (length e.key) 8 ≡ false = ground arith in
    let k : ltb (length query) 8 ≡ false = ground arith in
    rw (parse, find_in_block, size, key, f.value, a, c, d, t, k)

-- Which branch a comparison takes.
Ordering-cases : (o : Ordering) → (o ≡ Ordering.lt) ⊎ ((o ≡ Ordering.eq) ⊎ (o ≡ Ordering.gt))
Ordering-cases Ordering.lt = inl refl
Ordering-cases Ordering.eq = inr (inl refl)
Ordering-cases Ordering.gt = inr (inr refl)

-- `FindInBlock` of a query of eight bytes or more, on a block that the builder made of entries whose
-- sizes fit 32 bits and whose keys have eight bytes or more, gives what the search of its entries asks
-- for: the first entry whose user key is not below the query's decides. With as much fuel as the block
-- has bytes it never runs out, it reads nothing out of range, and no assertion of the accessors fails.
pub find_in_block_lem :
    (fuel : ℕ) (es : List Entry) (query : List ℕ) (info : VLogEntryInfo)
    → All Fits es
    → All (λ e. 8 ≤ length e.key) es
    → 8 ≤ length query
    → length (encode_block es) ≤ fuel
    → find_in_block fuel (encode_block es) query info ≡ lookup_version query es info
unfolding drop_until find_in_block
find_in_block_lem fuel [] query info h tagged asked l = refl
find_in_block_lem zero (e ∷ es) query info h tagged asked l =
    absurd (omega (arith, length-append (block_entry e) (encode_block es), length-block_entry e))
find_in_block_lem (suc fuel) (e ∷ es) query info h tagged asked l =
    let n = length-block_entry e in
    let m = length-append (block_entry e) (encode_block es) in
    let rec = find_in_block_lem fuel es query info h.1 tagged.1 asked (omega arith) in
    find_in_block-parsed fuel (block_entry e ++ encode_block es) e (encode_block es) query info refl
      h.0 tagged.0 asked
    ∙ elim (Ordering-cases (compare_str (extract_user_key query) (extract_user_key e.key))) [
      | inl p ↦ rw (p, p) refl
      | inr (inl p) ↦ rw (p, p) refl
      | inr (inr p) ↦ rw p rec
    ]

filter_in_index-parsed :
    (fuel : ℕ) (l : List ℕ) (e : Entry) (rest query : List ℕ) (info : BlockEntryInfo)
    → l ≡ block_entry e ++ rest
    → Fits e
    → filter_in_index (suc fuel) l query info ≡ (
        if not_above (compare_with internal_key query e.key)
        then with_handle (decode_block_info e.value)
        else filter_in_index fuel rest query info)
unfolding filter_in_index
filter_in_index-parsed fuel [] e rest query info q h =
    absurd (omega (arith, length-block_entry e, length-append (block_entry e) rest, ap length q))
filter_in_index-parsed fuel (b ∷ bs) e rest query info q h =
    let f = first_read e rest h in
    let long = f.long in
    let total = f.total in
    let parse = rw (← q) at f.parse in
    let key = rw (← q) at f.key in
    let total' = rw (← q) at f.total in
    let size = f.size in
    let a : ltb (length (block_entry e)) 8 ≡ false = ground arith in
    let c : ltb (length (b ∷ bs)) (8 + length e.key) ≡ false = ground arith in
    let d : ltb (length (block_entry e)) (8 + length e.key) ≡ false = ground arith in
    rw (parse, filter_in_index, size, key, f.value, a, c, d) refl

-- The handle that the list of an index block's entries asks for.
abbrev pub lookup_handle : List ℕ → List Entry → BlockEntryInfo → Option (Code × BlockEntryInfo)
lookup_handle query [] info = some (Code.not_found, info)
lookup_handle query (e ∷ es) info =
    let rest = lookup_handle query es info in
    if not_above (compare_with internal_key query e.key)
    then with_handle (decode_block_info e.value)
    else rest

-- `FilterInIndex` on an index block that the builder made of entries whose sizes fit 32 bits decodes the value of the first entry
-- whose key is not below the query's; if there is none, it does not find the key and leaves the
-- handle as it was. With as much fuel as the block has bytes it never runs out.
pub filter_in_index_lem :
    (fuel : ℕ) (es : List Entry) (query : List ℕ) (info : BlockEntryInfo)
    → All Fits es
    → length (encode_block es) ≤ fuel
    → filter_in_index fuel (encode_block es) query info ≡ lookup_handle query es info
unfolding filter_in_index
filter_in_index_lem fuel [] query info h l = refl
filter_in_index_lem zero (e ∷ es) query info h l =
    absurd (omega (arith, length-append (block_entry e) (encode_block es), length-block_entry e))
filter_in_index_lem (suc fuel) (e ∷ es) query info h l =
    let n = length-block_entry e in
    let m = length-append (block_entry e) (encode_block es) in
    filter_in_index-parsed fuel (block_entry e ++ encode_block es) e (encode_block es) query info
      refl h.0
    ∙ rw (filter_in_index_lem fuel es query info h.1 (omega arith)) refl

-- ===== src/MemTable/Reads.antt =====
-- A lookup in a memtable after a write of the key.
use lsmkv.Base.{
  ℕ, ◌+◌, ◌*◌, ◌%◌, ◌^◌, ◌≤◌, ◌<◌, ◌≡◌, refl, ap, ◌∙◌, arith, List, [], ◌∷◌, ◌++◌, append-nil,
  length, map, Bool, true, false, some, Ordering, leb, All, All-map, All-append, All-zip,
  All-append_left, All-append_right,
}
use lsmkv.Keys.{
  ValueType, deletion, value, type_of_code, make_tag, QueryKey, query_key, query_mem_key,
}
use lsmkv.Keys.Layout.{
  make_tag_lem, type_code-lt, type_of_tag, type_of_code-type_code, query_key_lem, extract-with_tag,
}
use lsmkv.Comparator.Order.{compare_parts, compare_str_self, compare_internal-with_tag}
use lsmkv.Status.{Code}
use lsmkv.Format.{VLogEntryInfo, decode_vlog_info}
use lsmkv.Skiplist.{Skiplist, insert, equal, find_node, is_eq}
use lsmkv.Skiplist.Search.{IsBelow, IsAbove}
use lsmkv.Skiplist.Insert.{Holds, first_node, split_at_key, find_node-first_node}
use lsmkv.Skiplist.Preserve.{insert_lem}
use lsmkv.MemTable.{MemTable, mem_compare, put, value_fits, put_buffer, read_entry, by_type, get}
use lsmkv.MemTable.Order.{mem_compare-IsOrder, mem_buffer, mem_buffer_lem, put_buffer_lem}

-- A buffer that `put` made with a number below a bound.
pub data IsWritten (bound : ℕ) (buffer : List ℕ) : Type 0 where
  written :
      (key : List ℕ) (tag : ℕ) (rest : List ℕ)
      → length key + 8 < 2 ^ 32
      → tag < bound
      → buffer ≡ mem_buffer key tag rest
      → IsWritten bound buffer

IsWritten-mono : (m n : ℕ) (buffer : List ℕ) → m ≤ n → IsWritten m buffer → IsWritten n buffer
IsWritten-mono m n buffer l (written key tag rest s b e) = written key tag rest s (omega arith) e

mem_compare-mem_buffer :
    (a : List ℕ) (s : ℕ) (r : List ℕ) (b : List ℕ) (t : ℕ) (q : List ℕ)
    → length a + 8 < 2 ^ 32
    → length b + 8 < 2 ^ 32
    → s < 2 ^ 64
    → t < 2 ^ 64
    → mem_compare (mem_buffer a s r) (mem_buffer b t q) ≡ compare_parts a s b t
unfolding mem_compare
mem_compare-mem_buffer a s r b t q la lb hs ht =
    rw ((mem_buffer_lem a s r la).0, (mem_buffer_lem b t q lb).0)
      (compare_internal-with_tag a b s t hs ht)

-- The keys behind an insertion, node by node.
keys_split :
    (f g : ℕ → List ℕ) (k : List ℕ) (n : ℕ) (b a : List ℕ)
    → map f (b ++ (n ∷ a)) ≡ map g b ++ (k ∷ map g a)
    → All (λ i. f i ≡ g i) b × (f n ≡ k) × All (λ i. f i ≡ g i) a
keys_split f g k n [] a e = (tt, ground (arith, e), keys_same a (ground (arith, e)))
  where
    keys_same : (a : List ℕ) → map f a ≡ map g a → All (λ i. f i ≡ g i) a
    keys_same [] e = tt
    keys_same (i ∷ a) e = (ground (arith, e), keys_same a (ground (arith, e)))
keys_split f g k n (i ∷ b) a e =
    let (x, y, z) = keys_split f g k n b a (ground (arith, e)) in ((ground (arith, e), x), y, z)

get-found :
    (mt : MemTable) (query : QueryKey) (s : Code) (res : VLogEntryInfo) (node : ℕ)
    → find_node mem_compare mt.table (query_mem_key query) ≡ some (some node)
    → get mt query s res ≡ some (read_entry query (mt.table.key node) s res)
unfolding get
get-found mt query s res node e = rw (e, get) refl

-- What a write of each type gives to a reader.
abbrev pub answer : ValueType → List ℕ → VLogEntryInfo → Bool × (Code × VLogEntryInfo)
answer deletion v res = (true, (Code.not_found, res))
answer value v res = (true, decode_vlog_info res v)

by_type-answer :
    (t : ValueType) (bytes v : List ℕ) (s : Code) (res : VLogEntryInfo)
    → (t ≡ value → bytes ≡ v)
    → by_type (some t) bytes s res ≡ answer t v res
by_type-answer deletion bytes v s res h = refl
by_type-answer value bytes v s res h = rw (h refl) refl

value_long : (t : ValueType) (v : List ℕ) → t ≡ value → value_fits (some t) v ≡ true → length v ≡ 16
value_long deletion v e h = cc
value_long value v e h = ground arith

module _ (seq later : ℕ) (key v : List ℕ) (t : ValueType) (newer : seq < later)
    (bound : later < 2 ^ 56) (short : length key + 12 < 2 ^ 32) where
  abbrev tag : ℕ
  tag = make_tag seq t

  tag_bounds :
      (seq * 256 ≤ tag) × (tag < (seq + 1) * 256) × (tag < later * 256) × (later * 256 < 2 ^ 64)
  tag_bounds = let e = make_tag_lem seq t (omega arith) in omega (arith, type_code-lt t)

  abbrev query : QueryKey
  query = query_key later key

  query_buffer : query_mem_key query ≡ mem_buffer key (later * 256) []
  query_buffer =
      let (u, i, m, q) = query_key_lem later key short in
      let e : later * 256 % 2 ^ 64 ≡ later * 256 = omega arith in m ∙ rw (e, append-nil) refl

  -- An older buffer in front of the new key is in front of the query.
  older_below :
      (rest old : List ℕ)
      → IsWritten (seq * 256) old
      → mem_compare old (mem_buffer key tag rest) ≡ Ordering.lt
      → mem_compare old (query_mem_key query) ≡ Ordering.lt
  older_below rest old (written k u r s b e) h =
      let (b1, b2, b3, b4) = tag_bounds in
      let p =
        rw
          (e, mem_compare-mem_buffer k u r key tag rest s (omega arith) (omega arith) (omega arith))
          at h in
      rw
        (
          query_buffer,
          e,
          mem_compare-mem_buffer k u r key (later * 256) [] s (omega arith) (omega arith)
              (omega arith),
        )
        (unfold compare_parts in ground (arith, p))

  -- An older buffer is not equal to the new key.
  older_differs :
      (rest old : List ℕ)
      → IsWritten (seq * 256) old
      → is_eq (mem_compare old (mem_buffer key tag rest)) ≡ false
  older_differs rest old (written k u r s b e) =
      let (b1, b2, b3, b4) = tag_bounds in
      rw (e, mem_compare-mem_buffer k u r key tag rest s (omega arith) (omega arith) (omega arith))
        (unfold compare_parts in ground arith)

  -- The query is in front of the new key.
  query_before :
      (rest : List ℕ) → mem_compare (query_mem_key query) (mem_buffer key tag rest) ≡ Ordering.lt
  query_before rest =
      let (b1, b2, b3, b4) = tag_bounds in
      rw
        (
          query_buffer,
          mem_compare-mem_buffer key (later * 256) [] key tag rest (omega arith) (omega arith)
              (omega arith) (omega arith),
        )
        (unfold compare_parts in ground (arith, compare_str_self key))

  -- The entry of the write decides a later lookup.
  read_entry-written :
      (rest : List ℕ) (s : Code) (res : VLogEntryInfo)
      → (t ≡ value → rest ≡ v)
      → read_entry query (mem_buffer key tag rest) s res ≡ answer t v res
  unfolding read_entry
  read_entry-written rest s res h =
      let (k, w) = mem_buffer_lem key tag rest (omega arith) in
      let (u, n, y) = extract-with_tag key seq t (omega arith) in
      let (qu, qi, qm, qs) = query_key_lem later key short in
      let e : later * 256 % 2 ^ 64 ≡ make_tag later deletion =
        let m = make_tag_lem later deletion bound in omega arith in
      let (u', n', y') = extract-with_tag key later deletion bound in
      let le : leb seq later ≡ true = ground arith in
      rw (k, u, n, y, qu, qi, e, n', le, compare_str_self key, w) (by_type-answer t rest v s res h)

  module _ (mt : MemTable) (c : List ℕ) (fresh : List ℕ) (rnd : ℕ)
      (holds : Holds mem_compare mt.table c)
      (old : All (λ i. IsWritten (seq * 256) (mt.table.key i)) c)
      (size : length fresh ≡ 16 + 8 + length key + 4) (fits : value_fits (some t) v ≡ true) where
    put_type : value_fits (type_of_code (tag % 256)) v ≡ true
    put_type =
        rw (make_tag_lem seq t (omega arith), type_of_tag seq t, type_of_code-type_code t) fits

    -- No node of the memtable is equal to a key of this write.
    fresh_key :
        (rest : List ℕ) (a : List ℕ)
        → All (λ i. IsWritten (seq * 256) (mt.table.key i)) a
        → equal mem_compare mt.table (mem_buffer key tag rest) (first_node a) ≡ false
    unfolding equal
    fresh_key rest [] h = refl
    fresh_key rest (i ∷ a) h = older_differs rest (mt.table.key i) h.0

    put-some :
        (table : Skiplist (List ℕ))
        → insert mem_compare mt.table (put_buffer fresh tag key v) rnd ≡ some table
        → put mt tag key v fresh rnd
          ≡ some (record { size = (mt.size + 1) % 2 ^ 32; table = table })
    unfolding put
    put-some table e = rw (put_type, e, put) refl

    -- A node in front of the new one is in front of the query, and no other is.
    IsBelow-kept :
        (rest : List ℕ) (table : Skiplist (List ℕ)) (i : ℕ)
        → IsBelow mem_compare mt.table (mem_buffer key tag rest) i
          × IsWritten (seq * 256) (mt.table.key i)
        → table.key i ≡ mt.table.key i
        → IsBelow mem_compare table (query_mem_key query) i
    IsBelow-kept rest table i (l, w) e =
        let p : mem_compare (mt.table.key i) (mem_buffer key tag rest) ≡ Ordering.lt =
          ground arith in
        rw (e, older_below rest (mt.table.key i) w p) refl

    IsAbove-kept :
        (rest : List ℕ) (table : Skiplist (List ℕ)) (i : ℕ)
        → IsAbove mem_compare mt.table (mem_buffer key tag rest) i
        → table.key i ≡ mt.table.key i
        → IsAbove mem_compare table (query_mem_key query) i
    IsAbove-kept rest table i l e = rw e (
        ground (
          arith,
          mem_compare-IsOrder.trans (mt.table.key i) (query_mem_key query)
              (mem_buffer key tag rest),
          query_before rest,
        ))

    new-IsAbove :
        (rest : List ℕ) (table : Skiplist (List ℕ)) (i : ℕ)
        → table.key i ≡ mem_buffer key tag rest
        → IsAbove mem_compare table (query_mem_key query) i
    new-IsAbove rest table i e =
        rw
          (
            e,
            mem_compare-IsOrder.swap (query_mem_key query) (mem_buffer key tag rest),
            query_before rest,
          )
          refl

    IsWritten-kept :
        (table : Skiplist (List ℕ)) (i : ℕ)
        → IsWritten (seq * 256) (mt.table.key i)
        → table.key i ≡ mt.table.key i
        → IsWritten ((seq + 1) * 256) (table.key i)
    IsWritten-kept table i w e =
        rw e (IsWritten-mono (seq * 256) ((seq + 1) * 256) (mt.table.key i) (omega arith) w)

    get-put_split :
        (rest b a : List ℕ)
        → put_buffer fresh tag key v ≡ mem_buffer key tag rest
        → (t ≡ value → rest ≡ v)
        → c ≡ b ++ a
        → All (IsBelow mem_compare mt.table (mem_buffer key tag rest)) b
        → All (IsAbove mem_compare mt.table (mem_buffer key tag rest)) a
        → (mt' : MemTable) × (c' : List ℕ) × (put mt tag key v fresh rnd ≡ some mt')
          × Holds mem_compare mt'.table c'
          × All (λ i. IsWritten ((seq + 1) * 256) (mt'.table.key i)) c'
          × ((s : Code) (res : VLogEntryInfo) → get mt' query s res ≡ some (answer t v res))
    get-put_split rest b a eb er ec below above =
        let old' = rw ec at old in
        let old_b = All-append_left (λ i. IsWritten (seq * 256) (mt.table.key i)) b a old' in
        let old_a = All-append_right (λ i. IsWritten (seq * 256) (mt.table.key i)) b a old' in
        let (table, e, h, keys) =
          (insert_lem mem_compare mem_compare-IsOrder mt.table (mem_buffer key tag rest) b a rnd
              (rw ec at holds) below above).1
            (fresh_key rest a old_a) in
        let (kb, kn, ka) =
          keys_split table.key mt.table.key (mem_buffer key tag rest) mt.table.allocated b a keys in
        let f =
          find_node-first_node mem_compare mem_compare-IsOrder table (query_mem_key query) b
            (mt.table.allocated ∷ a) h
            (All-map (λ i x. IsBelow-kept rest table i (x.0, x.1.0) x.1.1) b
              (All-zip _ _ b below (All-zip _ _ b old_b kb)))
            (
              new-IsAbove rest table mt.table.allocated kn,
              All-map (λ i x. IsAbove-kept rest table i x.0 x.1) a (All-zip _ _ a above ka),
            ) in
        (
          record { size = (mt.size + 1) % 2 ^ 32; table = table },
          b ++ (mt.table.allocated ∷ a),
          put-some table (rw eb e),
          h,
          All-append (λ i. IsWritten ((seq + 1) * 256) (table.key i)) b (mt.table.allocated ∷ a)
              (All-map (λ i x. IsWritten-kept table i x.0 x.1) b (All-zip _ _ b old_b kb))
              (
                written key tag rest (omega arith) (omega (arith, tag_bounds)) kn,
                All-map (λ i x. IsWritten-kept table i x.0 x.1) a (All-zip _ _ a old_a ka),
              ),
          λ s res.
              get-found _ query s res mt.table.allocated f
              ∙ ap some (rw kn (read_entry-written rest s res er)),
        )

    -- A write into a memtable that holds its nodes in order, all of older numbers, succeeds if the
    -- value has the size of its type, the key fits its length field and the arena's memory has the size
    -- asked for. After it a reader with a later snapshot below 2 ^ 56 finds that write: a value's location
    -- is decoded, a deletion is not found. The memtable still holds its nodes in order.
    pub get-put :
        (mt' : MemTable) × (c' : List ℕ) × (put mt tag key v fresh rnd ≡ some mt')
        × Holds mem_compare mt'.table c'
        × All (λ i. IsWritten ((seq + 1) * 256) (mt'.table.key i)) c'
        × ((s : Code) (res : VLogEntryInfo) → get mt' query s res ≡ some (answer t v res))
    get-put =
        let (rest, eb, er) = put_buffer_lem fresh tag key v size in
        let (b, a, ec, below, above) =
          split_at_key mem_compare mem_compare-IsOrder mt.table (mem_buffer key tag rest) c
            holds.sorted in
        get-put_split rest b a eb (λ e. er (value_long t v e fits)) ec below above

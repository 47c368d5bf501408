-- ===== src/LevelCache/Compaction.antt =====
-- Which files a compaction takes, and between which bounds they lie.
use lsmkv.Base.{
  ℕ, zero, suc, ◌+◌, ◌-◌, ◌<◌, ◌≡◌, ◌≢◌, refl, sym, ap, ◌∙◌, arith, List, [], ◌∷◌, ◌++◌,
  append_assoc, append-nil, none, some, length, length-append, take, All, All-map, All-append, inl,
  inr, false, Bool-cases, leb, ◌==◌, Ordering,
}
use lsmkv.Base.OrderedMap.{values}
use lsmkv.Keys.{InternalKey, encode_internal_key, extract_user_key}
use lsmkv.Coding.{decode_fixed64}
use lsmkv.Comparator.{negate, internal_key, compare_internal, compare_num, extract_seq_num}
use lsmkv.Comparator.Order.{compare_parts, compare_parts_swap, compare_parts_trans}
use lsmkv.Format.{SstFileMeta, overlaps}
use lsmkv.Skiplist.{is_lt}
use lsmkv.LevelCache.{
  Cache, level_files, CompactInfo, lower_bound, upper_bound, widen, pick_files, filter,
  pick_sst_file_num, pick_overlapping_files, pick_compaction,
}

compare_internal_swap_any : (a b : List ℕ) → compare_internal b a ≡ negate (compare_internal a b)
unfolding compare_internal compare_num compare_parts
compare_internal_swap_any a b =
    compare_parts_swap (extract_user_key a) (extract_user_key b)
      (decode_fixed64 (extract_seq_num a)) (decode_fixed64 (extract_seq_num b))

compare_internal_trans_any :
    (a b c : List ℕ)
    → compare_internal a b ≡ Ordering.lt
    → compare_internal b c ≡ Ordering.lt
    → compare_internal a c ≡ Ordering.lt
unfolding compare_internal compare_num compare_parts
compare_internal_trans_any a b c p q =
    compare_parts_trans (extract_user_key a) (extract_user_key b) (extract_user_key c)
      (decode_fixed64 (extract_seq_num a)) (decode_fixed64 (extract_seq_num b))
      (decode_fixed64 (extract_seq_num c)) p q

abbrev cmp : InternalKey → InternalKey → Ordering
cmp a b = compare_internal (encode_internal_key a) (encode_internal_key b)

-- The keys of a file lie between two bounds.
abbrev pub Within : InternalKey → InternalKey → SstFileMeta → Type 0
Within small large f =
    (is_lt (cmp f.smallest small) ≡ false) × (is_lt (cmp large f.largest) ≡ false)

-- The bounds of a choice are set, and its files lie between them.
abbrev Bounded : CompactInfo → InternalKey → InternalKey → Type 0
Bounded info small large =
    (info.smallest_key ≡ some small)
    × (info.largest_key ≡ some large)
    × All (Within small large) info.old_files

cmp_self : (k : InternalKey) → is_lt (cmp k k) ≡ false
cmp_self k =
    ground (arith, compare_internal_swap_any (encode_internal_key k) (encode_internal_key k))

lower_bound_lem :
    (b k x : InternalKey)
    → (is_lt (cmp k (lower_bound (some b) k)) ≡ false)
      × (is_lt (cmp x b) ≡ false → is_lt (cmp x (lower_bound (some b) k)) ≡ false)
lower_bound_lem b k x = ground (
  arith,
  cmp_self k,
  compare_internal_trans_any (encode_internal_key x) (encode_internal_key k)
      (encode_internal_key b),
)

upper_bound_lem :
    (b k x : InternalKey)
    → (is_lt (cmp (upper_bound (some b) k) k) ≡ false)
      × (is_lt (cmp b x) ≡ false → is_lt (cmp (upper_bound (some b) k) x) ≡ false)
upper_bound_lem b k x = ground (
  arith,
  cmp_self k,
  compare_internal_swap_any (encode_internal_key k) (encode_internal_key b),
  compare_internal_trans_any (encode_internal_key b) (encode_internal_key k)
      (encode_internal_key x),
)

-- What a choice keeps, and which files it has.
abbrev Chosen : CompactInfo → CompactInfo → List SstFileMeta → Type 0
Chosen info info' files =
    (small : InternalKey) × (large : InternalKey) × Bounded info' small large
    × (info'.old_files ≡ files)
    × (info'.level ≡ info.level)
    × (info'.overlap_files ≡ info.overlap_files)

widen_more :
    (info : CompactInfo) (f g : SstFileMeta) (gs : List SstFileMeta) (small large : InternalKey)
    → info.old_files ≡ g ∷ gs
    → Bounded info small large
    → Chosen info (widen info f) (info.old_files ++ (f ∷ []))
unfolding widen
widen_more info f g gs small large e (es, el, all) = (
  lower_bound (some small) f.smallest,
  upper_bound (some large) f.largest,
  (
    rw (e, es) refl,
    rw (e, el) refl,
    All-append (Within (lower_bound (some small) f.smallest) (upper_bound (some large) f.largest))
        info.old_files (f ∷ [])
        (All-map
          (λ x w. (
            (lower_bound_lem small f.smallest x.smallest).1 w.0,
            (upper_bound_lem large f.largest x.largest).1 w.1,
          ))
          info.old_files all)
        (
          (
            (lower_bound_lem small f.smallest f.smallest).0,
            (upper_bound_lem large f.largest f.largest).0,
          ),
          tt,
        ),
  ),
  refl,
  refl,
  refl,
)

take_nil : (n : ℕ) → take {A = SstFileMeta} n [] ≡ []
take_nil zero = refl
take_nil (suc n) = refl

take_step :
    (n m : ℕ) (f : SstFileMeta) (fs : List SstFileMeta)
    → n ≡ suc m
    → take n (f ∷ fs) ≡ f ∷ take m fs
take_step n m f fs e = rw e refl

pick_files_more :
    (pick : ℕ) (fs : List SstFileMeta) (info : CompactInfo) (g : SstFileMeta)
    (gs : List SstFileMeta) (small large : InternalKey)
    → info.old_files ≡ g ∷ gs
    → Bounded info small large
    → length info.old_files < pick
    → Chosen info
        (pick_files pick fs info)
        (info.old_files ++ take (pick - length info.old_files) fs)
unfolding pick_files
pick_files_more pick [] info g gs small large e h l = (
  small,
  large,
  h,
  rw (take_nil (pick - length info.old_files)) (sym (append-nil info.old_files)),
  refl,
  refl,
)
pick_files_more pick (f ∷ fs) info g gs small large e h l =
    let (s, t, b, o, v, w) = widen_more info f g gs small large e h in
    let n = length-append info.old_files (f ∷ []) in
    let len : length (widen info f).old_files ≡ length info.old_files + 1 =
      omega (arith, n, ap length o) in
    elim (Bool-cases (length (widen info f).old_files == pick)) [
      | inl y ↦
          let last : pick - length info.old_files ≡ suc 0 = ground (arith, len, y) in
          rw y (s, t, b, o ∙ ap (λ z. info.old_files ++ z) (sym (take_step _ 0 f fs last)), v, w)
      | inr x ↦
          let (s', t', b', o', v', w') =
            pick_files_more pick fs (widen info f) g (gs ++ (f ∷ [])) s t
              (o ∙ ap (λ z. z ++ (f ∷ [])) e) b (ground (arith, len, x)) in
          let step : pick - length info.old_files ≡ suc (pick - length (widen info f).old_files) =
            ground (arith, len, x) in
          rw x (
            s',
            t',
            b',
            o'
                ∙ ap (λ z. z ++ take (pick - length (widen info f).old_files) fs) o
                ∙ append_assoc info.old_files (f ∷ []) _
                ∙ ap (λ z. info.old_files ++ z) (sym (take_step _ _ f fs step)),
            v' ∙ v,
            w' ∙ w,
          )
    ]

pick_overlapping_files_lem :
    (info : CompactInfo) (c : Cache) (small large : InternalKey)
    → info.smallest_key ≡ some small
    → info.largest_key ≡ some large
    → info.level + 1 < length c
    → pick_overlapping_files info c
      ≡ some (record info {
        overlap_files =
            info.overlap_files
            ++ filter
                (λ g. overlaps g small large internal_key)
                (values (level_files c (info.level + 1)));
      })
unfolding pick_overlapping_files
pick_overlapping_files_lem info c small large es el l =
    let d : leb (length c) (info.level + 1) ≡ false = ground arith in rw (d, es, el) refl

-- The files that a compaction starts from.
abbrev pub fresh_info : ℕ → CompactInfo
fresh_info level = record {
  level = level;
  old_files = [];
  overlap_files = [];
  smallest_key = none;
  largest_key = none;
}

pick_files-fresh :
    (pick level : ℕ) (f : SstFileMeta) (fs : List SstFileMeta)
    → pick ≢ 0
    → Chosen (fresh_info level) (pick_files pick (f ∷ fs) (fresh_info level)) (take pick (f ∷ fs))
unfolding pick_files widen
pick_files-fresh pick level f fs ne = elim (Bool-cases (1 == pick)) [
  | inl y ↦
      let one : pick ≡ suc 0 = ground (arith, y) in
      rw y (f.smallest, f.largest, first, sym (take_step pick 0 f fs one), refl, refl)
  | inr x ↦
      let more : 1 < pick = ground (arith, x, ne) in
      let step : pick ≡ suc (pick - 1) = omega (arith, more) in
      let (s, t, b, o, v, w) =
        pick_files_more pick fs (widen (fresh_info level) f) f [] f.smallest f.largest refl first
          more in
      rw x (s, t, b, o ∙ sym (take_step pick (pick - 1) f fs step), v, w)
]
  where
    first : Bounded (widen (fresh_info level) f) f.smallest f.largest
    first = (refl, refl, ((cmp_self f.smallest, cmp_self f.largest), tt))

-- A choice at a level that has files, has a level below it and has enough files to pick some ends, with the files of the smallest numbers, as many as
-- `PickSSTFileNum` says, and with all the files of the next level that overlap bounds between which
-- the keys of the chosen files lie.
pub pick_compaction_lem :
    (c : Cache) (level : ℕ) (f : SstFileMeta) (fs : List SstFileMeta)
    → level + 1 < length c
    → values (level_files c level) ≡ f ∷ fs
    → pick_sst_file_num level c ≢ 0
    → (info : CompactInfo) × (small : InternalKey) × (large : InternalKey) × (pick_compaction
          (fresh_info level)
          c
        ≡ some info)
      × (info.old_files ≡ take (pick_sst_file_num level c) (f ∷ fs))
      × All (Within small large) info.old_files
      × (info.overlap_files
          ≡ filter (λ g. overlaps g small large internal_key) (values (level_files c (level + 1))))
unfolding pick_compaction
pick_compaction_lem c level f fs l e ne =
    let (s, t, (es, el, all), o, v, w) =
      pick_files-fresh (pick_sst_file_num level c) level f fs ne in
    let a : leb (length c) level ≡ false = ground arith in
    let b : (pick_sst_file_num level c == 0) ≡ false = ground arith in
    let picked = pick_files (pick_sst_file_num level c) (f ∷ fs) (fresh_info level) in
    (
      record picked {
        overlap_files =
            picked.overlap_files
            ++ filter (λ g. overlaps g s t internal_key)
                (values (level_files c (picked.level + 1)));
      },
      s,
      t,
      rw (a, b, e) (pick_overlapping_files_lem picked c s t es el (rw v l)),
      o,
      all,
      rw (w, v) refl,
    )

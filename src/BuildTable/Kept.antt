-- ===== src/BuildTable/Kept.antt =====
-- When `BuildTable` keeps a table, and what it records of it.
use lsmkv.Base.{
  ℕ, ◌+◌, ◌%◌, ◌^◌, ◌<◌, ◌≡◌, ◌≢◌, ◌⊎◌, refl, ap, sym, subst, ◌∙◌, arith, List, [], ◌∷◌, ◌++◌, true,
  false, none, some, length, ltb, ◌==◌, Bool-cases, inl, inr, ==_iff,
}
use mathlib.Core.Option.{some-injective}
use lsmkv.Keys.{decode_internal_key}
use lsmkv.Block.Entries.{Entry}
use lsmkv.Status.{Code, ok, is_ok, is_ok-ok, is_not_ok}
use lsmkv.Format.{SstFileMeta}
use lsmkv.Version.{Version, set_sst_file_number}
use lsmkv.Builder.{TableBuilder, finish}
use lsmkv.BuildTable.{
  TableFiles, Outcome, last_key_of, set_largest, keep, sync_and_close, fill, close_table,
  build_opened, build_table,
}

none≢some : {A : Type 0} (a : A) → none ≢ some a
none≢some a e = cc

-- The call failed, and no file number was taken.
abbrev pub IsLeft : {F : Type 0} → Version → Outcome F → Type 0
IsLeft v out = (out.status ≢ ok) × (out.version ≡ v)

-- The call succeeded with the file `f`, took its number, and recorded the size that the file has.
abbrev pub IsTaken : {F : Type 0} → TableFiles F → Version → Outcome F → Type 0
IsTaken {F} files v out =
    (out.status ≡ ok)
    × (out.version ≡ set_sst_file_number ((v.fileno + 1) % 2 ^ 64) v)
    × (f : F) × (out.file ≡ some f)
    × (files.size_of f ≡ out.file_meta.file_size)
    × (0 < out.file_meta.file_size)

-- The record of a table of the entries: the next number, level 0, the key of the first entry and that of
-- the last, unless the last one is empty.
abbrev pub IsRecorded : Version → List Entry → SstFileMeta → SstFileMeta → Type 0
IsRecorded v es before after =
    (after.file_number ≡ v.fileno)
    × (after.level ≡ 0)
    × (first : Entry) × (later : List Entry) × (es ≡ first ∷ later)
    × (after.smallest ≡ decode_internal_key first.key)
    × (front : List Entry) × (last : Entry) × (es ≡ front ++ (last ∷ []))
    × (((length last.key ≡ 0) × (after.largest ≡ before.largest))
        ⊎ (after.largest ≡ decode_internal_key last.key))

module _ {F : Type 0} (files : TableFiles F) (crc32c : List ℕ → ℕ)
    (murmur_hash : List ℕ → List ℕ) where
  -- What the end of the call leaves, with the record and the status that it was given.
  abbrev IsEnd : Version → SstFileMeta → Code → Outcome F → Type 0
  IsEnd v file_meta status out =
      (IsLeft v out ⊎ IsTaken files v out) × (out.file_meta ≡ file_meta) × (out.status ≡ status)

  keep-good :
      (v : Version) (file_meta : SstFileMeta) (file : F) (out : Outcome F)
      → (files.size_of file == file_meta.file_size) ≡ true
      → 0 < file_meta.file_size
      → keep files crc32c murmur_hash v file_meta (ok, file) ≡ some out
      → IsEnd v file_meta ok out
  unfolding keep is_ok
  keep-good v file_meta file out same whole e =
      let some_bytes : ltb 0 file_meta.file_size ≡ true = ground arith in
      let size : files.size_of file ≡ file_meta.file_size = ground arith in
      subst (IsEnd v file_meta ok) (some-injective _ _ (rw (same, some_bytes) at e))
        (inr (refl, refl, file, refl, size, whole), refl, refl)

  keep-bad :
      (v : Version) (file_meta : SstFileMeta) (status : Code) (file : F) (out : Outcome F)
      → (files.size_of file == file_meta.file_size) ≡ true
      → is_ok status ≡ false
      → keep files crc32c murmur_hash v file_meta (status, file) ≡ some out
      → IsEnd v file_meta status out
  unfolding keep
  keep-bad v file_meta status file out same bad e =
      subst (IsEnd v file_meta status) (some-injective _ _ (rw (same, bad) at e))
        (inl (is_not_ok status bad, refl), refl, refl)

  keep-asserts :
      (v : Version) (file_meta : SstFileMeta) (status : Code) (file : F) (out : Outcome F)
      → keep files crc32c murmur_hash v file_meta (status, file) ≡ some out
      → (files.size_of file == file_meta.file_size) ≡ true
  unfolding keep
  keep-asserts v file_meta status file out e =
      elim (Bool-cases (files.size_of file == file_meta.file_size)) [
        | inl same ↦ same
        | inr other ↦ absurd (none≢some out (rw other at e))
      ]

  keep_lem :
      (v : Version) (file_meta : SstFileMeta) (status : Code) (file : F) (out : Outcome F)
      → (status ≡ ok → 0 < file_meta.file_size)
      → keep files crc32c murmur_hash v file_meta (status, file) ≡ some out
      → IsEnd v file_meta status out
  keep_lem v file_meta status file out whole e =
      let same = keep-asserts v file_meta status file out e in
      elim (Bool-cases (is_ok status)) [
        | inl good ↦
            let fine = is_ok-ok status good in
            subst (λ c. IsEnd v file_meta c out) (sym fine)
              (keep-good v file_meta file out same (whole fine) (rw fine at e))
        | inr bad ↦ keep-bad v file_meta status file out same bad e
      ]

  -- From the call of `Finish` on: what a success leaves is recorded with the builder's size.
  close_table_lem :
      (v : Version) (file_meta : SstFileMeta) (built : TableBuilder F) (out : Outcome F)
      → close_table files crc32c murmur_hash v file_meta built ≡ some out
      → (IsLeft v out
          ⊎ (IsTaken files v out
              × (out.file_meta ≡ record file_meta { level = 0; file_size = built.offset })))
  unfolding close_table
  close_table_lem v file_meta built out e = elim (Bool-cases (is_ok built.status)) [
    | inr bad ↦
        let failed = is_not_ok built.status bad in
        let (end, same, code) =
          keep_lem v file_meta built.status built.file out (λ good. absurd (failed good))
            (rw bad at e) in
        elim end [ inl left ↦ inl left | inr taken ↦ absurd (failed (sym code ∙ taken.0)) ]
    | inl good ↦ elim (Bool-cases (built.offset == 0)) [
      | inl empty ↦ absurd (none≢some out (rw (good, empty) at e))
      | inr full ↦
          let whole : 0 < built.offset = ground arith in
          let recorded : SstFileMeta = record file_meta { level = 0; file_size = built.offset } in
          let closed = sync_and_close files crc32c murmur_hash built.file in
          let (end, same, code) =
            keep_lem v recorded closed.0 closed.1 out (λ fine. whole) (rw (good, full) at e) in
          elim end [ inl left ↦ inl left | inr taken ↦ inr (taken, same) ]
    ]
  ]

  last_key_of_lem :
      (e : Entry) (es : List Entry)
      → (front : List Entry) × (last : Entry) × ((e ∷ es) ≡ front ++ (last ∷ []))
        × (last_key_of e es ≡ last.key)
  unfolding last_key_of
  last_key_of_lem e [] = ([], e, refl, refl)
  last_key_of_lem e (next ∷ es) =
      let (front, last, split, key) = last_key_of_lem next es in
      (e ∷ front, last, ap (◌∷◌ e) split, key)

  recorded :
      (v : Version) (e : Entry) (es : List Entry) (before : SstFileMeta) (size : ℕ)
      → IsRecorded v
          (e ∷ es)
          before
          (record (set_largest
            (record before { file_number = v.fileno; smallest = decode_internal_key e.key })
            (last_key_of e es)) { level = 0; file_size = size })
  unfolding set_largest
  recorded v e es before size =
      let (front, last, split, key) = last_key_of_lem e es in
      elim (Bool-cases (length (last_key_of e es) == 0)) [
        | inl empty ↦
            let none_long : length last.key ≡ 0 =
              ap length (sym key) ∙ (==_iff (length (last_key_of e es)) 0).0 empty in
            rw empty (refl, refl, e, es, refl, refl, front, last, split, inl (none_long, refl))
        | inr whole ↦
            rw whole
              (refl, refl, e, es, refl, refl, front, last, split, inr (ap decode_internal_key key))
      ]

  -- The call that ends without a failed assertion, over files of whatever behaviour: either it failed and
  -- no file number was taken, or it succeeded. Then it took the next number, the file has the size that is
  -- recorded of it, which is not zero, and the record has that number, level 0, the key of the first entry
  -- as the smallest and that of the last one as the largest, unless the last one is empty.
  pub build_table_lem :
      (v : Version) (es : List Entry) (file_meta : SstFileMeta) (out : Outcome F)
      → build_table files crc32c murmur_hash v es file_meta ≡ some out
      → IsLeft v out ⊎ (IsTaken files v out × IsRecorded v es file_meta out.file_meta)
  unfolding build_table build_opened
  build_table_lem v [] file_meta out e =
      inl (subst (IsLeft v) (some-injective _ _ e) ((λ h. absurd (cc)), refl))
  build_table_lem v (e ∷ es) file_meta out done =
      elim (Bool-cases (is_ok (files.open_file v.fileno).0)) [
        | inr bad ↦ inl (
            subst (IsLeft v) (some-injective _ _ (rw bad at done))
              (is_not_ok (files.open_file v.fileno).0 bad, refl))
        | inl good ↦
            let file = (files.open_file v.fileno).1 in
            let built =
              finish files.writes crc32c murmur_hash (fill files crc32c murmur_hash file e es) in
            elim (close_table_lem v _ built out (rw good at done)) [
              | inl left ↦ inl left
              | inr (taken, same) ↦ inr (
                taken,
                subst (IsRecorded v (e ∷ es) file_meta) (sym same)
                    (recorded v e es file_meta built.offset),
              )
            ]
      ]

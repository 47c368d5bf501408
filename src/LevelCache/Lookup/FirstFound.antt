-- ===== src/LevelCache/Lookup/FirstFound.antt =====
-- The lookup in the levels gives the newest answer that there is.
use lsmkv.Base.{
  ◌≡◌, refl, sym, ◌∙◌, ap, ap₂, List, [], ◌∷◌, ◌++◌, Option, some, true, false, if◌then◌else◌,
  Bool-cases, inl, inr, ◌⊎◌, All, All-append_left, All-append_right, ◌&&◌, All-append, false,
}
use lsmkv.Base.OrderedMap.{values}
use lsmkv.Keys.{QueryKey}
use lsmkv.Status.{Code, ok, not_found, is_ok, is_not_found}
use lsmkv.Format.{SstFileMeta, VLogEntryInfo, in_range}
use lsmkv.LevelCache.{Level, Cache}
use lsmkv.LevelCache.Lookup.{
  reverse_view, files_in_range, read_level, unless_ok, get_levels, if_not_found, get,
}
use lsmkv.Reader.Files.{Lookup, no_location, first_answer, read_async_batch, read_batch}

-- The files that a lookup asks, the newest versions first.
abbrev pub later_files : QueryKey → Cache → List SstFileMeta
later_files key [] = []
later_files key (level ∷ levels) = files_in_range key (values level) ++ later_files key levels

abbrev pub asked_files : QueryKey → Level → Cache → List SstFileMeta
asked_files key level0 levels =
    files_in_range key (reverse_view (values level0)) ++ later_files key levels

-- The answer of the first file that has the key.
unfoldable pub first_found :
    (SstFileMeta → Code × VLogEntryInfo) → List SstFileMeta → Code × VLogEntryInfo
first_found answer [] = (not_found, no_location)
first_found answer (f ∷ fs) = if is_ok (answer f).0 then answer f else first_found answer fs

module _ (lookup : Lookup) (answer : SstFileMeta → Code × VLogEntryInfo) where
  -- A file answers with a location, or that it does not have the key.
  abbrev pub Answers : SstFileMeta → Type 0
  Answers f =
      (lookup f no_location ≡ some (answer f))
      × (((answer f).0 ≡ ok) ⊎ (answer f ≡ (not_found, no_location)))

  first_found_here :
      (f : SstFileMeta) (fs : List SstFileMeta)
      → (answer f).0 ≡ ok
      → first_found answer (f ∷ fs) ≡ answer f
  unfolding first_found is_ok
  first_found_here f fs e = ap (λ c. if is_ok c then answer f else first_found answer fs) e

  first_found_later :
      (f : SstFileMeta) (fs : List SstFileMeta)
      → answer f ≡ (not_found, no_location)
      → first_found answer (f ∷ fs) ≡ first_found answer fs
  unfolding first_found is_ok
  first_found_later f fs e = ap (λ a. if is_ok a.0 then answer f else first_found answer fs) e

  first_found-kind :
      (fs : List SstFileMeta)
      → All Answers fs
      → ((first_found answer fs).0 ≡ ok) ⊎ (first_found answer fs ≡ (not_found, no_location))
  unfolding first_found
  first_found-kind [] h = inr refl
  first_found-kind (f ∷ fs) h = elim h.0.1 [
    | inl here ↦ inl (ap (λ a. a.0) (first_found_here f fs here) ∙ here)
    | inr gone ↦ rw (first_found_later f fs gone) (first_found-kind fs h.1)
  ]

  read_async_batch-first_found :
      (fs : List SstFileMeta)
      → All Answers fs
      → read_async_batch lookup fs no_location ≡ some (first_found answer fs)
  unfolding read_async_batch first_found is_ok is_not_found
  read_async_batch-first_found [] h = refl
  read_async_batch-first_found (f ∷ fs) h =
      let both = ap₂ (first_answer no_location) h.0.0 (read_async_batch-first_found fs h.1) in
      elim h.0.1 [
        | inl here ↦
            both
            ∙ ap
                (λ c. some (
                  if is_ok c
                  then (ok, (answer f).1)
                  else if is_not_found c
                  then first_found answer fs
                  else (c, no_location)))
                here
            ∙ ap (λ c. some (c, (answer f).1)) (sym here)
            ∙ ap some (sym (first_found_here f fs here))
        | inr gone ↦
            both
            ∙ ap
                (λ a. some (
                  if is_ok a.0
                  then (ok, a.1)
                  else if is_not_found a.0
                  then first_found answer fs
                  else (a.0, no_location)))
                gone
            ∙ ap some (sym (first_found_later f fs gone))
      ]

  read_batch-first_found :
      (fs : List SstFileMeta)
      → All Answers fs
      → read_batch lookup fs no_location ≡ some (first_found answer fs)
  unfolding read_batch first_found
  read_batch-first_found [] h = read_async_batch-first_found [] h
  read_batch-first_found (f ∷ g ∷ fs) h = read_async_batch-first_found (f ∷ g ∷ fs) h
  read_batch-first_found (f ∷ []) h = h.0.0 ∙ (elim h.0.1 [
    | inl here ↦ ap some (sym (first_found_here f [] here))
    | inr gone ↦ ap some (gone ∙ sym (first_found_later f [] gone))
  ])

  read_level-first_found :
      (fs : List SstFileMeta)
      → All Answers fs
      → read_level lookup fs (not_found, no_location) ≡ some (first_found answer fs)
  unfolding first_found
  read_level-first_found [] h = refl
  read_level-first_found (f ∷ fs) h = read_batch-first_found (f ∷ fs) h

  -- A success in front hides the rest, and a failure leaves it.
  first_found-append :
      (xs ys : List SstFileMeta)
      → first_found answer (xs ++ ys)
        ≡ (if is_ok (first_found answer xs).0 then first_found answer xs else first_found answer ys)
  unfolding first_found is_ok
  first_found-append [] ys = refl
  first_found-append (f ∷ xs) ys = elim (Bool-cases (is_ok (answer f).0)) [
    | inl here ↦ rw here (rw here refl)
    | inr gone ↦ rw (gone) (first_found-append xs ys)
  ]

  unless_ok_lem :
      (a b : Code × VLogEntryInfo) (later : Code × VLogEntryInfo → Option (Code × VLogEntryInfo))
      → (a.0 ≡ ok) ⊎ (a ≡ (not_found, no_location))
      → later (not_found, no_location) ≡ some b
      → unless_ok (some a) later ≡ some (if is_ok a.0 then a else b)
  unfolding is_ok
  unless_ok_lem a b later (inl good) h =
      let known : is_ok a.0 ≡ true = ap is_ok good in rw known refl
  unless_ok_lem a b later (inr gone) h =
      let known : is_ok a.0 ≡ false = ap (λ s. is_ok s.0) gone in rw known (ap later gone ∙ h)

  if_not_found_lem :
      (a b : Code × VLogEntryInfo) (later : Code × VLogEntryInfo → Option (Code × VLogEntryInfo))
      → (a.0 ≡ ok) ⊎ (a ≡ (not_found, no_location))
      → later (not_found, no_location) ≡ some b
      → if_not_found (some a) later ≡ some (if is_ok a.0 then a else b)
  unfolding is_ok is_not_found
  if_not_found_lem a b later (inl good) h =
      let known : is_ok a.0 ≡ true = ap is_ok good in
      let other : is_not_found a.0 ≡ false = ap is_not_found good in rw (known, other) refl
  if_not_found_lem a b later (inr gone) h =
      let known : is_ok a.0 ≡ false = ap (λ s. is_ok s.0) gone in
      let other : is_not_found a.0 ≡ true = ap (λ s. is_not_found s.0) gone in
      rw (known, other) (ap later gone ∙ h)

  get_levels-first_found :
      (key : QueryKey) (levels : Cache)
      → All Answers (later_files key levels)
      → get_levels lookup key levels (not_found, no_location)
        ≡ some (first_found answer (later_files key levels))
  unfolding get_levels first_found is_ok
  get_levels-first_found key [] h = refl
  get_levels-first_found key (level ∷ levels) h =
      let now = files_in_range key (values level) in
      let front = All-append_left Answers now (later_files key levels) h in
      let back = All-append_right Answers now (later_files key levels) h in
      let here = read_level-first_found now front in
      let rest = get_levels-first_found key levels back in
      rw (here, first_found-append now (later_files key levels))
        (unless_ok_lem (first_found answer now) (first_found answer (later_files key levels))
          (get_levels lookup key levels) (first_found-kind now front) rest)

  files_first_found :
      (key : QueryKey) (level0 : Level) (levels : Cache)
      → All Answers (asked_files key level0 levels)
      → get lookup key (level0 ∷ levels) no_location
        ≡ some (first_found answer (asked_files key level0 levels))
  unfolding get is_not_found
  files_first_found key level0 levels h =
      let now = files_in_range key (reverse_view (values level0)) in
      let front = All-append_left Answers now (later_files key levels) h in
      let back = All-append_right Answers now (later_files key levels) h in
      rw (read_level-first_found now front, first_found-append now (later_files key levels))
        (if_not_found_lem (first_found answer now) (first_found answer (later_files key levels))
          (get_levels lookup key levels) (first_found-kind now front)
          (get_levels-first_found key levels back))

  -- What the files of level 0 say of the key: the file with the highest number that has it, of those with
  -- the key in their range.
  unfoldable pub newest_found : QueryKey → Level → Code × VLogEntryInfo
  newest_found key [] = (not_found, no_location)
  newest_found key ((n, f) ∷ level) =
      let newer = newest_found key level in
      if is_ok newer.0
      then newer
      else if in_range f key && is_ok (answer f).0
      then answer f
      else (not_found, no_location)

  -- What the files of later levels say of it: the first file that has it, level by level.
  unfoldable pub level_found : QueryKey → Level → Code × VLogEntryInfo
  level_found key [] = (not_found, no_location)
  level_found key ((n, f) ∷ level) =
      let rest = level_found key level in
      if in_range f key && is_ok (answer f).0 then answer f else rest

  unfoldable pub levels_found : QueryKey → Cache → Code × VLogEntryInfo
  levels_found key [] = (not_found, no_location)
  levels_found key (level ∷ levels) =
      let here = level_found key level in
      let later = levels_found key levels in if is_ok here.0 then here else later

  -- Each file with the key in its range answers.
  abbrev pub Knows : QueryKey → SstFileMeta → Type 0
  Knows key f = (in_range f key ≡ false) ⊎ Answers f

  abbrev pub LevelsKnow : QueryKey → Cache → Type 0
  LevelsKnow key [] = Unit
  LevelsKnow key (level ∷ levels) = All (Knows key) (values level) × LevelsKnow key levels

  files_in_range-append :
      (key : QueryKey) (xs ys : List SstFileMeta)
      → files_in_range key (xs ++ ys) ≡ files_in_range key xs ++ files_in_range key ys
  unfolding files_in_range
  files_in_range-append key [] ys = refl
  files_in_range-append key (f ∷ xs) ys = elim (Bool-cases (in_range f key)) [
    | inl has ↦ rw has (ap (◌∷◌ f) (files_in_range-append key xs ys))
    | inr lacks ↦ rw lacks (files_in_range-append key xs ys)
  ]

  first_found-one :
      (key : QueryKey) (f : SstFileMeta)
      → first_found answer (files_in_range key (f ∷ []))
        ≡ (if in_range f key && is_ok (answer f).0 then answer f else (not_found, no_location))
  unfolding files_in_range first_found
  first_found-one key f = elim (Bool-cases (in_range f key)) [
    | inl has ↦ rw has refl
    | inr lacks ↦ rw lacks refl
  ]

  first_found-newest :
      (key : QueryKey) (level : Level)
      → first_found answer (files_in_range key (reverse_view (values level)))
        ≡ newest_found key level
  unfolding newest_found reverse_view first_found files_in_range
  first_found-newest key [] = refl
  first_found-newest key ((n, f) ∷ level) =
      rw
        (
          files_in_range-append key (reverse_view (values level)) (f ∷ []),
          first_found-append (files_in_range key (reverse_view (values level)))
              (files_in_range key (f ∷ [])),
          first_found-newest key level,
          first_found-one key f,
        )
        refl

  first_found-level :
      (key : QueryKey) (level : Level)
      → first_found answer (files_in_range key (values level)) ≡ level_found key level
  unfolding level_found files_in_range first_found
  first_found-level key [] = refl
  first_found-level key ((n, f) ∷ level) = elim (Bool-cases (in_range f key)) [
    | inl has ↦ rw (has, first_found-level key level) refl
    | inr lacks ↦ rw lacks (first_found-level key level)
  ]

  first_found-levels :
      (key : QueryKey) (levels : Cache)
      → first_found answer (later_files key levels) ≡ levels_found key levels
  unfolding levels_found first_found
  first_found-levels key [] = refl
  first_found-levels key (level ∷ levels) =
      rw
        (
          first_found-append (files_in_range key (values level)) (later_files key levels),
          first_found-level key level,
          first_found-levels key levels,
        )
        refl

  in_range-Answers :
      (key : QueryKey) (fs : List SstFileMeta)
      → All (Knows key) fs
      → All Answers (files_in_range key fs)
  unfolding files_in_range
  in_range-Answers key [] h = tt
  in_range-Answers key (f ∷ fs) h = elim (Bool-cases (in_range f key)) [
    | inl has ↦ rw has (elim h.0 [
      | inl lacks ↦ absurd (cc)
      | inr answers ↦ (answers, in_range-Answers key fs h.1)
    ])
    | inr lacks ↦ rw lacks (in_range-Answers key fs h.1)
  ]

  reverse_view-All :
      (P : SstFileMeta → Type 0) (fs : List SstFileMeta) → All P fs → All P (reverse_view fs)
  unfolding reverse_view
  reverse_view-All P [] h = tt
  reverse_view-All P (f ∷ fs) h =
      All-append P (reverse_view fs) (f ∷ []) (reverse_view-All P fs h.1) (h.0, tt)

  later-Answers :
      (key : QueryKey) (levels : Cache)
      → LevelsKnow key levels
      → All Answers (later_files key levels)
  later-Answers key [] h = tt
  later-Answers key (level ∷ levels) h =
      All-append Answers (files_in_range key (values level)) (later_files key levels)
        (in_range-Answers key (values level) h.0) (later-Answers key levels h.1)

  -- Suppose that each file that has the key in its range answers with a location, or that it does not
  -- have the key. Then the lookup gives what the file of level 0 with the highest number says that has
  -- the key, if there is one, and else the first that has it in the later levels, level by level and in
  -- the order of the numbers; if no file has the key, it is not found.
  pub get-first_found :
      (key : QueryKey) (level0 : Level) (levels : Cache)
      → All (Knows key) (values level0)
      → LevelsKnow key levels
      → get lookup key (level0 ∷ levels) no_location
        ≡ some (
            if is_ok (newest_found key level0).0
            then newest_found key level0
            else levels_found key levels)
  get-first_found key level0 levels h later =
      let now = files_in_range key (reverse_view (values level0)) in
      files_first_found key level0 levels (
        All-append Answers now (later_files key levels)
          (in_range-Answers key (reverse_view (values level0))
            (reverse_view-All (Knows key) (values level0) h))
          (later-Answers key levels later))
      ∙ ap some (
          rw
            (
              first_found-append now (later_files key levels),
              first_found-newest key level0,
              first_found-levels key levels,
            )
            refl)

-- ===== src/Lru/Laws.antt =====
-- What a lookup gives after a use of the cache.
use lsmkv.Base.{
  ℕ, ◌-◌, ◌≤◌, ◌<◌, ◌≡◌, ◌≢◌, refl, ap, arith, List, [], ◌∷◌, ◌++◌, true, ◌==◌, ◌⊎◌, inl, inr,
  Bool-cases, Option, none, some, length,
}
use lsmkv.Lru.{lookup, erase_key, drop_last, put, get, to_front}

module _ {V : Type 0} where
  length-erase_key : (k : ℕ) (l : List (ℕ × V)) → length (erase_key k l) ≤ length l
  unfolding erase_key
  length-erase_key k [] = omega arith
  length-erase_key k ((j, v) ∷ l) = ground (arith, length-erase_key k l)

  length-drop_last : (l : List (ℕ × V)) → length (drop_last l) ≡ length l - 1
  unfolding drop_last
  length-drop_last [] = omega arith
  length-drop_last (p ∷ []) = omega arith
  length-drop_last (p ∷ q ∷ l) = omega (arith, length-drop_last (q ∷ l))

  lookup-erase_key : (j k : ℕ) (l : List (ℕ × V)) → j ≢ k → lookup j (erase_key k l) ≡ lookup j l
  unfolding erase_key lookup
  lookup-erase_key j k [] ne = refl
  lookup-erase_key j k ((i, v) ∷ l) ne = ground (arith, lookup-erase_key j k l ne)

  found-cases : (o : Option V) → (o ≡ none) ⊎ ((v : V) × (o ≡ some v))
  found-cases none = inl refl
  found-cases (some v) = inr (v, refl)

  -- No key stands twice in the list.
  abbrev pub IsUnique : List (ℕ × V) → Type 0
  IsUnique [] = Unit
  IsUnique ((k, v) ∷ l) = (lookup k l ≡ none) × IsUnique l

  lookup-absent : (j k : ℕ) (l : List (ℕ × V)) → lookup j l ≡ none → lookup j (erase_key k l) ≡ none
  unfolding erase_key lookup
  lookup-absent j k [] e = refl
  lookup-absent j k ((i, v) ∷ l) e = ground (arith, e, lookup-absent j k l)

  erase_key-IsUnique : (k : ℕ) (l : List (ℕ × V)) → IsUnique l → IsUnique (erase_key k l)
  unfolding erase_key
  erase_key-IsUnique k [] h = tt
  erase_key-IsUnique k ((i, v) ∷ l) h =
      ground (arith, h.0, h.1, erase_key-IsUnique k l, lookup-absent i k l)

  lookup-erase_key_self : (k : ℕ) (l : List (ℕ × V)) → IsUnique l → lookup k (erase_key k l) ≡ none
  unfolding erase_key lookup
  lookup-erase_key_self k [] h = refl
  lookup-erase_key_self k ((i, v) ∷ l) h = ground (arith, h.0, lookup-erase_key_self k l h.1)

  erase_key-absent : (k : ℕ) (l : List (ℕ × V)) → lookup k l ≡ none → erase_key k l ≡ l
  unfolding erase_key lookup
  erase_key-absent k [] e = refl
  erase_key-absent k ((i, v) ∷ l) e = ground (arith, e, erase_key-absent k l)

  length-erase_key_found :
      (k : ℕ) (v : V) (l : List (ℕ × V)) → lookup k l ≡ some v → length (erase_key k l) < length l
  unfolding erase_key lookup
  length-erase_key_found k v [] e = cc
  length-erase_key_found k v ((i, w) ∷ l) e = ground (arith, e, length-erase_key_found k v l)

  lookup-drop_last : (k : ℕ) (l : List (ℕ × V)) → lookup k l ≡ none → lookup k (drop_last l) ≡ none
  unfolding drop_last lookup
  lookup-drop_last k [] e = refl
  lookup-drop_last k (p ∷ []) e = refl
  lookup-drop_last k ((i, v) ∷ q ∷ l) e = ground (arith, e, lookup-drop_last k (q ∷ l))

  drop_last-IsUnique : (l : List (ℕ × V)) → IsUnique l → IsUnique (drop_last l)
  unfolding drop_last
  drop_last-IsUnique [] h = tt
  drop_last-IsUnique (p ∷ []) h = tt
  drop_last-IsUnique ((i, v) ∷ q ∷ l) h =
      (lookup-drop_last i (q ∷ l) h.0, drop_last-IsUnique (q ∷ l) h.1)

  drop_last_lem :
      (l : List (ℕ × V)) → 0 < length l → (last : ℕ × V) × (l ≡ drop_last l ++ (last ∷ []))
  unfolding drop_last
  drop_last_lem [] h = absurd (omega arith)
  drop_last_lem (p ∷ []) h = (p, refl)
  drop_last_lem (p ∷ q ∷ l) h =
      let (last, e) = drop_last_lem (q ∷ l) (ground arith) in (last, ap (◌∷◌ p) e)

  -- A new key in a full list takes the place of the last pair.
  abbrev pub Evicts : ℕ → ℕ → V → List (ℕ × V) → List (ℕ × V) → Type 0
  Evicts capacity k v l after =
      (lookup k l ≡ none)
      × (length l ≡ capacity)
      × (last : ℕ × V) × (kept : List (ℕ × V)) × (l ≡ kept ++ (last ∷ []))
      × (after ≡ (k, v) ∷ kept)

  put-Evicts :
      (capacity k : ℕ) (v : V) (l : List (ℕ × V))
      → 0 < capacity
      → lookup k l ≡ none
      → length l ≡ capacity
      → Evicts capacity k v l (put capacity k v l)
  unfolding put
  put-Evicts capacity k v l pos gone full =
      let (last, e) = drop_last_lem l (omega arith) in
      let same = erase_key-absent k l gone in
      let whole : (length (erase_key k l) == capacity) ≡ true = rw same (ground arith) in
      (gone, full, last, drop_last l, e, rw (whole, same) refl)

  -- With room behind the erased pair, the others stay.
  put-keeps :
      (capacity k j : ℕ) (v : V) (l : List (ℕ × V))
      → j ≢ k
      → length (erase_key k l) < capacity
      → lookup j (put capacity k v l) ≡ lookup j l
  unfolding put lookup
  put-keeps capacity k j v l other room = ground (arith, lookup-erase_key j k l other)

  -- A put into a list within its capacity, in which no key stands twice, leaves such a list, in which the
  -- key has its value. If the key is new and the list is full, what is left behind the new pair is the
  -- list without its last pair; otherwise every other key keeps its value.
  pub put_lem :
      (capacity k j : ℕ) (v : V) (l : List (ℕ × V))
      → 0 < capacity
      → length l ≤ capacity
      → IsUnique l
      → j ≢ k
      → IsUnique (put capacity k v l)
        × (length (put capacity k v l) ≤ capacity)
        × (lookup k (put capacity k v l) ≡ some v)
        × (Evicts capacity k v l (put capacity k v l)
            ⊎ (lookup j (put capacity k v l) ≡ lookup j l))
  unfolding put lookup
  put_lem capacity k j v l pos fit once other =
      let kept = erase_key k l in
      let unique = erase_key-IsUnique k l once in
      let gone = lookup-erase_key_self k l once in
      (
        ground (arith, unique, gone, drop_last-IsUnique kept unique, lookup-drop_last k kept gone),
        ground (arith, length-erase_key k l, length-drop_last kept),
        ground arith,
        elim (found-cases (lookup k l)) [
          | inr (old, there) ↦ inr (
              put-keeps capacity k j v l other
                (omega (arith, length-erase_key_found k old l there)))
          | inl new ↦ elim (Bool-cases (length l == capacity)) [
            | inl full ↦ inl (put-Evicts capacity k v l pos new (ground arith))
            | inr room ↦
                inr (put-keeps capacity k j v l other (ground (arith, length-erase_key k l)))
          ]
        ],
      )

  front-keeps :
      (k j : ℕ) (l : List (ℕ × V)) (o : Option V)
      → lookup k l ≡ o
      → lookup j (to_front k o l) ≡ lookup j l
  unfolding lookup
  front-keeps k j l none e = refl
  front-keeps k j l (some v) e = ground (arith, e, lookup-erase_key j k l)

  -- A use of a key gives its value and changes no lookup, and the pair of a key that is there stands in
  -- front of the others.
  pub get_lem :
      (k j : ℕ) (v : V) (l : List (ℕ × V))
      → lookup k l ≡ some v
      → ((get k l).0 ≡ some v)
        × (lookup j (get k l).1 ≡ lookup j l)
        × ((get k l).1 ≡ (k, v) ∷ erase_key k l)
  unfolding get
  get_lem k j v l e = (e, front-keeps k j l (lookup k l) refl, rw e refl)

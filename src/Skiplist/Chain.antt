-- ===== src/Skiplist/Chain.antt =====
-- Chains of nodes. The nodes of a list, in order, are linked at a level if each node that is taller
-- than the level points at the next such node.
use lsmkv.Base.{
  ℕ, ◌≤◌, ◌<◌, ◌≡◌, ◌≢◌, refl, ap, ◌∙◌, ◌⊎◌, inl, inr, arith, List, [], ◌∷◌, ◌++◌, true, false,
  Option, none, some, All, length, ltb, if◌then◌else◌, Bool-cases, All-map, All-zip, sym,
  All-append_left,
}

module _ (ht : ℕ → ℕ) (l : ℕ) where
  -- The first node above the level, and the last one, if the chain starts at `cur`.
  unfoldable pub first_tall : List ℕ → Option ℕ
  first_tall [] = none
  first_tall (i ∷ r) = let rest = first_tall r in if ltb l (ht i) then some i else rest

  unfoldable pub last_tall : ℕ → List ℕ → ℕ
  last_tall cur [] = cur
  last_tall cur (i ∷ b) = last_tall (if ltb l (ht i) then i else cur) b

  abbrev pub IsShort : ℕ → Type 0
  IsShort i = ht i ≤ l

  pub last_tall_short : (cur : ℕ) (b : List ℕ) → All IsShort b → last_tall cur b ≡ cur
  unfolding last_tall
  last_tall_short cur [] h = refl
  last_tall_short cur (i ∷ b) h = ground (arith, last_tall_short cur b h.1)

  pub last_tall_skip :
      (cur : ℕ) (s : List ℕ) (i : ℕ) (r : List ℕ)
      → l < ht i
      → last_tall cur (s ++ (i ∷ r)) ≡ last_tall i r
  unfolding last_tall
  last_tall_skip cur [] i r h = ground arith
  last_tall_skip cur (j ∷ s) i r h = last_tall_skip (if ltb l (ht j) then j else cur) s i r h

  pub first_tall_short : (b a : List ℕ) → All IsShort b → first_tall (b ++ a) ≡ first_tall a
  unfolding first_tall
  first_tall_short [] a h = refl
  first_tall_short (i ∷ b) a h = ground (arith, first_tall_short b a h.1)

  pub first_tall_skip :
      (s : List ℕ) (i : ℕ) (r : List ℕ)
      → All IsShort s
      → l < ht i
      → first_tall (s ++ (i ∷ r)) ≡ some i
  unfolding first_tall
  first_tall_skip [] i r h k = ground arith
  first_tall_skip (j ∷ s) i r h k = ground (arith, first_tall_skip s i r h.1 k)

  -- The nodes in front of the first one above the level are short.
  pub tall_split :
      (b : List ℕ)
      → All IsShort b
        ⊎ ((s : List ℕ) × (i : ℕ) × (r : List ℕ) × (b ≡ s ++ (i ∷ r))
            × (l < ht i)
            × All IsShort s
            × (length r < length b))
  tall_split [] = inl tt
  tall_split (j ∷ b) = elim (Bool-cases (ltb l (ht j))) [
    | inl t ↦ inr ([], j, b, refl, ground arith, tt, omega arith)
    | inr f ↦ elim (tall_split b) [
      | inl h ↦ inl (ground arith, h)
      | inr (s, i, r, e, t, h, k) ↦
          inr (j ∷ s, i, r, ap (◌∷◌ j) e, t, (ground arith, h), omega arith)
    ]
  ]

  module _ (nx : ℕ → ℕ → Option ℕ) where
    abbrev pub Linked : ℕ → List ℕ → Type 0
    Linked cur [] = nx cur l ≡ none
    Linked cur (i ∷ r) = (l < ht i → (nx cur l ≡ some i) × Linked i r) × (ht i ≤ l → Linked cur r)

    pub next-eq-first_tall : (cur : ℕ) (r : List ℕ) → Linked cur r → nx cur l ≡ first_tall r
    unfolding first_tall
    next-eq-first_tall cur [] h = h
    next-eq-first_tall cur (i ∷ r) h = elim (Bool-cases (ltb l (ht i))) [
      | inl t ↦ rw t (h.0 (ground arith)).0
      | inr f ↦ rw f (next-eq-first_tall cur r (h.1 (ground arith)))
    ]

    pub Linked-skip :
        (cur : ℕ) (s : List ℕ) (i : ℕ) (r : List ℕ)
        → Linked cur (s ++ (i ∷ r))
        → l < ht i
        → Linked i r
    Linked-skip cur [] i r h k = (h.0 k).1
    Linked-skip cur (j ∷ s) i r h k = elim (Bool-cases (ltb l (ht j))) [
      | inl t ↦ Linked-skip j s i r (h.0 (ground arith)).1 k
      | inr f ↦ Linked-skip cur s i r (h.1 (ground arith)) k
    ]

-- No number stands twice.
abbrev pub Distinct : List ℕ → Type 0
Distinct [] = Unit
Distinct (i ∷ r) = All (λ j. i ≢ j) r × Distinct r

pub last_tall-All :
    (ht : ℕ → ℕ) (l : ℕ) (P : ℕ → Type 0) (cur : ℕ) (b : List ℕ)
    → P cur
    → All P b
    → P (last_tall ht l cur b)
unfolding last_tall
last_tall-All ht l P cur [] h k = h
last_tall-All ht l P cur (i ∷ b) h k = elim (Bool-cases (ltb l (ht i))) [
  | inl t ↦ rw (t, last_tall) (last_tall-All ht l P i b k.0 k.1)
  | inr f ↦ rw (f, last_tall) (last_tall-All ht l P cur b h k.1)
]

-- The last node above the level in the front part does not stand in the back part.
last_tall-Distinct :
    (ht : ℕ → ℕ) (l cur : ℕ) (b a : List ℕ)
    → Distinct (cur ∷ (b ++ a))
    → All (λ j. last_tall ht l cur b ≢ j) a
unfolding last_tall
last_tall-Distinct ht l cur [] a h = h.0
last_tall-Distinct ht l cur (i ∷ b) a h = elim (Bool-cases (ltb l (ht i))) [
  | inl t ↦ rw (t, last_tall) (last_tall-Distinct ht l i b a h.1)
  | inr f ↦ rw (f, last_tall) (last_tall-Distinct ht l cur b a (h.0.1, h.1.1))
]

-- The links from `cur` on read only the pointers of `cur` and of the nodes behind it, so another
-- node that points where `cur` points can stand in its place.
pub Linked-agree :
    (ht ht' : ℕ → ℕ) (l : ℕ) (nx nx' : ℕ → ℕ → Option ℕ) (cur cur' : ℕ) (r : List ℕ)
    → nx' cur' l ≡ nx cur l
    → All (λ i. (nx' i l ≡ nx i l) × (ht' i ≡ ht i)) r
    → Linked ht l nx cur r
    → Linked ht' l nx' cur' r
Linked-agree ht ht' l nx nx' cur cur' [] e h k = e ∙ k
Linked-agree ht ht' l nx nx' cur cur' (i ∷ r) e h k = (
  λ t. let (a, b) = k.0 (rw (← h.0.1) t) in (e ∙ a, Linked-agree ht ht' l nx nx' i i r h.0.0 h.1 b),
  λ t. Linked-agree ht ht' l nx nx' cur cur' r e h.1 (k.1 (rw (← h.0.1) t)),
)

module _ (ht ht' : ℕ → ℕ) (l n : ℕ) (nx nx' : ℕ → ℕ → Option ℕ) (p : ℕ)
    (height : (i : ℕ) → i ≢ n → ht' i ≡ ht i) (tall : l < ht' n) (into : nx' p l ≡ some n)
    (out : nx' n l ≡ nx p l) (agree : (i : ℕ) → i ≢ p → i ≢ n → nx' i l ≡ nx i l) where
  -- A node put in behind the last tall node of the front part is linked at the level.
  pub Linked-insert :
      (cur : ℕ) (b a : List ℕ)
      → p ≡ last_tall ht l cur b
      → Distinct (cur ∷ (b ++ a))
      → cur ≢ n
      → All (λ i. i ≢ n) (b ++ a)
      → Linked ht l nx cur (b ++ a)
      → Linked ht' l nx' cur (b ++ (n ∷ a))
  unfolding last_tall
  Linked-insert cur [] a e d c f k = (
    λ t. (
      rw (← e) into,
      Linked-agree ht ht' l nx nx' cur n a (rw (← e) out)
          (All-map (λ i h. (agree i (λ q. h.0 (sym e ∙ sym q)) h.1, height i h.1)) a
            (All-zip (λ j. cur ≢ j) (λ j. j ≢ n) a d.0 f))
          k,
    ),
    λ t. absurd (omega arith),
  )
  Linked-insert cur (i ∷ b) a e d c f k = (
    λ t.
        let t' = rw (height i f.0) at t in
        (
          agree cur (cur-ne-p t') c ∙ (k.0 t').0,
          Linked-insert i b a (next_i t') d.1 f.0 f.1 (k.0 t').1,
        ),
    λ t.
        let t' = rw (height i f.0) at t in
        Linked-insert cur b a (next_cur t') (d.0.1, d.1.1) c f.1 (k.1 t'),
  )
    where
      next_i : l < ht i → p ≡ last_tall ht l i b
      next_i t =
          let y : ltb l (ht i) ≡ true = ground arith in
          e ∙ ap (λ x. last_tall ht l (if x then i else cur) b) y

      next_cur : ht i ≤ l → p ≡ last_tall ht l cur b
      next_cur t =
          let y : ltb l (ht i) ≡ false = ground arith in
          e ∙ ap (λ x. last_tall ht l (if x then i else cur) b) y

      cur-ne-p : l < ht i → cur ≢ p
      cur-ne-p t q =
          last_tall-All ht l (λ j. cur ≢ j) i b d.0.0 (All-append_left (λ j. cur ≢ j) b a d.0.1)
            (q ∙ next_i t)

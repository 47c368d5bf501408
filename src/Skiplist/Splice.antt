-- ===== src/Skiplist/Splice.antt =====
-- What an insertion does to the fields of a skip list and to its pointers at every level.
use native.Mathlib.Decide.{dec_lt}
use lsmkv.Base.{
  ℕ, ◌+◌, ◌-◌, ◌≤◌, ◌<◌, ◌≡◌, ◌≢◌, refl, ap, ◌∙◌, ◌⊎◌, inl, inr, arith, Bool, true, false, none,
  some, ltb, if◌then◌else◌,
}
use lsmkv.Skiplist.{Skiplist, update, insert_at, create_node, link_node, fill_prev}
use lsmkv.Skiplist.Link.{fill_prev_lem, link_node_rest, link_node_outside, link_node_inside}

module _ {K : Type 0} (s : Skiplist K) (k : K) (h : ℕ) (prev : ℕ → ℕ) where
  abbrev n : ℕ
  n = s.allocated

  -- The list and the predecessors once the levels in use have grown.
  abbrev pub grown : Bool → Skiplist K
  grown g = if g then record s { max_level = h } else s

  abbrev pub filled : Bool → ℕ → ℕ
  filled g = if g then fill_prev (h - s.max_level) s.max_level prev else prev

  pub grown_fields :
      (g : Bool)
      → ((grown g).key ≡ s.key)
        × ((grown g).height ≡ s.height)
        × ((grown g).next ≡ s.next)
        × ((grown g).allocated ≡ s.allocated)
        × ((grown g).max_level ≡ (if g then h else s.max_level))
  grown_fields true = (refl, refl, refl, refl, refl)
  grown_fields false = (refl, refl, refl, refl, refl)

  abbrev pub test : Bool
  test = ltb s.max_level h

  abbrev pub after : Skiplist K
  after = insert_at s k h prev

  pub after_fields :
      (after.key ≡ update s.key n k)
      × (after.height ≡ update s.height n h)
      × (after.allocated ≡ n + 1)
      × (after.max_level ≡ (if test then h else s.max_level))
  unfolding insert_at create_node
  after_fields =
      let (a, b, c, d) =
        link_node_rest (grown test).allocated (filled test) h 0 (create_node (grown test) k h) in
      let (ka, ha, na, aa, ma) = grown_fields test in
      (
        a ∙ (λ i. update (ka i) (aa i) k),
        b ∙ (λ i. update (ha i) (aa i) h),
        c ∙ ap (λ x. x + 1) aa,
        d ∙ ma,
      )

  -- A level in use keeps its predecessor, and one that was not in use gets the head.
  pub filled_lem :
      (l : ℕ)
      → l < h
      → ((l < s.max_level) × (filled test l ≡ prev l)) ⊎ ((s.max_level ≤ l) × (filled test l ≡ 0))
  filled_lem l lt = elim (dec_lt s.max_level h) [
    | yes p ↦
        let y : test ≡ true = ground arith in
        elim (dec_lt l s.max_level) [
          | yes q ↦ inl (q, rw y ((fill_prev_lem (h - s.max_level) s.max_level prev l).1 (inl q)))
          | no q ↦ inr (
            omega arith,
            rw y (
                (fill_prev_lem (h - s.max_level) s.max_level prev l).0 (omega arith) (omega arith)),
          )
        ]
    | no p ↦ let y : test ≡ false = ground arith in inl (omega arith, rw y refl)
  ]

  -- Above the node's height no pointer of another node changes.
  pub after_above : (l m : ℕ) → h ≤ l → m ≢ n → after.next m l ≡ s.next m l
  unfolding insert_at create_node
  after_above l m a ne =
      let (ka, ha, na, aa, ma) = grown_fields test in
      link_node_outside (grown test).allocated (filled test) h 0 (create_node (grown test) k h) m l
        (inr (omega arith))
      ∙ (λ i. update (na i) (aa i) (λ l. none) m l)
      ∙ ground arith

  abbrev Spliced : (ℕ → ℕ) → Skiplist K → ℕ → Type 0
  Spliced p t l =
      (t.next (p l) l ≡ some n)
      × (t.next n l ≡ s.next (p l) l)
      × ((m : ℕ) → m ≢ p l → m ≢ n → t.next m l ≡ s.next m l)

  created_same : (g : Bool) (l m : ℕ) → m ≢ n → (create_node (grown g) k h).next m l ≡ s.next m l
  unfolding create_node
  created_same true l m o = ground arith
  created_same false l m o = ground arith

  after_below_grown :
      (g : Bool) (l : ℕ)
      → l < h
      → filled g l ≢ n
      → Spliced
          (filled g)
          (link_node h 0 (grown g).allocated (filled g) (create_node (grown g) k h))
          l
  after_below_grown true l a ne =
      let (x, y, z) =
        link_node_inside n (filled true) h 0 (create_node (grown true) k h) l (omega arith)
          (omega arith) ne in
      (x, y ∙ created_same true l (filled true l) ne, λ m o q. z m o q ∙ created_same true l m q)
  after_below_grown false l a ne =
      let (x, y, z) =
        link_node_inside n (filled false) h 0 (create_node (grown false) k h) l (omega arith)
          (omega arith) ne in
      (x, y ∙ created_same false l (filled false l) ne, λ m o q. z m o q ∙ created_same false l m q)

  -- Below it the node stands behind its predecessor.
  pub after_below : (l : ℕ) → l < h → filled test l ≢ n → Spliced (filled test) after l
  unfolding insert_at
  after_below = after_below_grown test

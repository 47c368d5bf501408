-- ===== src/Skiplist/Preserve.antt =====
-- An insertion puts its key in at its place and keeps the invariant of a skip list.
use native.Mathlib.Decide.{dec_lt}
use lsmkv.Base.{
  map, ap₂, ℕ, ◌≤◌, ◌<◌, ◌≡◌, ◌≢◌, refl, sym, ◌∙◌, inl, inr, arith, List, [], ◌∷◌, ◌++◌, true,
  false, none, some, Ordering, All, All-map, All-append, All-append_left, All-append_right,
  length-append, ◌==◌, if◌then◌else◌,
}
use lsmkv.Skiplist.{Skiplist, update, equal, insert, insert_at, random_level}
use lsmkv.Skiplist.Chain.{
  last_tall, last_tall_short, last_tall-All, Linked, Linked-agree, Linked-insert, Distinct,
}
use lsmkv.Skiplist.Search.{IsBelow, IsAbove}
use lsmkv.Skiplist.Link.{Linked-short}
use lsmkv.Skiplist.Insert.{IsOrder, Sorted, IsNode, Holds, first_node, find_set_prev_lem}
use lsmkv.Skiplist.Splice.{filled, test, after_fields, filled_lem, after_above, after_below}
use lsmkv.Skiplist.Level.{random_level_bounds}

module _ {K : Type 0} (cmp : K → K → Ordering) (order : IsOrder cmp) (s : Skiplist K) (k : K)
    (b a : List ℕ) (holds : Holds cmp s (b ++ a)) (below : All (IsBelow cmp s k) b)
    (above : All (IsAbove cmp s k) a) (fresh : equal cmp s k (first_node a) ≡ false) where
  abbrev new : ℕ
  new = s.allocated

  irrefl : (x : K) → cmp x x ≡ Ordering.lt → ⊥
  irrefl x e = ground (arith, order.swap x x)

  -- A sorted list of keys names no node twice.
  Sorted-Distinct : (c : List ℕ) → Sorted cmp s.key c → Distinct c
  Sorted-Distinct [] h = tt
  Sorted-Distinct (i ∷ r) h =
      (All-map (λ j e q. irrefl (s.key i) (rw (sym q) at e)) r h.0, Sorted-Distinct r h.1)

  all-Distinct : Distinct (0 ∷ (b ++ a))
  all-Distinct = (
    All-map (λ j x q. absurd (omega arith)) (b ++ a) holds.nodes,
    Sorted-Distinct (b ++ a) holds.sorted,
  )

  All-old : All (λ i. i ≢ new) (b ++ a)
  All-old = All-map (λ i x q. absurd (omega arith)) (b ++ a) holds.nodes

  -- The new key is below those behind it.
  new_below :
      (r : List ℕ)
      → All (IsAbove cmp s k) r
      → Sorted cmp s.key r
      → equal cmp s k (first_node r) ≡ false
      → All (λ j. cmp k (s.key j) ≡ Ordering.lt) r
  unfolding equal
  new_below [] h o f = tt
  new_below (i ∷ r) h o f =
      let e : cmp k (s.key i) ≡ Ordering.lt = ground (arith, order.swap (s.key i) k, h.0) in
      (e, All-map (λ j x. order.trans k (s.key i) (s.key j) e x) r o.0)

  key_kept : (i : ℕ) → i ≢ new → update s.key new k i ≡ s.key i
  key_kept i o = ground arith

  key_new : update s.key new k new ≡ k
  key_new = ground arith

  kept_below :
      (x : K) (r : List ℕ)
      → All (λ j. j ≢ new) r
      → All (λ j. cmp x (s.key j) ≡ Ordering.lt) r
      → All (λ j. cmp x (update s.key new k j) ≡ Ordering.lt) r
  kept_below x [] o h = tt
  kept_below x (j ∷ r) o h = (rw (key_kept j o.0) h.0, kept_below x r o.1 h.1)

  Sorted-kept :
      (c : List ℕ) → Sorted cmp s.key c → All (λ i. i ≢ new) c → Sorted cmp (update s.key new k) c
  Sorted-kept [] h o = tt
  Sorted-kept (i ∷ r) h o =
      (rw (key_kept i o.0) (kept_below (s.key i) r o.1 h.0), Sorted-kept r h.1 o.1)

  module _ (h : ℕ) (prev : ℕ → ℕ) (low : 1 ≤ h) (high : h ≤ 16)
      (prevs : (m : ℕ) → m < s.max_level → prev m ≡ last_tall s.height m 0 b) where
    abbrev t : Skiplist K
    t = insert_at s k h prev

    nodes_old : All (IsNode cmp s) (b ++ a)
    nodes_old = holds.nodes

    shorts : (l : ℕ) → s.max_level ≤ l → All (λ i. s.height i ≤ l) b
    shorts l m = All-map (λ i x. omega arith) b (All-append_left (IsNode cmp s) b a holds.nodes)

    pred : (l : ℕ) → l < h → filled s k h prev (test s k h prev) l ≡ last_tall s.height l 0 b
    pred l lt = elim (filled_lem s k h prev l lt) [
      | inl (m, e) ↦ e ∙ prevs l m
      | inr (m, e) ↦ e ∙ sym (last_tall_short s.height l 0 b (shorts l m))
    ]

    pred-ne : (l : ℕ) → last_tall s.height l 0 b ≢ new
    pred-ne l =
        last_tall-All s.height l (λ i. i ≢ new) 0 b (λ q. absurd (omega (arith, holds.count)))
          (All-append_left (λ i. i ≢ new) b a All-old)

    height_t : (i : ℕ) → t.height i ≡ (if new == i then h else s.height i)
    height_t i = λ j. (after_fields s k h prev).1 j i

    height_new : t.height new ≡ h
    height_new = height_t new ∙ ground arith

    height_kept : (i : ℕ) → i ≢ new → (if new == i then h else s.height i) ≡ s.height i
    height_kept i o = ground arith

    zero_old : 0 ≢ new
    zero_old q = absurd (omega (arith, holds.count))

    links_t : (l : ℕ) → Linked t.height l t.next 0 (b ++ (new ∷ a))
    links_t l = elim (dec_lt l h) [
      | yes lt ↦
          let e = pred l lt in
          let (into, out, agree) = after_below s k h prev l lt (λ q. pred-ne l (sym e ∙ q)) in
          Linked-insert s.height t.height l new s.next t.next
            (filled s k h prev (test s k h prev) l) (λ i o. height_t i ∙ ground arith)
            (rw height_new lt) into out agree 0 b a e all-Distinct zero_old All-old (holds.links l)
      | no ge ↦
          let up : h ≤ l = omega arith in
          Linked-short t.height l t.next new 0 b a (rw height_new up) (
            Linked-agree s.height t.height l s.next t.next 0 0 (b ++ a)
              (after_above s k h prev l 0 up zero_old)
              (All-map (λ i o. (after_above s k h prev l i up o, height_t i ∙ height_kept i o))
                (b ++ a) All-old)
              (holds.links l))
    ]

    Sorted-t :
        (b : List ℕ)
        → Sorted cmp s.key (b ++ a)
        → All (IsBelow cmp s k) b
        → All (λ i. i ≢ new) (b ++ a)
        → Sorted cmp (update s.key new k) (b ++ (new ∷ a))
    Sorted-t [] o h old =
        (rw key_new (kept_below k a old (new_below a above o fresh)), Sorted-kept a o old)
    Sorted-t (i ∷ b) o h old = (
      rw (key_kept i old.0) (
          All-append (λ j. cmp (s.key i) (update s.key new k j) ≡ Ordering.lt) b (new ∷ a)
            (kept_below (s.key i) b (All-append_left (λ j. j ≢ new) b a old.1)
              (All-append_left (λ j. cmp (s.key i) (s.key j) ≡ Ordering.lt) b a o.0))
            (
              rw key_new (ground (arith, h.0)),
              kept_below (s.key i) a (All-append_right (λ j. j ≢ new) b a old.1)
                  (All-append_right (λ j. cmp (s.key i) (s.key j) ≡ Ordering.lt) b a o.0),
            )),
      Sorted-t b o.1 h.1 old.1,
    )

    max_t : (s.max_level ≤ t.max_level) × (h ≤ t.max_level) × (t.max_level ≤ 16)
    max_t = rw (after_fields s k h prev).3 (ground (arith, holds.high))

    IsNode-t : (i : ℕ) → IsNode cmp s i → IsNode cmp t i
    IsNode-t i x =
        let ne : i ≢ new = omega arith in
        let e = height_t i ∙ height_kept i ne in
        let c = (after_fields s k h prev).2 in omega (arith, max_t)

    -- With the predecessors that the search gives, the new node stands at its place.
    pub insert_at-Holds : Holds cmp t (b ++ (new ∷ a))
    insert_at-Holds = record {
      sorted = rw (after_fields s k h prev).0 (Sorted-t b holds.sorted below All-old);
      nodes =
          All-append (IsNode cmp t) b (new ∷ a)
            (All-map IsNode-t b (All-append_left (IsNode cmp s) b a holds.nodes))
            (
              omega (arith, zero_old, (after_fields s k h prev).2, height_new, max_t),
              All-map IsNode-t a (All-append_right (IsNode cmp s) b a holds.nodes),
            );
      count = omega (
        arith,
        (after_fields s k h prev).2,
        holds.count,
        length-append b a,
        length-append b (new ∷ a),
      );
      low = omega (arith, max_t, low);
      high = max_t.2;
      links = links_t;
    }

    keys_kept : (r : List ℕ) → All (λ i. i ≢ new) r → map (update s.key new k) r ≡ map s.key r
    keys_kept [] o = refl
    keys_kept (i ∷ r) o = ap₂ (λ x y. x ∷ y) (key_kept i o.0) (keys_kept r o.1)

    keys_new :
        (c r : List ℕ)
        → All (λ i. i ≢ new) (c ++ r)
        → map (update s.key new k) (c ++ (new ∷ r)) ≡ map s.key c ++ (k ∷ map s.key r)
    keys_new [] r o = ap₂ (λ x y. x ∷ y) key_new (keys_kept r o)
    keys_new (i ∷ c) r o = ap₂ (λ x y. x ∷ y) (key_kept i o.0) (keys_new c r o.1)

    pub insert_at-keys : map t.key (b ++ (new ∷ a)) ≡ map s.key b ++ (k ∷ map s.key a)
    insert_at-keys = rw (after_fields s k h prev).0 (keys_new b a All-old)

-- On a list that holds its nodes in the order of their keys, `insert` ends for every number that the
-- generator gives. If no node is equal to the key, the key stands behind the nodes below it and in
-- front of the others, which keep their keys, and the new list is linked at every level. If one is,
-- the assertion of the source fails.
pub insert_lem :
    {K : Type 0} (cmp : K → K → Ordering) (order : IsOrder cmp) (s : Skiplist K) (k : K)
    (b a : List ℕ) (rnd : ℕ)
    → Holds cmp s (b ++ a)
    → All (IsBelow cmp s k) b
    → All (IsAbove cmp s k) a
    → (equal cmp s k (first_node a) ≡ true → insert cmp s k rnd ≡ none)
      × (equal cmp s k (first_node a) ≡ false
          → (s' : Skiplist K) × (insert cmp s k rnd ≡ some s')
            × Holds cmp s' (b ++ (s.allocated ∷ a))
            × (map s'.key (b ++ (s.allocated ∷ a)) ≡ map s.key b ++ (k ∷ map s.key a)))
unfolding insert
insert_lem cmp order s k b a rnd holds below above =
    let (prev, e, prevs) = find_set_prev_lem cmp order s k b a holds below above in
    let (low, high) = random_level_bounds rnd in
    (
      λ q. rw (e, q, insert) refl,
      λ f. (
        insert_at s k (random_level rnd) prev,
        rw (e, f, insert) refl,
        insert_at-Holds cmp order s k b a holds below above f (random_level rnd) prev low high
            prevs,
        insert_at-keys cmp order s k b a holds below above f (random_level rnd) prev low high prevs,
      ),
    )

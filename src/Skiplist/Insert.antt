-- ===== src/Skiplist/Insert.antt =====
-- The invariant of a skip list, and that the operations keep it: the nodes of one list, in the order
-- of their keys, are linked at every level.
use lsmkv.Base.{
  ℕ, ◌+◌, ◌-◌, ◌≤◌, ◌<◌, ◌≡◌, refl, sym, ap, ◌∙◌, inl, inr, arith, List, [], ◌∷◌, ◌++◌, true,
  Option, none, some, Ordering, All, All-map, All-append_left, All-append_right, length,
  length-append, Bool-cases,
}
use lsmkv.Comparator.{negate}
use lsmkv.Skiplist.{Skiplist, empty_list, is_lt, equal, find_node, find_set_prev, rounds}
use lsmkv.Skiplist.Chain.{first_tall, last_tall, Linked}
use lsmkv.Skiplist.Search.{IsBelow, IsAbove, find_set_prev_loop_lem, find_node_loop_lem}

-- What the list needs of its comparator.
pub record IsOrder {K : Type 0} (cmp : K → K → Ordering) : Type 0 where
  pub swap : (a b : K) → cmp b a ≡ negate (cmp a b)
  pub trans : (a b c : K) → cmp a b ≡ Ordering.lt → cmp b c ≡ Ordering.lt → cmp a c ≡ Ordering.lt
  pub lt_eq : (a b c : K) → cmp a b ≡ Ordering.lt → cmp b c ≡ Ordering.eq → cmp a c ≡ Ordering.lt

abbrev pub first_node : List ℕ → Option ℕ
first_node [] = none
first_node (i ∷ r) = some i

module _ {K : Type 0} (cmp : K → K → Ordering) where
  abbrev pub Sorted : (ℕ → K) → List ℕ → Type 0
  Sorted key [] = Unit
  Sorted key (i ∷ r) = All (λ j. cmp (key i) (key j) ≡ Ordering.lt) r × Sorted key r

  -- A node in the heap that is not the head, of a height within the list's.
  abbrev pub IsNode : Skiplist K → ℕ → Type 0
  IsNode s i = (0 < i) × (i < s.allocated) × (1 ≤ s.height i) × (s.height i ≤ s.max_level)

  -- The nodes of the list, in order, are those of `c`.
  pub record Holds (s : Skiplist K) (c : List ℕ) : Type 0 where
    pub sorted : Sorted s.key c
    pub nodes : All (IsNode s) c
    pub count : s.allocated ≡ length c + 1
    pub low : 1 ≤ s.max_level
    pub high : s.max_level ≤ 16
    pub links : (l : ℕ) → Linked s.height l s.next 0 c

  -- A new list holds no node.
  pub empty_list-Holds : (default : K) → Holds (empty_list default) []
  unfolding empty_list
  empty_list-Holds default = record {
    sorted = tt;
    nodes = tt;
    count = refl;
    low = omega arith;
    high = omega arith;
    links = λ l. refl;
  }

  module _ (order : IsOrder cmp) where
    lt-IsBelow :
        (key : ℕ → K) (k : K) (i : ℕ) → is_lt (cmp (key i) k) ≡ true → cmp (key i) k ≡ Ordering.lt
    lt-IsBelow key k i h = ground arith

    -- Behind a node that is not below the key no node is below it.
    IsAbove-rest :
        (s : Skiplist K) (k : K) (i : ℕ) (r : List ℕ)
        → IsAbove cmp s k i
        → All (λ j. cmp (s.key i) (s.key j) ≡ Ordering.lt) r
        → All (IsAbove cmp s k) r
    IsAbove-rest s k i r h = All-map (λ j e. go j e) r
      where
        go : (j : ℕ) → cmp (s.key i) (s.key j) ≡ Ordering.lt → IsAbove cmp s k j
        go j e = ground (arith, order.trans (s.key i) (s.key j) k)

    -- A key splits a sorted list.
    pub split_at_key :
        (s : Skiplist K) (k : K) (c : List ℕ)
        → Sorted s.key c
        → (b : List ℕ) × (a : List ℕ) × (c ≡ b ++ a)
          × All (IsBelow cmp s k) b
          × All (IsAbove cmp s k) a
    split_at_key s k [] h = ([], [], refl, tt, tt)
    split_at_key s k (i ∷ r) h = elim (Bool-cases (is_lt (cmp (s.key i) k))) [
      | inl y ↦
          let (b, a, e, hb, ha) = split_at_key s k r h.1 in (i ∷ b, a, ap (◌∷◌ i) e, (y, hb), ha)
      | inr n ↦ ([], i ∷ r, refl, tt, (n, IsAbove-rest s k i r n h.0))
    ]

    first_tall-first_node :
        (s : Skiplist K) (a : List ℕ) → All (IsNode s) a → first_tall s.height 0 a ≡ first_node a
    unfolding first_tall
    first_tall-first_node s [] h = refl
    first_tall-first_node s (i ∷ r) h = ground arith

    module _ (s : Skiplist K) (k : K) (b a : List ℕ) (holds : Holds s (b ++ a))
        (below : All (IsBelow cmp s k) b) (above : All (IsAbove cmp s k) a) where
      nodes_a : All (IsNode s) a
      nodes_a = All-append_right (IsNode s) b a holds.nodes

      nodes_b : All (IsNode s) b
      nodes_b = All-append_left (IsNode s) b a holds.nodes

      enough : length b + (s.max_level - 1) < rounds s
      enough = omega (arith, holds.count, holds.low, length-append b a)

      not-equal_rest :
          (l i : ℕ) (r : List ℕ)
          → All (λ j. cmp (s.key i) (s.key j) ≡ Ordering.lt) r
          → IsAbove cmp s k i
          → equal cmp s k (first_tall s.height l r) ≡ true
          → ⊥
      unfolding first_tall equal
      not-equal_rest l i [] o h e = cc
      not-equal_rest l i (j ∷ r) o h e =
          ground (arith, order.lt_eq (s.key i) (s.key j) k, not-equal_rest l i r o.1 h)

      -- A node that is equal to the key is the first one that is not below it.
      equal_first :
          (l : ℕ) (r : List ℕ)
          → All (IsNode s) r
          → Sorted s.key r
          → All (IsAbove cmp s k) r
          → equal cmp s k (first_tall s.height l r) ≡ true
          → first_tall s.height l r ≡ first_node r
      unfolding first_tall
      equal_first l [] n o h e = refl
      equal_first l (i ∷ r) n o h e = ground (arith, not-equal_rest l i r o.0 h.0)

      pub Sorted-append_right : (b a : List ℕ) → Sorted s.key (b ++ a) → Sorted s.key a
      Sorted-append_right [] a h = h
      Sorted-append_right (i ∷ b) a h = Sorted-append_right b a h.1

      -- `find_node` ends, at the first node whose key is not below the one searched for.
      pub find_node-first_node : find_node cmp s k ≡ some (first_node a)
      unfolding find_node
      find_node-first_node =
          find_node_loop_lem cmp s k a above
            (λ l e.
              equal_first l a nodes_a (Sorted-append_right b a holds.sorted) above e
              ∙ sym (first_tall-first_node s a nodes_a))
            (rounds s) 0 (s.max_level - 1) b below (λ m h. holds.links m) enough
          ∙ ap some (first_tall-first_node s a nodes_a)

      -- `find_set_prev` ends, with the predecessors at the levels in use and that node.
      pub find_set_prev_lem :
          (prev : ℕ → ℕ) × (find_set_prev cmp s k ≡ some (prev, first_node a))
          × ((m : ℕ) → m < s.max_level → prev m ≡ last_tall s.height m 0 b)
      unfolding find_set_prev
      find_set_prev_lem =
          let (prev, e, h, _) =
            find_set_prev_loop_lem cmp s k a above (rounds s) 0 (s.max_level - 1) (λ l. 0) b below
              (λ m h. holds.links m) enough in
          (
            prev,
            e ∙ ap (λ x. some (prev, x)) (first_tall-first_node s a nodes_a),
            λ m l. h m (omega (arith, holds.low)),
          )

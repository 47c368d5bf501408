-- ===== src/Skiplist/Search.antt =====
-- The searches of a skip list, over a list whose nodes are linked at every level. The keys of the
-- front part of the list are below the key that is searched for, and those of the back part are not.
use lsmkv.Base.{
  ℕ, zero, suc, ◌+◌, ◌-◌, ◌≤◌, ◌<◌, ◌≡◌, refl, sym, ap, ◌∙◌, ◌⊎◌, inl, inr, arith, List, [], ◌∷◌,
  ◌++◌, true, false, some, Ordering, All, length, ◌==◌, Bool-cases, append_assoc, All-append_right,
}
use native.Mathlib.Decide.{dec_lt}
use lsmkv.Skiplist.{
  Skiplist, update, is_lt, key_is_after_node, equal, find_node_loop, find_set_prev_loop,
}
use lsmkv.Skiplist.Chain.{
  first_tall, last_tall, IsShort, last_tall_short, last_tall_skip, first_tall_short,
  first_tall_skip, tall_split, Linked, next-eq-first_tall, Linked-skip,
}

module _ {K : Type 0} (cmp : K → K → Ordering) (s : Skiplist K) (k : K) where
  abbrev pub IsBelow : ℕ → Type 0
  IsBelow i = is_lt (cmp (s.key i) k) ≡ true

  abbrev pub IsAbove : ℕ → Type 0
  IsAbove i = is_lt (cmp (s.key i) k) ≡ false

  above_first_tall :
      (l : ℕ) (after : List ℕ)
      → All IsAbove after
      → key_is_after_node cmp s k (first_tall s.height l after) ≡ false
  unfolding key_is_after_node first_tall
  above_first_tall l [] h = refl
  above_first_tall l (i ∷ r) h = ground (arith, above_first_tall l r h.1)

  -- One round of the loop of `find_set_prev`.
  across :
      (fuel cur l i : ℕ) (prev : ℕ → ℕ)
      → s.next cur l ≡ some i
      → IsBelow i
      → find_set_prev_loop cmp (suc fuel) s k cur l prev ≡ find_set_prev_loop cmp fuel s k i l prev
  unfolding find_set_prev_loop key_is_after_node
  across fuel cur l i prev e h = rw (e, find_set_prev_loop, h) refl

  down :
      (fuel cur l : ℕ) (prev : ℕ → ℕ)
      → key_is_after_node cmp s k (s.next cur (suc l)) ≡ false
      → find_set_prev_loop cmp (suc fuel) s k cur (suc l) prev
        ≡ find_set_prev_loop cmp fuel s k cur l (update prev (suc l) cur)
  unfolding find_set_prev_loop
  down fuel cur l prev h =
      let e : suc l - 1 ≡ l = omega arith in
      let z : (suc l == 0) ≡ false = ground arith in rw (h, find_set_prev_loop, z, e) refl

  bottom :
      (fuel cur : ℕ) (prev : ℕ → ℕ)
      → key_is_after_node cmp s k (s.next cur 0) ≡ false
      → find_set_prev_loop cmp (suc fuel) s k cur 0 prev ≡ some (update prev 0 cur, s.next cur 0)
  unfolding find_set_prev_loop
  bottom fuel cur prev h = rw (h, find_set_prev_loop)

  module _ (after : List ℕ) (above : All IsAbove after) where
    -- What the loop finds from `cur`, behind which the nodes `b` of the front part stand: the
    -- predecessor at each level is the last node of the front part above the level, and the node
    -- at the bottom is the first one of the back part.
    abbrev pub FindsPrev : ℕ → ℕ → ℕ → (ℕ → ℕ) → List ℕ → Type 0
    FindsPrev fuel cur l prev b =
        (prev' : ℕ → ℕ) × (find_set_prev_loop cmp fuel s k cur l prev
          ≡ some (prev', first_tall s.height 0 after))
        × ((m : ℕ) → m ≤ l → prev' m ≡ last_tall s.height m cur b)
        × ((m : ℕ) → l < m → prev' m ≡ prev m)

    abbrev LinkedTo : ℕ → ℕ → List ℕ → Type 0
    LinkedTo l cur b = (m : ℕ) → m ≤ l → Linked s.height m s.next cur (b ++ after)

    go_across :
        (fuel cur l : ℕ) (prev : ℕ → ℕ) (t : List ℕ) (i : ℕ) (r : List ℕ)
        → l < s.height i
        → s.next cur l ≡ some i
        → IsBelow i
        → FindsPrev fuel i l prev r
        → FindsPrev (suc fuel) cur l prev (t ++ (i ∷ r))
    go_across fuel cur l prev t i r tall e below (prev', found, at_levels, rest) = (
      prev',
      across fuel cur l i prev e below ∙ found,
      λ m h. at_levels m h ∙ sym (last_tall_skip s.height m cur t i r (omega arith)),
      rest,
    )

    go_down :
        (fuel cur l : ℕ) (prev : ℕ → ℕ) (b : List ℕ)
        → All (IsShort s.height (suc l)) b
        → key_is_after_node cmp s k (s.next cur (suc l)) ≡ false
        → FindsPrev fuel cur l (update prev (suc l) cur) b
        → FindsPrev (suc fuel) cur (suc l) prev b
    go_down fuel cur l prev b short e (prev', found, at_levels, rest) = (
      prev',
      down fuel cur l prev e ∙ found,
      λ m h. elim (dec_lt m (suc l)) [
        | yes p ↦ at_levels m (omega arith)
        | no p ↦
            let q : m ≡ suc l = omega arith in
            rw q (
              rest (suc l) (omega arith)
              ∙ ground arith
              ∙ sym (last_tall_short s.height (suc l) cur b short))
      ],
      λ m h. rest m (omega arith) ∙ ground arith,
    )

    short_next :
        (cur l : ℕ) (b : List ℕ)
        → All (IsShort s.height l) b
        → LinkedTo l cur b
        → s.next cur l ≡ first_tall s.height l after
    short_next cur l b short links =
        next-eq-first_tall s.height l s.next cur (b ++ after) (links l (omega arith))
        ∙ first_tall_short s.height l b after short

    tall_next :
        (cur l : ℕ) (t : List ℕ) (i : ℕ) (r : List ℕ)
        → All (IsShort s.height l) t
        → l < s.height i
        → LinkedTo l cur (t ++ (i ∷ r))
        → s.next cur l ≡ some i
    tall_next cur l t i r short tall links =
        next-eq-first_tall s.height l s.next cur (t ++ (i ∷ r) ++ after) (links l (omega arith))
        ∙ rw append_assoc (first_tall_skip s.height l t i (r ++ after) short tall)

    stop_or_down :
        (fuel cur l : ℕ) (prev : ℕ → ℕ) (b : List ℕ)
        → LinkedTo l cur b
        → All (IsShort s.height l) b
        → ((m : ℕ) (p : ℕ → ℕ) → m < l → FindsPrev fuel cur m p b)
        → FindsPrev (suc fuel) cur l prev b
    stop_or_down fuel cur zero prev b links short rec =
        let n = short_next cur 0 b short links in
        (
          update prev 0 cur,
          bottom fuel cur prev (rw n (above_first_tall 0 after above))
              ∙ ap (λ x. some (update prev 0 cur, x)) n,
          λ m hm.
              let z : m ≡ 0 = omega arith in
              rw z (ground (arith, last_tall_short s.height 0 cur b short)),
          λ m hm. ground arith,
        )
    stop_or_down fuel cur (suc l) prev b links short rec =
        go_down fuel cur l prev b short
          (rw (short_next cur (suc l) b short links) (above_first_tall (suc l) after above))
          (rec l (update prev (suc l) cur) (omega arith))

    -- The loop ends within the rounds that the nodes and levels left allow, and finds these.
    pub find_set_prev_loop_lem :
        (fuel cur l : ℕ) (prev : ℕ → ℕ) (b : List ℕ)
        → All IsBelow b
        → LinkedTo l cur b
        → length b + l < fuel
        → FindsPrev fuel cur l prev b
    find_set_prev_loop_lem zero cur l prev b below links h = absurd (omega arith)
    find_set_prev_loop_lem (suc fuel) cur l prev b below links h = elim (tall_split s.height l b) [
      | inl short ↦ stop_or_down fuel cur l prev b links short (λ m p hm.
          find_set_prev_loop_lem fuel cur m p b below (λ m' h'. links m' (omega arith))
            (omega arith))
      | inr (t, i, r, e, tall, short, len) ↦
          let below' = rw e at below in
          let links' = rw e at links in
          let below_i = All-append_right IsBelow t (i ∷ r) below' in
          rw e (
            go_across fuel cur l prev t i r tall (tall_next cur l t i r short tall links') below_i.0
              (find_set_prev_loop_lem fuel i l prev r below_i.1
                (λ m hm.
                  Linked-skip s.height m s.next cur t i (r ++ after)
                    (rw append_assoc at (links' m hm)) (omega arith))
                (omega arith)))
    ]

    -- One round of the loop of `find_node`.
    node_across :
        (fuel cur l i : ℕ)
        → s.next cur l ≡ some i
        → IsBelow i
        → find_node_loop cmp (suc fuel) s k cur l ≡ find_node_loop cmp fuel s k i l
    unfolding find_node_loop key_is_after_node
    node_across fuel cur l i e h = rw (e, find_node_loop, h) refl

    node_stop :
        (fuel cur l : ℕ)
        → key_is_after_node cmp s k (s.next cur l) ≡ false
        → equal cmp s k (s.next cur l) ≡ true ⊎ (l ≡ 0)
        → find_node_loop cmp (suc fuel) s k cur l ≡ some (s.next cur l)
    unfolding find_node_loop
    node_stop fuel cur l h (inl e) = rw (h, find_node_loop, e) refl
    node_stop fuel cur l h (inr e) = ground arith

    node_down :
        (fuel cur l : ℕ)
        → key_is_after_node cmp s k (s.next cur (suc l)) ≡ false
        → equal cmp s k (s.next cur (suc l)) ≡ false
        → find_node_loop cmp (suc fuel) s k cur (suc l) ≡ find_node_loop cmp fuel s k cur l
    unfolding find_node_loop
    node_down fuel cur l h e =
        let d : suc l - 1 ≡ l = omega arith in
        let z : (suc l == 0) ≡ false = ground arith in rw (h, find_node_loop, e, z, d) refl

    module _
        (first : (l : ℕ)
          → equal cmp s k (first_tall s.height l after) ≡ true
          → first_tall s.height l after ≡ first_tall s.height 0 after) where
      node_stop_or_down :
          (fuel cur l : ℕ) (b : List ℕ)
          → LinkedTo l cur b
          → All (IsShort s.height l) b
          → ((m : ℕ)
              → m < l
              → find_node_loop cmp fuel s k cur m ≡ some (first_tall s.height 0 after))
          → find_node_loop cmp (suc fuel) s k cur l ≡ some (first_tall s.height 0 after)
      node_stop_or_down fuel cur zero b links short rec =
          let n = short_next cur 0 b short links in
          node_stop fuel cur 0 (rw n (above_first_tall 0 after above)) (inr refl) ∙ ap some n
      node_stop_or_down fuel cur (suc l) b links short rec =
          let n = short_next cur (suc l) b short links in
          let a : key_is_after_node cmp s k (s.next cur (suc l)) ≡ false =
            rw n (above_first_tall (suc l) after above) in
          elim (Bool-cases (equal cmp s k (first_tall s.height (suc l) after))) [
            | inl e ↦ node_stop fuel cur (suc l) a (inl (rw n e)) ∙ ap some (n ∙ first (suc l) e)
            | inr e ↦ node_down fuel cur l a (rw n e) ∙ rec l (omega arith)
          ]

      -- The loop of `find_node` ends, at the first node of the back part.
      pub find_node_loop_lem :
          (fuel cur l : ℕ) (b : List ℕ)
          → All IsBelow b
          → LinkedTo l cur b
          → length b + l < fuel
          → find_node_loop cmp fuel s k cur l ≡ some (first_tall s.height 0 after)
      find_node_loop_lem zero cur l b below links h = absurd (omega arith)
      find_node_loop_lem (suc fuel) cur l b below links h = elim (tall_split s.height l b) [
        | inl short ↦ node_stop_or_down fuel cur l b links short (λ m hm.
            find_node_loop_lem fuel cur m b below (λ m' h'. links m' (omega arith)) (omega arith))
        | inr (t, i, r, e, tall, short, len) ↦
            let below_i = All-append_right IsBelow t (i ∷ r) (rw e at below) in
            let links' = rw e at links in
            node_across fuel cur l i (tall_next cur l t i r short tall links') below_i.0
            ∙ find_node_loop_lem fuel i l r below_i.1
                (λ m hm.
                  Linked-skip s.height m s.next cur t i (r ++ after)
                    (rw append_assoc at (links' m hm)) (omega arith))
                (omega arith)
      ]

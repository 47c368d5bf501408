-- ===== src/Skiplist/Link.antt =====
-- The effect of linking a node, pointer by pointer.
use native.Mathlib.Decide.{dec_lt}
use lsmkv.Base.{
  ℕ, zero, suc, ◌+◌, ◌≤◌, ◌<◌, ◌≡◌, ◌≢◌, refl, ◌∙◌, ◌⊎◌, inl, arith, List, [], ◌∷◌, ◌++◌, Option,
  some,
}
use lsmkv.Skiplist.{Skiplist, update, set_next, link_node, fill_prev}
use lsmkv.Skiplist.Chain.{Linked}

-- The levels from `from` on get the head, and the others keep their predecessor.
pub fill_prev_lem :
    (n from : ℕ) (prev : ℕ → ℕ) (j : ℕ)
    → ((from ≤ j) → (j < from + n) → fill_prev n from prev j ≡ 0)
      × ((j < from) ⊎ (from + n ≤ j) → fill_prev n from prev j ≡ prev j)
unfolding fill_prev
fill_prev_lem zero from prev j = (λ a b. absurd (omega arith), λ h. refl)
fill_prev_lem (suc n) from prev j =
    let (inside, outside) = fill_prev_lem n (from + 1) (update prev from 0) j in
    (
      λ a b. elim (dec_lt from j) [
        | yes p ↦ inside (omega arith) (omega arith)
        | no p ↦ outside (inl (omega arith)) ∙ ground arith
      ],
      λ h. outside (omega arith) ∙ ground arith,
    )

module _ {K : Type 0} (n : ℕ) (prev : ℕ → ℕ) where
  -- One round of the loop.
  abbrev link_level : ℕ → Skiplist K → Skiplist K
  link_level i s = set_next (set_next s n i (s.next (prev i) i)) (prev i) i (some n)

  link_level_here :
      (i : ℕ) (s : Skiplist K)
      → prev i ≢ n
      → ((link_level i s).next (prev i) i ≡ some n)
        × ((link_level i s).next n i ≡ s.next (prev i) i)
        × ((m : ℕ) → m ≢ prev i → m ≢ n → (link_level i s).next m i ≡ s.next m i)
  unfolding set_next
  link_level_here i s h = (ground arith, ground arith, λ m a b. ground arith)

  link_level_there : (i j m : ℕ) (s : Skiplist K) → i ≢ j → (link_level i s).next m j ≡ s.next m j
  unfolding set_next
  link_level_there i j m s h = ground arith

  -- Only pointers change.
  pub link_node_rest :
      (left i : ℕ) (s : Skiplist K)
      → ((link_node left i n prev s).key ≡ s.key)
        × ((link_node left i n prev s).height ≡ s.height)
        × ((link_node left i n prev s).allocated ≡ s.allocated)
        × ((link_node left i n prev s).max_level ≡ s.max_level)
  unfolding link_node set_next
  link_node_rest zero i s = (refl, refl, refl, refl)
  link_node_rest (suc left) i s = link_node_rest left (i + 1) (link_level i s)

  -- Other levels keep their pointers.
  pub link_node_outside :
      (left i : ℕ) (s : Skiplist K) (m j : ℕ)
      → (j < i) ⊎ (i + left ≤ j)
      → (link_node left i n prev s).next m j ≡ s.next m j
  unfolding link_node
  link_node_outside zero i s m j h = refl
  link_node_outside (suc left) i s m j h =
      link_node_outside left (i + 1) (link_level i s) m j (omega arith)
      ∙ link_level_there i j m s (omega arith)

  -- At a level of the node, its predecessor points at it and it points where that one did.
  pub link_node_inside :
      (left i : ℕ) (s : Skiplist K) (j : ℕ)
      → i ≤ j
      → j < i + left
      → prev j ≢ n
      → ((link_node left i n prev s).next (prev j) j ≡ some n)
        × ((link_node left i n prev s).next n j ≡ s.next (prev j) j)
        × ((m : ℕ) → m ≢ prev j → m ≢ n → (link_node left i n prev s).next m j ≡ s.next m j)
  unfolding link_node
  link_node_inside zero i s j a b h = absurd (omega arith)
  link_node_inside (suc left) i s j a b h = elim (dec_lt i j) [
    | yes p ↦
        let (x, y, z) =
          link_node_inside left (i + 1) (link_level i s) j (omega arith) (omega arith) h in
        (
          x,
          y ∙ link_level_there i j (prev j) s (omega arith),
          λ m c d. z m c d ∙ link_level_there i j m s (omega arith),
        )
    | no p ↦
        let q : i ≡ j = omega arith in
        let (x, y, z) = link_level_here i s (rw q h) in
        let out =
          λ (m : ℕ). link_node_outside left (i + 1) (link_level i s) m i (inl (omega arith)) in
        rw (← q) (out (prev i) ∙ x, out n ∙ y, λ m c d. out m ∙ z m c d)
  ]

-- A node that is not above the level is linked there wherever it stands.
pub Linked-short :
    (ht : ℕ → ℕ) (l : ℕ) (nx : ℕ → ℕ → Option ℕ) (n cur : ℕ) (b a : List ℕ)
    → ht n ≤ l
    → Linked ht l nx cur (b ++ a)
    → Linked ht l nx cur (b ++ (n ∷ a))
Linked-short ht l nx n cur [] a h k = (λ t. absurd (omega arith), λ t. k)
Linked-short ht l nx n cur (i ∷ b) a h k = (
  λ t. ((k.0 t).0, Linked-short ht l nx n i b a h (k.0 t).1),
  λ t. Linked-short ht l nx n cur b a h (k.1 t),
)

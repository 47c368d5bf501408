-- ===== src/Skiplist.antt =====
-- src/include/skiplist.h. Nodes lie in a heap: a node is a number, in the order of allocation, and
-- 0 is the head. A node's key and its array of next pointers are functions of that number; `none`
-- is the null pointer. Memory orders are not modelled: one thread runs at a time.
pub mod Chain
pub mod Search
pub mod Link
pub mod Insert
pub mod Splice
pub mod Level
pub mod Preserve
pub mod Iterator
mod Tests
use lsmkv.Base.{
  ℕ, zero, suc, ◌+◌, ◌-◌, ◌*◌, ◌/◌, ◌%◌, ◌^◌, Bool, true, false, Option, none, some, Ordering, ltb,
  ◌==◌, if◌then◌else◌, ◌&&◌,
}

abbrev pub max_level_const : ℕ
max_level_const = 16

pub record Skiplist (K : Type 0) : Type 0 where
  pub key : ℕ → K
  -- The length of the array of next pointers that the node was allocated with.
  pub height : ℕ → ℕ
  pub next : ℕ → ℕ → Option ℕ
  pub allocated : ℕ
  pub max_level : ℕ

-- The constructor: a head with all its pointers null.
unfoldable pub empty_list : {K : Type 0} → K → Skiplist K
empty_list default = record {
  key = λ n. default;
  height = λ n. max_level_const;
  next = λ n l. none;
  allocated = 1;
  max_level = 1;
}

-- The number of bits of a number, counted up to a width.
unfoldable pub bit_width : ℕ → ℕ → ℕ
bit_width zero n = 0
bit_width (suc w) n = let rest = bit_width w (n / 2) in if n == 0 then 0 else suc rest

-- The height of a new node from the number that the generator gave.
unfoldable pub random_level : ℕ → ℕ
unfolding bit_width
random_level rnd = max_level_const - bit_width 32 (rnd % 2 ^ 15)

abbrev pub update : {A : Type 0} → (ℕ → A) → ℕ → A → ℕ → A
update f p v q = if p == q then v else f q

abbrev pub is_lt : Ordering → Bool
is_lt o = elim o [ Ordering.lt ↦ true | _ ↦ false ]

abbrev pub is_eq : Ordering → Bool
is_eq o = elim o [ Ordering.eq ↦ true | _ ↦ false ]

-- The node to go on at: `cur = next`, where `next` is not null.
abbrev pub to_node : Option ℕ → ℕ → ℕ
to_node none cur = cur
to_node (some n) cur = n

-- `for (i = from; i < from + n; i++) prev[i] = _head`
unfoldable pub fill_prev : ℕ → ℕ → (ℕ → ℕ) → ℕ → ℕ
fill_prev zero from prev = prev
fill_prev (suc n) from prev = fill_prev n (from + 1) (update prev from 0)

module _ {K : Type 0} where
  unfoldable pub set_next : Skiplist K → ℕ → ℕ → Option ℕ → Skiplist K
  set_next s n l x = record s { next = update s.next n (update (s.next n) l x) }

  unfoldable pub create_node : Skiplist K → K → ℕ → Skiplist K
  create_node s k level = record s {
    key = update s.key s.allocated k;
    height = update s.height s.allocated level;
    next = update s.next s.allocated (λ l. none);
    allocated = s.allocated + 1;
  }

  -- The last loop of `insert`, with `left` levels to go from level `i`: the new node takes over
  -- its predecessor's pointer and the predecessor points at it.
  unfoldable pub link_node : ℕ → ℕ → ℕ → (ℕ → ℕ) → Skiplist K → Skiplist K
  link_node zero i n prev s = s
  link_node (suc left) i n prev s =
      link_node left (i + 1) n prev
        (set_next (set_next s n i (s.next (prev i) i)) (prev i) i (some n))

  unfoldable pub insert_at : Skiplist K → K → ℕ → (ℕ → ℕ) → Skiplist K
  insert_at s k height prev =
      let grown = ltb s.max_level height in
      let prev' = if grown then fill_prev (height - s.max_level) s.max_level prev else prev in
      let s' = if grown then record s { max_level = height } else s in
      link_node height 0 s'.allocated prev' (create_node s' k height)

  -- Enough rounds for every node and every level.
  abbrev pub rounds : Skiplist K → ℕ
  rounds s = s.allocated + s.max_level

module _ {K : Type 0} (cmp : K → K → Ordering) where
  unfoldable pub key_is_after_node : Skiplist K → K → Option ℕ → Bool
  key_is_after_node s k none = false
  key_is_after_node s k (some n) = is_lt (cmp (s.key n) k)

  unfoldable pub equal : Skiplist K → K → Option ℕ → Bool
  equal s k none = false
  equal s k (some n) = is_eq (cmp (s.key n) k)

  -- The loop of `findNode` from a node and a level; `none` is out of fuel.
  unfoldable pub find_node_loop : ℕ → Skiplist K → K → ℕ → ℕ → Option (Option ℕ)
  find_node_loop zero s k cur level = none
  find_node_loop (suc fuel) s k cur level =
      let next = s.next cur level in
      let across = find_node_loop fuel s k (to_node next cur) level in
      let down = find_node_loop fuel s k cur (level - 1) in
      if key_is_after_node s k next
      then across
      else if equal s k next
      then some next
      else if level == 0
      then some next
      else down

  unfoldable pub find_node : Skiplist K → K → Option (Option ℕ)
  find_node s k = find_node_loop (rounds s) s k 0 (s.max_level - 1)

  -- The loop of `find_set_prev`: the predecessors by level, and the node found at level 0.
  unfoldable pub find_set_prev_loop :
      ℕ → Skiplist K → K → ℕ → ℕ → (ℕ → ℕ) → Option ((ℕ → ℕ) × Option ℕ)
  find_set_prev_loop zero s k cur level prev = none
  find_set_prev_loop (suc fuel) s k cur level prev =
      let next = s.next cur level in
      let prev' = update prev level cur in
      let across = find_set_prev_loop fuel s k (to_node next cur) level prev in
      let down = find_set_prev_loop fuel s k cur (level - 1) prev' in
      if key_is_after_node s k next then across else if level == 0 then some (prev', next) else down

  -- The array is not initialised; an entry that was never written is the head here.
  unfoldable pub find_set_prev : Skiplist K → K → Option ((ℕ → ℕ) × Option ℕ)
  find_set_prev s k = find_set_prev_loop (rounds s) s k 0 (s.max_level - 1) (λ l. 0)

  -- `none` is the failed assertion that the key is new.
  unfoldable pub insert : Skiplist K → K → ℕ → Option (Skiplist K)
  insert s k rnd = elim (find_set_prev s k) [
    | none ↦ none
    | some (prev, n) ↦ if equal s k n then none else some (insert_at s k (random_level rnd) prev)
  ]

-- ===== src/Skiplist/Iterator.antt =====
-- The iterator of a skip list (src/include/skiplist.h), from a node to the end or to a node that it
-- leaves out.
use lsmkv.Base.{ℕ, Option, none, some, Bool, true, false, ◌==◌, not, ◌&&◌, if◌then◌else◌, Ordering}
use lsmkv.Skiplist.{Skiplist, find_node, is_eq}

pub record Iterator : Type 0 where
  pub cur : Option ℕ
  pub end : Option ℕ

abbrev pub same_node : Option ℕ → Option ℕ → Bool
same_node none none = true
same_node (some a) (some b) = a == b
same_node _ _ = false

abbrev pub is_node : Option ℕ → Bool
is_node none = false
is_node (some n) = true

unfoldable pub has_next : Iterator → Bool
has_next it = is_node it.cur && not (same_node it.end it.cur)

module _ {K : Type 0} (cmp user_cmp : K → K → Ordering) (s : Skiplist K) where
  -- The node behind a node, at level 0.
  abbrev pub behind : Option ℕ → Option ℕ
  behind none = none
  behind (some n) = s.next n 0

  -- `next`, on an iterator that has a node.
  unfoldable pub next : Iterator → Iterator
  next it = record it { cur = behind it.cur }

  unfoldable pub seek_to_first : Iterator → Iterator
  seek_to_first it = record it { cur = s.next 0 0 }

  -- `none` is out of fuel in the search.
  unfoldable pub seek : Iterator → K → Option Iterator
  seek it key = elim (find_node cmp s key) [
    | none ↦ none
    | some node ↦ some (record it { cur = node })
  ]

  -- The end of a range takes in a node of the same user key.
  abbrev pub range_end : K → Option ℕ → Option ℕ
  range_end k none = none
  range_end k (some n) = if is_eq (user_cmp (s.key n) k) then s.next n 0 else some n

  unfoldable pub seek_range : Iterator → K → K → Option Iterator
  seek_range it k1 k2 = elim (find_node cmp s k1) [
    | none ↦ none
    | some first ↦ elim (find_node cmp s k2) [
      | none ↦ none
      | some last ↦ some (record { cur = first; end = range_end k2 last })
    ]
  ]

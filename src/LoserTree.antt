-- ===== src/LoserTree.antt =====
-- The tournament of `BuildWhenCompaction` (src/levelcache.cpp): the iterators to merge are the leaves,
-- an inner node holds the loser of its match, and node 0 the winner of all. An iterator is its key
-- here, `none` once it is exhausted.
use lsmkv.Base.{
  ℕ, zero, suc, ◌+◌, ◌-◌, ◌*◌, ◌/◌, ◌%◌, List, Option, none, some, Bool, true, false, get_or, set,
  replicate, length, ◌==◌, if◌then◌else◌,
}
use lsmkv.Comparator.{compare_str}
use lsmkv.Skiplist.{is_lt}

abbrev pub Way : Type 0
Way = Option (List ℕ)

-- `cmp` of two iterators: an exhausted one never wins; the keys compare as strings.
unfoldable pub wins : Way → Way → Bool
wins none r = false
wins (some l) none = true
wins (some l) (some r) = is_lt (compare_str l r)

pub record LoserTree : Type 0 where
  pub loser : List ℕ
  pub winner : List ℕ

module _ (ways : List Way) where
  abbrev n : ℕ
  n = length ways

  abbrev pub way : ℕ → Way
  way i = get_or ways i none

  -- `set_loser_winner` at an inner node.
  unfoldable pub set_loser_winner : ℕ → ℕ → ℕ → LoserTree → LoserTree
  set_loser_winner i left right t =
      if wins (way left) (way right)
      then record { loser = set t.loser i right; winner = set t.winner i left }
      else record { loser = set t.loser i left; winner = set t.winner i right }

  -- `for (i = n - 1; i > m_way_init; --i)`: the matches of two leaves, `count` of them from node `i`.
  unfoldable pub outer_matches : ℕ → ℕ → LoserTree → LoserTree
  outer_matches zero i t = t
  outer_matches (suc count) i t =
      outer_matches count (i - 1) (set_loser_winner i (i * 2 - n) (i * 2 - n + 1) t)

  -- The match in the middle: with an odd number of leaves the last inner node meets the first leaf.
  unfoldable pub middle_match : LoserTree → LoserTree
  middle_match t =
      if n % 2 == 1
      then set_loser_winner (n / 2) (get_or t.winner (n - 1) 0) 0 t
      else set_loser_winner (n / 2) 0 1 t

  -- The matches of two inner nodes. The two loops of the source visit the nodes from `n / 2 - 1` down
  -- to 0, one row after the other.
  unfoldable pub inner_matches : ℕ → LoserTree → LoserTree
  inner_matches zero t = t
  inner_matches (suc j) t =
      inner_matches j
        (set_loser_winner j (get_or t.winner (2 * j) 0) (get_or t.winner (2 * j + 1) 0) t)

  unfoldable pub build : LoserTree
  build =
      let empty : LoserTree = record { loser = replicate n 0; winner = replicate n 0 } in
      let t = inner_matches (n / 2) (middle_match (outer_matches (n - 1 - n / 2) (n - 1) empty)) in
      record t { loser = set t.loser 0 (get_or t.winner 1 0) }

  unfoldable pub top : LoserTree → ℕ
  top t = get_or t.loser 0 0

  abbrev pub is_exhausted : Way → Bool
  is_exhausted none = true
  is_exhausted (some k) = false

  unfoldable pub end : LoserTree → Bool
  end t = is_exhausted (way (top t))

  -- `Adjust`: the leaf that changed plays against the losers up to the root; fuel for every level.
  unfoldable pub adjust_loop : ℕ → ℕ → ℕ → LoserTree → LoserTree
  adjust_loop zero parent index t = t
  adjust_loop (suc fuel) parent index t =
      let p = parent / 2 in
      let other = get_or t.loser p 0 in
      let keep = adjust_loop fuel p index t in
      let swap = adjust_loop fuel p other (record t { loser = set t.loser p index }) in
      if p == 0
      then record t { loser = set t.loser 0 index }
      else if wins (way index) (way other)
      then keep
      else swap

  unfoldable pub adjust : ℕ → LoserTree → LoserTree
  adjust index t = adjust_loop (index + n + 1) (index + n) index t

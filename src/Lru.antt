-- ===== src/Lru.antt =====
-- utils/lru.h: `Lru_Cache`. The list holds the pairs, the last used one first; the map from a key to
-- its place in the list is the search in the list. Keys are numbers here.
pub mod Laws
mod Tests
use lsmkv.Base.{ℕ, ◌%◌, ◌^◌, List, [], ◌∷◌, Option, none, some, length, ◌==◌, if◌then◌else◌}

module _ {V : Type 0} where
  unfoldable pub lookup : ℕ → List (ℕ × V) → Option V
  lookup k [] = none
  lookup k ((j, v) ∷ l) = if j == k then some v else lookup k l

  unfoldable pub erase_key : ℕ → List (ℕ × V) → List (ℕ × V)
  erase_key k [] = []
  erase_key k ((j, v) ∷ l) = if j == k then l else (j, v) ∷ erase_key k l

  -- `pop_back`
  unfoldable pub drop_last : List (ℕ × V) → List (ℕ × V)
  drop_last [] = []
  drop_last (p ∷ []) = []
  drop_last (p ∷ q ∷ l) = p ∷ drop_last (q ∷ l)

  -- `Put`, for a capacity that is not zero: with zero the source takes the back of an empty list.
  unfoldable pub put : ℕ → ℕ → V → List (ℕ × V) → List (ℕ × V)
  put capacity k v l =
      let kept = erase_key k l in
      if length kept == capacity then (k, v) ∷ drop_last kept else (k, v) ∷ kept

  abbrev pub to_front : ℕ → Option V → List (ℕ × V) → List (ℕ × V)
  to_front k none l = l
  to_front k (some v) l = (k, v) ∷ erase_key k l

  -- `Get`: the value, and the list with its pair in front.
  unfoldable pub get : ℕ → List (ℕ × V) → Option V × List (ℕ × V)
  get k l = (lookup k l, to_front k (lookup k l) l)

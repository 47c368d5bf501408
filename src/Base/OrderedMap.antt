-- ===== src/Base/OrderedMap.antt =====
-- `std::map` with numbers for keys: a list of pairs in ascending order of the keys.
use lsmkv.Base.Tests.{ltb, ◌==◌, if◌then◌else◌, Bool-cases}
use lsmkv.Base.Lists.{All, All-map}
use Prim.Native.Nat.{ℕ, ◌<◌}
use mathlib.Core.Path.{◌≡◌, refl}
use mathlib.Core.Logic.{◌≢◌, inl, inr}
use mathlib.Core.List.{List, [], ◌∷◌}
use mathlib.Core.Option.{Option, none, some}
use native.Mathlib.Omega.{arith}

abbrev pub OrderedMap : Type 0 → Type 0
OrderedMap A = List (ℕ × A)

module _ {A : Type 0} where
  unfoldable pub find : ℕ → OrderedMap A → Option A
  find n [] = none
  find n ((k, a) ∷ m) = if k == n then some a else find n m

  -- `emplace` leaves an element with an equal key as it is.
  unfoldable pub emplace : ℕ → A → OrderedMap A → OrderedMap A
  emplace n a [] = (n, a) ∷ []
  emplace n a ((k, b) ∷ m) =
      if n == k
      then (k, b) ∷ m
      else if ltb n k
      then (n, a) ∷ ((k, b) ∷ m)
      else (k, b) ∷ emplace n a m

  unfoldable pub erase : ℕ → OrderedMap A → OrderedMap A
  erase n [] = []
  erase n ((k, a) ∷ m) = if k == n then m else (k, a) ∷ erase n m

  abbrev pub values : OrderedMap A → List A
  values [] = []
  values ((k, a) ∷ m) = a ∷ values m

  abbrev pub Ascending : OrderedMap A → Type 0
  Ascending [] = Unit
  Ascending ((k, a) ∷ m) = All (λ e. k < e.0) m × Ascending m

  -- An element found satisfies what all of them do.
  pub find-All :
      (P : ℕ → A → Type 0) (n : ℕ) (m : OrderedMap A) (a : A)
      → All (λ e. P e.0 e.1) m
      → find n m ≡ some a
      → P n a
  unfolding find
  find-All P n [] a h e = cc
  find-All P n ((k, b) ∷ m) a h e = ground (arith, h.0, find-All P n m a h.1)

  pub find-absent : (n : ℕ) (m : OrderedMap A) → All (λ e. n < e.0) m → find n m ≡ none
  unfolding find
  find-absent n [] h = refl
  find-absent n ((k, b) ∷ m) h = ground (arith, find-absent n m h.1)

  pub find-emplace_self :
      (n : ℕ) (a : A) (m : OrderedMap A) → find n m ≡ none → find n (emplace n a m) ≡ some a
  unfolding find emplace
  find-emplace_self n a [] h = ground arith
  find-emplace_self n a ((k, b) ∷ m) h = ground (arith, find-emplace_self n a m)

  pub find-emplace_other :
      (n k : ℕ) (a : A) (m : OrderedMap A) → n ≢ k → find n (emplace k a m) ≡ find n m
  unfolding find emplace
  find-emplace_other n k a [] o = ground arith
  find-emplace_other n k a ((j, b) ∷ m) o = ground (arith, find-emplace_other n k a m o)

  pub find-erase_self : (n : ℕ) (m : OrderedMap A) → Ascending m → find n (erase n m) ≡ none
  unfolding find erase
  find-erase_self n [] h = refl
  find-erase_self n ((k, b) ∷ m) h = ground (arith, find-erase_self n m h.1, find-absent n m)

  pub find-erase_other : (n k : ℕ) (m : OrderedMap A) → n ≢ k → find n (erase k m) ≡ find n m
  unfolding find erase
  find-erase_other n k [] o = refl
  find-erase_other n k ((j, b) ∷ m) o = ground (arith, find-erase_other n k m o)

  pub emplace-All :
      (P : (ℕ × A) → Type 0) (n : ℕ) (a : A) (m : OrderedMap A)
      → P (n, a)
      → All P m
      → All P (emplace n a m)
  unfolding emplace
  emplace-All P n a [] p h = (p, tt)
  emplace-All P n a ((k, b) ∷ m) p h = ground (arith, emplace-All P n a m p)

  pub erase-All : (P : (ℕ × A) → Type 0) (n : ℕ) (m : OrderedMap A) → All P m → All P (erase n m)
  unfolding erase
  erase-All P n [] h = tt
  erase-All P n ((k, b) ∷ m) h = ground (arith, erase-All P n m)

  pub emplace-Ascending :
      (n : ℕ) (a : A) (m : OrderedMap A) → Ascending m → Ascending (emplace n a m)
  unfolding emplace
  emplace-Ascending n a [] h = (tt, tt)
  emplace-Ascending n a ((k, b) ∷ m) h = elim (Bool-cases (n == k)) [
    | inl y ↦ rw y h
    | inr x ↦ elim (Bool-cases (ltb n k)) [
      | inl l ↦
          let lt : n < k = ground arith in rw (x, l) ((lt, All-map (λ e p. omega arith) m h.0), h)
      | inr g ↦
          let gt : k < n = ground arith in
          rw (x, g) (emplace-All (λ e. k < e.0) n a m gt h.0, emplace-Ascending n a m h.1)
    ]
  ]

  pub erase-Ascending : (n : ℕ) (m : OrderedMap A) → Ascending m → Ascending (erase n m)
  unfolding erase
  erase-Ascending n [] h = tt
  erase-Ascending n ((k, b) ∷ m) h =
      ground (arith, h.1, erase-All (λ e. k < e.0) n m h.0, erase-Ascending n m h.1)

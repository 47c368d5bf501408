-- ===== src/RwLock/Count.antt =====
-- Sums over the threads, and what a change of one thread does to them.
use lsmkv.Base.{
  ℕ, zero, suc, ◌+◌, ◌≤◌, ◌<◌, ◌≡◌, ◌≢◌, refl, ap, arith, List, [], ◌∷◌, some, get_elem?, set,
  replicate,
}
use native.Mathlib.Decide.{dec_lt}

module _ {ℓ} {A : Type ℓ} (w : A → ℕ) where
  abbrev pub total : List A → ℕ
  total [] = 0
  total (x ∷ xs) = w x + total xs

  -- the sum without the element at an index
  abbrev pub others : List A → ℕ → ℕ
  others [] i = 0
  others (x ∷ xs) zero = total xs
  others (x ∷ xs) (suc i) = w x + others xs i

  pub total-others :
      (xs : List A) (i : ℕ) (p : A) → get_elem? xs i ≡ some p → total xs ≡ others xs i + w p
  total-others [] i p e = absurd (cc)
  total-others (x ∷ xs) zero p e = let same : x ≡ p = cc in rw same (omega arith)
  total-others (x ∷ xs) (suc i) p e = omega (arith, total-others xs i p e)

  pub total-set :
      (xs : List A) (i : ℕ) (p q : A)
      → get_elem? xs i ≡ some p
      → total (set xs i q) ≡ others xs i + w q
  total-set [] i p q e = absurd (cc)
  total-set (x ∷ xs) zero p q e = omega arith
  total-set (x ∷ xs) (suc i) p q e = omega (arith, total-set xs i p q e)

  -- Two threads count side by side.
  pub two-total :
      (xs : List A) (i j : ℕ) (p q : A)
      → i ≢ j
      → get_elem? xs i ≡ some p
      → get_elem? xs j ≡ some q
      → w p + w q ≤ total xs
  two-total [] i j p q ne e f = absurd (cc)
  two-total (x ∷ xs) zero zero p q ne e f = absurd (ne refl)
  two-total (x ∷ xs) zero (suc j) p q ne e f =
      let same : x ≡ p = cc in rw same (omega (arith, total-others xs j q f))
  two-total (x ∷ xs) (suc i) zero p q ne e f =
      let same : x ≡ q = cc in rw same (omega (arith, total-others xs i p e))
  two-total (x ∷ xs) (suc i) (suc j) p q ne e f =
      omega (arith, two-total xs i j p q (λ h. ne (ap suc h)) e f)

  -- A sum that is not zero has an element that counts.
  pub total-find :
      (xs : List A) → 0 < total xs → (i : ℕ) × (p : A) × (get_elem? xs i ≡ some p) × (0 < w p)
  total-find [] h = absurd (omega arith)
  total-find (x ∷ xs) h = elim (dec_lt 0 (w x)) [
    | yes here ↦ (zero, x, refl, here)
    | no gone ↦ let (i, p, at, pos) = total-find xs (omega arith) in (suc i, p, at, pos)
  ]

  pub total-replicate : (n : ℕ) (a : A) → w a ≡ 0 → total (replicate n a) ≡ 0
  total-replicate zero a e = refl
  total-replicate (suc n) a e = omega (arith, e, total-replicate n a e)

module _ {ℓ} {A : Type ℓ} (v w : A → ℕ) (h : (a : A) → v a ≤ w a) where
  pub total-le : (xs : List A) → total v xs ≤ total w xs
  total-le [] = omega arith
  total-le (x ∷ xs) = omega (arith, total-le xs, h x)

  pub others-le : (xs : List A) (i : ℕ) → others v xs i ≤ others w xs i
  others-le [] i = omega arith
  others-le (x ∷ xs) zero = total-le xs
  others-le (x ∷ xs) (suc i) = omega (arith, others-le xs i, h x)

-- ===== src/Base/Bits.antt =====
-- `|` and `&` with one bit. The tactics take a call of `bit_or` or `bit_and` for an unknown.
use Prim.Native.Nat.{
  ℕ, zero, suc, ◌+◌, ◌*◌, ◌/◌, ◌%◌, ◌^◌, ◌≤◌, ◌<◌, min, max, bit_and, bit_or, digits,
  bit_and-bitwise, bit_or-bitwise,
}
use mathlib.Core.Path.{◌≡◌, refl}
use native.Mathlib.Omega.{arith}

-- Any two counts of digits that the first number fits in give the same result.
digits_fuel :
    (z : ℕ → ℕ) (f : ℕ → ℕ → ℕ) (n m a b : ℕ) → a ≤ n → a ≤ m → digits z f n a b ≡ digits z f m a b
digits_fuel z f zero zero zero b h k = refl
digits_fuel z f zero (suc m) zero b h k = refl
digits_fuel z f (suc n) zero zero b h k = refl
digits_fuel z f (suc n) (suc m) zero b h k = refl
digits_fuel z f zero m (suc a) b h k = absurd (omega arith)
digits_fuel z f (suc n) zero (suc a) b h k = absurd (omega arith)
digits_fuel z f (suc n) (suc m) (suc a) b h k =
    omega (arith, digits_fuel z f n m (suc a / 2) (b / 2) (omega arith) (omega arith))

zero-bit_or : (b : ℕ) → bit_or 0 b ≡ b
zero-bit_or b = bit_or-bitwise 0 b

zero-bit_and : (b : ℕ) → bit_and 0 b ≡ 0
zero-bit_and b = bit_and-bitwise 0 b

digits_step :
    (z : ℕ → ℕ) (f : ℕ → ℕ → ℕ) (p y : ℕ)
    → digits z f (suc p) (suc p) y
      ≡ f (suc p % 2) (y % 2) + 2 * digits z f (suc p / 2) (suc p / 2) (y / 2)
digits_step z f p y =
    omega (arith, digits_fuel z f p (suc p / 2) (suc p / 2) (y / 2) (omega arith) (omega arith))

-- The lowest bits of the two numbers decide the lowest bit.
pub bit_or_step : (x y : ℕ) → bit_or x y ≡ max (x % 2) (y % 2) + 2 * bit_or (x / 2) (y / 2)
bit_or_step zero y = omega (arith, zero-bit_or (y / 2), zero-bit_or y)
bit_or_step (suc p) y =
    let half = bit_or-bitwise (suc p / 2) (y / 2) in
    omega (arith, half, digits_step (λ t. t) max p y, bit_or-bitwise (suc p) y)

pub bit_and_step : (x y : ℕ) → bit_and x y ≡ min (x % 2) (y % 2) + 2 * bit_and (x / 2) (y / 2)
bit_and_step zero y = omega (arith, zero-bit_and (y / 2), zero-bit_and y)
bit_and_step (suc p) y =
    let half = bit_and-bitwise (suc p / 2) (y / 2) in
    omega (arith, half, digits_step (λ t. 0) min p y, bit_and-bitwise (suc p) y)

bit_or-zero_fuel : (n a : ℕ) → a ≤ n → bit_or a 0 ≡ a
bit_or-zero_fuel n zero h = zero-bit_or 0
bit_or-zero_fuel zero (suc a) h = absurd (omega arith)
bit_or-zero_fuel (suc n) (suc a) h =
    omega (arith, bit_or_step (suc a) 0, bit_or-zero_fuel n (suc a / 2) (omega arith))

pub bit_or-zero : (a : ℕ) → bit_or a 0 ≡ a
bit_or-zero a = bit_or-zero_fuel a a (omega arith)

-- A number whose lowest bit is clear takes a bit by addition.
pub bit_or-even : (x t : ℕ) → x % 2 ≡ 0 → t < 2 → bit_or x t ≡ x + t
bit_or-even x t e h =
    let z : t / 2 ≡ 0 = omega arith in rw (bit_or_step, z, bit_or-zero (x / 2)) (omega arith)

and_nothing : (k x : ℕ) → x ≤ k → bit_and x 0 ≡ 0
and_nothing k zero h = zero-bit_and 0
and_nothing zero (suc p) h = absurd (omega arith)
and_nothing (suc k) (suc p) h =
    let rest = and_nothing k (suc p / 2) (omega arith) in
    omega (arith, rest, bit_and_step (suc p) 0)

-- The test of the lowest bit, and of a higher one.
bit_and-one : (x : ℕ) → bit_and x 1 ≡ x % 2
bit_and-one x = omega (arith, bit_and_step x 1, and_nothing (x / 2) (x / 2) (omega arith))

bit_and-double : (k x : ℕ) → bit_and x (2 ^ suc k) ≡ 2 * bit_and (x / 2) (2 ^ k)
bit_and-double k x =
    let half : 2 ^ suc k / 2 ≡ 2 ^ k = omega arith in
    let step = bit_and_step x (2 ^ suc k) in omega (arith, rw half at step)

half-bit_or : (k x : ℕ) → bit_or x (2 ^ suc k) / 2 ≡ bit_or (x / 2) (2 ^ k)
half-bit_or k x =
    let half : 2 ^ suc k / 2 ≡ 2 ^ k = omega arith in
    let step = bit_or_step x (2 ^ suc k) in omega (arith, rw half at step)

half-bit_or-one : (x : ℕ) → bit_or x 1 / 2 ≡ x / 2
half-bit_or-one x = omega (arith, bit_or_step x 1, bit_or-zero (x / 2))

-- The bit that is set is there.
pub bit_or_sets : (k x : ℕ) → 0 < bit_and (bit_or x (2 ^ k)) (2 ^ k)
bit_or_sets zero x = omega (arith, bit_and-one (bit_or x 1), bit_or_step x 1)
bit_or_sets (suc k) x = rw (bit_and-double, half-bit_or) (omega (arith, bit_or_sets k (x / 2)))

-- The bits that were there stay.
pub bit_or_keeps : (j k x : ℕ) → 0 < bit_and x (2 ^ j) → 0 < bit_and (bit_or x (2 ^ k)) (2 ^ j)
bit_or_keeps zero k x h =
    omega (arith, bit_and-one (bit_or x (2 ^ k)), bit_and-one x, bit_or_step x (2 ^ k))
bit_or_keeps (suc j) zero x h =
    let was = rw bit_and-double at h in rw (bit_and-double j (bit_or x 1), half-bit_or-one x) was
bit_or_keeps (suc j) (suc k) x h =
    let was = rw bit_and-double at h in
    rw (bit_and-double j (bit_or x (2 ^ suc k)), half-bit_or k x)
      (omega (arith, bit_or_keeps j k (x / 2) (omega arith)))

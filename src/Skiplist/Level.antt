-- ===== src/Skiplist/Level.antt =====
-- How tall `random_level` makes a node.
use native.Mathlib.Nat.{pow-suc}
use lsmkv.Base.{◌/◌, ◌%◌, ◌^◌, ℕ, zero, suc, ◌≤◌, ◌<◌, arith}
use lsmkv.Skiplist.{bit_width, random_level}

-- A number below 2 ^ j has at most j bits.
bit_width-le : (w j n : ℕ) → n < 2 ^ j → bit_width w n ≤ j
unfolding bit_width
bit_width-le zero j n h = omega arith
bit_width-le (suc w) zero n h = ground arith
bit_width-le (suc w) (suc j) n h =
    ground (arith, pow-suc 2 j, bit_width-le w j (n / 2) (omega (arith, pow-suc 2 j)))

-- The height that `random_level` gives is from 1 to 16 for every number of the generator.
pub random_level_bounds : (rnd : ℕ) → (1 ≤ random_level rnd) × (random_level rnd ≤ 16)
unfolding random_level
random_level_bounds rnd = let h = bit_width-le 32 15 (rnd % 2 ^ 15) (omega arith) in omega arith

-- ===== src/Status.antt =====
-- utils/status.h: the result of an operation, a code and a message.
use lsmkv.Base.{ℕ, List, [], ◌∷◌, Bool, true, false, ◌≡◌, refl, ap}

pub data Code : Type 0 where
  ok not_found corruption not_supported invalid_argument io_error bg_error expired : Code

-- The bytes of the message stand in `state`.
pub record Status : Type 0 where
  pub code : Code
  pub state : List ℕ

unfoldable pub of_code : Code → Status
of_code c = record { code = c; state = [] }

-- `NotFound`, `IOError`, `Corruption` and `BGError`: an empty message is not added.
unfoldable pub with_message : Code → List ℕ → Status
with_message c [] = of_code c
with_message c (m ∷ ms) = record { code = c; state = m ∷ ms }

-- A move takes the message along and leaves the code of its source at `ok`.
unfoldable pub move_status : Status → Status × Status
move_status s = (s, record { code = ok; state = [] })

unfoldable pub is_ok : Code → Bool
is_ok ok = true
is_ok _ = false

unfoldable pub is_not_found : Code → Bool
is_not_found not_found = true
is_not_found _ = false

unfoldable pub is_expired : Code → Bool
is_expired expired = true
is_expired _ = false

pub is_ok-ok : (c : Code) → is_ok c ≡ true → c ≡ ok
unfolding is_ok
is_ok-ok ok e = refl
is_ok-ok other e = absurd (cc)

pub ok_is_ok : is_ok ok ≡ true
unfolding is_ok
ok_is_ok = refl

pub is_not_ok : (c : Code) → is_ok c ≡ false → ¬ (c ≡ ok)
unfolding is_ok
is_not_ok c e h = let t : is_ok c ≡ true = ap is_ok h in absurd (cc)

-- ===== src/Lru/Tests.antt =====
-- A cache of two pairs.
use lsmkv.Base.{refl, ℕ, ◌≤◌, ◌≡◌, ◌⊎◌, arith, List, [], ◌∷◌, some, length}
use lsmkv.Lru.{lookup, erase_key, put, get}
use lsmkv.Lru.Laws.{IsUnique, Evicts, put_lem, get_lem}

abbrev pairs : List (ℕ × ℕ)
pairs = (4, 40) ∷ (2, 20) ∷ []

abbrev four : ℕ
four = 4

pairs-IsUnique : IsUnique pairs
unfolding lookup
pairs-IsUnique = (refl, (refl, tt))

put_lem_example :
    IsUnique (put 2 7 70 pairs)
    × (length (put 2 7 70 pairs) ≤ 2)
    × (lookup 7 (put 2 7 70 pairs) ≡ some 70)
    × (Evicts 2 7 70 pairs (put 2 7 70 pairs)
        ⊎ (lookup four (put 2 7 70 pairs) ≡ lookup four pairs))
put_lem_example =
    put_lem 2 7 four 70 pairs (omega arith) (omega arith) pairs-IsUnique (λ e. absurd (omega arith))

has_two : lookup 2 pairs ≡ some 20
unfolding lookup
has_two = refl

get_lem_example :
    ((get 2 pairs).0 ≡ some 20)
    × (lookup four (get 2 pairs).1 ≡ lookup four pairs)
    × ((get 2 pairs).1 ≡ (2, 20) ∷ erase_key 2 pairs)
get_lem_example = get_lem 2 four 20 pairs has_two

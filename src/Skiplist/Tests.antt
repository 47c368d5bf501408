-- ===== src/Skiplist/Tests.antt =====
-- A skip list of numbers.
use lsmkv.Base.{
  ℕ, ◌≡◌, refl, arith, [], ◌∷◌, ◌++◌, map, true, false, none, some, compare, ◌==◌, ◌&&◌,
  if◌then◌else◌,
}
use lsmkv.Skiplist.{Skiplist, equal, find_node, insert}
use lsmkv.Skiplist.Chain.{Linked}
use lsmkv.Skiplist.Insert.{IsOrder, Holds, find_node-first_node}
use lsmkv.Skiplist.Preserve.{insert_lem}

number-IsOrder : IsOrder compare
number-IsOrder = record {
  swap = λ a b. ground arith;
  trans = λ a b c p q. ground arith;
  lt_eq = λ a b c p q. ground arith;
}

-- A list of one node, with the key 1.
abbrev one_node : Skiplist ℕ
one_node = record {
  key = λ n. n;
  height = λ n. if n == 0 then 16 else 1;
  next = λ n l. if n == 0 && l == 0 then some 1 else none;
  allocated = 2;
  max_level = 1;
}

one_node-Linked : (l : ℕ) → Linked one_node.height l one_node.next 0 (1 ∷ [])
one_node-Linked l = ground arith

one_node-Holds : Holds compare one_node (1 ∷ [])
one_node-Holds = record {
  sorted = (tt, tt);
  nodes = ((omega arith, omega arith, omega arith, omega arith), tt);
  count = refl;
  low = omega arith;
  high = omega arith;
  links = one_node-Linked;
}

find_node-first_node_example : find_node compare one_node 1 ≡ some (some 1)
find_node-first_node_example =
    find_node-first_node compare number-IsOrder one_node 1 [] (1 ∷ []) one_node-Holds tt (refl, tt)

insert_lem_example :
    (equal compare one_node 5 none ≡ true → insert compare one_node 5 77 ≡ none)
    × (equal compare one_node 5 none ≡ false
        → (s' : Skiplist ℕ) × (insert compare one_node 5 77 ≡ some s')
          × Holds compare s' ((1 ∷ []) ++ (2 ∷ []))
          × (map s'.key ((1 ∷ []) ++ (2 ∷ [])) ≡ (1 ∷ []) ++ (5 ∷ [])))
insert_lem_example =
    insert_lem compare number-IsOrder one_node 5 (1 ∷ []) [] 77 one_node-Holds (refl, tt) tt

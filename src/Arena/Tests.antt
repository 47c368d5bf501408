-- ===== src/Arena/Tests.antt =====
-- A first piece from a new block at 1003, and an aligned one.
use lsmkv.Base.{ℕ, ◌%◌, ◌≡◌, refl, [], ◌∷◌}
use lsmkv.Arena.{
  Arena, align, new_arena, allocate, allocate_aligned, allocate_fall_back, allocate_align_fall_back,
  allocate_ptr, allocate_new_block, count, take_front, take_back,
}
use lsmkv.Arena.Regions.{IsSound, new-IsSound, allocate-IsSound, allocate_aligned-IsSound}

abbrev first : ℕ × Arena
first = allocate 1003 10 new_arena

first_piece : first.0 ≡ 1003
unfolding allocate allocate_fall_back allocate_ptr allocate_new_block count take_front new_arena
first_piece = refl

allocate-IsSound_example : IsSound first.1 ((first.0, 10) ∷ [])
unfolding new_arena
allocate-IsSound_example =
    allocate-IsSound new_arena [] 1003 10 new-IsSound (λ x p h. h) (λ x p h. h)

abbrev node : ℕ × Arena
node = allocate_aligned 1003 48 new_arena

node_piece : node.0 ≡ 5048
unfolding allocate_aligned allocate_align_fall_back allocate_ptr allocate_new_block count take_back
    new_arena
node_piece = refl

allocate_aligned-IsSound_example : (node.0 % align ≡ 0) × IsSound node.1 ((node.0, 48) ∷ [])
unfolding new_arena
allocate_aligned-IsSound_example =
    allocate_aligned-IsSound new_arena [] 1003 48 new-IsSound refl (λ x p h. h) (λ x p h. h)

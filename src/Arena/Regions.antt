-- ===== src/Arena/Regions.antt =====
-- No two pieces of memory that the arena gives out have an address in common.
use lsmkv.Base.{
  ℕ, ◌+◌, ◌-◌, ◌*◌, ◌/◌, ◌%◌, ◌≤◌, ◌<◌, ◌≡◌, refl, arith, List, [], ◌∷◌, false, ltb, leb, ◌⊎◌, inl,
  inr, Bool-cases, All, All-map,
}
use lsmkv.Arena.{
  Arena, align, block_size, new_arena, allocate_new_block, allocate_ptr, count, take_front,
  take_back, allocate_fall_back, allocate, allocate_align_fall_back, allocate_aligned,
}

-- An address in a region, by its start and its size.
abbrev pub In : ℕ → ℕ × ℕ → Type 0
In x r = (r.0 ≤ x) × (x < r.0 + r.1)

abbrev pub Apart : ℕ × ℕ → ℕ × ℕ → Type 0
Apart p q = (x : ℕ) → In x p → ¬ In x q

-- An address of a block of the pool.
abbrev pub Owned : ℕ → List (ℕ × ℕ) → Type 0
Owned x [] = ⊥
Owned x (block ∷ pool) = In x block ⊎ Owned x pool

abbrev pub Inside : List (ℕ × ℕ) → ℕ × ℕ → Type 0
Inside pool r = (x : ℕ) → In x r → Owned x pool

-- What `new` promises of a block: none of its addresses is in use.
abbrev pub Fresh : ℕ → ℕ → List (ℕ × ℕ) → Type 0
Fresh block bytes pool = (x : ℕ) → In x (block, bytes) → ¬ Owned x pool

abbrev pub Disjoint : List (ℕ × ℕ) → Type 0
Disjoint [] = Unit
Disjoint (r ∷ given) = All (Apart r) given × Disjoint given

-- The room that is left in the current block.
abbrev pub room : Arena → ℕ × ℕ
room a = (a.alloc_ptr, a.alloc_bytes_remaining)

-- The arena, and the regions that it has given out.
pub record IsSound (a : Arena) (given : List (ℕ × ℕ)) : Type 0 where
  pub span : a.alloc_ptr + a.alloc_bytes_remaining ≡ a.alloc_aligned_ptr
  pub aligned : a.alloc_aligned_ptr % align ≡ 0
  pub apart : Disjoint given
  pub owned : All (Inside a.pool) given
  pub unused : All (Apart (room a)) given
  pub room_owned : Inside a.pool (room a)

pub new-IsSound : IsSound new_arena []
unfolding new_arena
new-IsSound = record {
  span = refl;
  aligned = refl;
  apart = tt;
  owned = tt;
  unused = tt;
  room_owned = λ x h. absurd (omega arith);
}

module _ (a : Arena) (given : List (ℕ × ℕ)) (s : IsSound a given) where
  -- A piece of the room at its front.
  take_front-IsSound :
      (bytes : ℕ)
      → bytes ≤ a.alloc_bytes_remaining
      → IsSound (take_front bytes a).1 (((take_front bytes a).0, bytes) ∷ given)
  unfolding take_front
  take_front-IsSound bytes fits = record {
    span = omega (arith, s.span);
    aligned = s.aligned;
    apart = (All-map (λ r h x p q. h x (omega arith) q) given s.unused, s.apart);
    owned = (λ x p. s.room_owned x (omega arith), s.owned);
    unused = (λ x p q. omega arith, All-map (λ r h x p q. h x (omega arith) q) given s.unused);
    room_owned = λ x p. s.room_owned x (omega arith);
  }

  -- A piece at its back, of a size that keeps the alignment.
  take_back-IsSound :
      (bytes : ℕ)
      → bytes ≤ a.alloc_bytes_remaining
      → bytes % align ≡ 0
      → IsSound (take_back bytes a).1 (((take_back bytes a).0, bytes) ∷ given)
  unfolding take_back
  take_back-IsSound bytes fits even = record {
    span = omega (arith, s.span);
    aligned = omega (arith, s.span, s.aligned);
    apart = (All-map (λ r h x p q. h x (omega (arith, s.span)) q) given s.unused, s.apart);
    owned = (λ x p. s.room_owned x (omega (arith, s.span)), s.owned);
    unused =
        (λ x p q. omega (arith, s.span), All-map (λ r h x p q. h x (omega arith) q) given s.unused);
    room_owned = λ x p. s.room_owned x (omega arith);
  }

  take_back-aligned :
      (bytes : ℕ)
      → bytes ≤ a.alloc_bytes_remaining
      → bytes % align ≡ 0
      → (take_back bytes a).0 % align ≡ 0
  unfolding take_back
  take_back-aligned bytes fits even = omega (arith, s.span, s.aligned)

  -- A block of its own for one piece, within which the piece lies.
  own_block-IsSound :
      (block size start bytes : ℕ)
      → Fresh block size a.pool
      → block ≤ start
      → start + bytes ≤ block + size
      → IsSound (allocate_new_block block size a) ((start, bytes) ∷ given)
  unfolding allocate_new_block
  own_block-IsSound block size start bytes fresh low high = record {
    span = s.span;
    aligned = s.aligned;
    apart = (All-map (λ r h x p q. fresh x (omega arith) (h x q)) given s.owned, s.apart);
    owned = (λ x p. inl (omega arith), All-map (λ r h x p. inr (h x p)) given s.owned);
    unused = (λ x p q. fresh x (omega arith) (s.room_owned x p), s.unused);
    room_owned = λ x p. inr (s.room_owned x p);
  }

  -- A new current block in place of what was left.
  allocate_ptr-IsSound :
      (block : ℕ) → Fresh block block_size a.pool → IsSound (allocate_ptr block a) given
  unfolding allocate_ptr allocate_new_block
  allocate_ptr-IsSound block fresh = record {
    span = omega arith;
    aligned = omega arith;
    apart = s.apart;
    owned = All-map (λ r h x p. inr (h x p)) given s.owned;
    unused = All-map (λ r h x p q. fresh x (omega arith) (h x q)) given s.owned;
    room_owned = λ x p. inl (omega arith);
  }

  count-IsSound : (bytes : ℕ) → IsSound (count bytes a) given
  unfolding count
  count-IsSound bytes = record {
    span = s.span;
    aligned = s.aligned;
    apart = s.apart;
    owned = s.owned;
    unused = s.unused;
    room_owned = s.room_owned;
  }

allocate_ptr-room :
    (block : ℕ) (a : Arena) → block_size - 8 < (allocate_ptr block a).alloc_bytes_remaining
unfolding allocate_ptr
allocate_ptr-room block a = omega arith

small_fits :
    (bytes left : ℕ) → ltb (block_size / 4) bytes ≡ false → block_size - 8 < left → bytes ≤ left
small_fits bytes left little most = ground arith

-- A piece from `allocate` shares no address with those before it, lies in a block of the pool, and
-- leaves the arena sound: the two ends of the current block are as far apart as the bytes that are left
-- in it, as the code asserts, the upper end is aligned, and what lies between them is given to nobody.
-- This needs that the address of a new block, for whichever size, is one of free memory.
pub allocate-IsSound :
    (a : Arena) (given : List (ℕ × ℕ)) (block bytes : ℕ)
    → IsSound a given
    → Fresh block block_size a.pool
    → Fresh block bytes a.pool
    → IsSound (allocate block bytes a).1 (((allocate block bytes a).0, bytes) ∷ given)
unfolding allocate allocate_fall_back count
allocate-IsSound a given block bytes s fresh own =
    let c = count-IsSound a given s bytes in
    let counted = count bytes a in
    elim (Bool-cases (leb bytes counted.alloc_bytes_remaining)) [
      | inl fits ↦ rw fits (take_front-IsSound counted given c bytes (ground arith))
      | inr full ↦ elim (Bool-cases (ltb (block_size / 4) bytes)) [
        | inl large ↦
            rw (full, large)
              (own_block-IsSound counted given c block bytes block bytes own (omega arith)
                (omega arith))
        | inr little ↦
            rw (full, little)
              (take_front-IsSound (allocate_ptr block counted) given
                (allocate_ptr-IsSound counted given c block fresh) bytes
                (small_fits bytes (allocate_ptr block counted).alloc_bytes_remaining little
                  (allocate_ptr-room block counted)))
      ]
    ]

-- A piece from `allocateAligned`, of a size that is a multiple of eight, starts at a multiple of eight,
-- shares no address with those before it, lies in a block of the pool, and leaves the arena sound: the
-- two ends of the current block are as far apart as the bytes that are left in it, the upper end is
-- aligned, and what lies between them is given to nobody. This needs that the address of a new block,
-- for a current block or for one of the piece's size and eight bytes more, is one of free memory.
pub allocate_aligned-IsSound :
    (a : Arena) (given : List (ℕ × ℕ)) (block bytes : ℕ)
    → IsSound a given
    → bytes % align ≡ 0
    → Fresh block block_size a.pool
    → Fresh block (bytes + align) a.pool
    → ((allocate_aligned block bytes a).0 % align ≡ 0)
      × IsSound
          (allocate_aligned block bytes a).1
          (((allocate_aligned block bytes a).0, bytes) ∷ given)
unfolding allocate_aligned allocate_align_fall_back count
allocate_aligned-IsSound a given block bytes s even fresh own =
    let c = count-IsSound a given s bytes in
    let counted = count bytes a in
    elim (Bool-cases (leb bytes counted.alloc_bytes_remaining)) [
      | inl fits ↦
          let within : bytes ≤ counted.alloc_bytes_remaining = ground arith in
          rw fits (
            take_back-aligned counted given c bytes within even,
            take_back-IsSound counted given c bytes within even,
          )
      | inr full ↦ elim (Bool-cases (ltb (block_size / 4) bytes)) [
        | inl large ↦
            rw (full, large)
              (
                omega arith,
                own_block-IsSound counted given c block (bytes + align)
                    ((block + align - 1) / align * align) bytes own (omega arith) (omega arith),
              )
        | inr little ↦
            let next = allocate_ptr block counted in
            let ready = allocate_ptr-IsSound counted given c block fresh in
            let within : bytes ≤ next.alloc_bytes_remaining =
              small_fits bytes next.alloc_bytes_remaining little
                (allocate_ptr-room block counted) in
            rw (full, little)
              (
                take_back-aligned next given ready bytes within even,
                take_back-IsSound next given ready bytes within even,
              )
      ]
    ]

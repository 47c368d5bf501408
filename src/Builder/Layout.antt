-- ===== src/Builder/Layout.antt =====
-- The file of a finished table: its footer names the filter and the index, which stand where it says.
use lsmkv.Base.{
  ℕ, ◌+◌, ◌%◌, ◌^◌, ◌<◌, ◌≡◌, refl, sym, ap, ◌∙◌, arith, List, ◌++◌, Bool, true, length, take, drop,
  ◌==◌, length-append, append_assoc, Bool-cases, inl, inr, take-append, drop-append,
}
use lsmkv.Coding.{encode_fixed32}
use lsmkv.Coding.RoundTrip.{length-encode_fixed}
use lsmkv.Status.{ok, is_ok}
use lsmkv.Format.{BlockEntryInfo}
use lsmkv.Format.RoundTrip.{FitsInfo}
use lsmkv.Builder.{
  WritableFile, TableBuilder, write_raw_block, flush, flush_data, flush_filter_block, write_trailer,
  add_index_entry,
}
use lsmkv.Builder.Written.{FileLaws, stored, write_raw_block-contents, is_ok-ok, is_not_ok}

-- The bytes that a handle names.
abbrev pub block_at : BlockEntryInfo → List ℕ → List ℕ
block_at handle file = take handle.size (drop handle.offset file)

block_at-append :
    (before raw later : List ℕ) (handle : BlockEntryInfo)
    → handle.offset ≡ length before
    → handle.size ≡ length raw
    → block_at handle (before ++ (raw ++ later)) ≡ raw
block_at-append before raw later handle at size =
    rw (at, drop-append (length before) before (raw ++ later) refl)
      (take-append handle.size raw later size)

-- The offset is the length of the file, in 64 bits.
abbrev pub IsPlaced : {F : Type 0} {io : WritableFile F} → FileLaws F io → TableBuilder F → Type 0
IsPlaced laws b = b.offset ≡ length (laws.contents b.file) % 2 ^ 64

module _ {F : Type 0} {io : WritableFile F} (laws : FileLaws F io) (crc32c : List ℕ → ℕ) where
  pub write_raw_block-IsPlaced :
      (b : TableBuilder F) (raw : List ℕ)
      → IsPlaced laws b
      → (write_raw_block io crc32c b raw).0.status ≡ ok
      → IsPlaced laws (write_raw_block io crc32c b raw).0
  write_raw_block-IsPlaced b raw at e =
      let (bytes, placed) = write_raw_block-contents io laws crc32c b raw e in
      rw (placed, bytes)
        (omega (
          arith,
          at,
          length-append (laws.contents b.file) (stored io laws crc32c raw),
          length-append raw (encode_fixed32 (crc32c raw)),
          length-encode_fixed 4 (crc32c raw),
        ))

  -- What a raw block leaves alone.
  pub write_raw_block-rest :
      (b : TableBuilder F) (raw : List ℕ)
      → ((write_raw_block io crc32c b raw).0.filter_block ≡ b.filter_block)
        × ((add_index_entry (write_raw_block io crc32c b raw).0).index_block
            ≡ (add_index_entry b).index_block)
  unfolding write_raw_block write_trailer add_index_entry
  write_raw_block-rest b raw = elim (Bool-cases (is_ok (io.append b.file raw).0)) [
    | inl good ↦ elim (Bool-cases b.need_next_index_entry) [
      | inl due ↦ rw (good, due) (refl, refl)
      | inr not_due ↦ rw (good, not_due) (refl, refl)
    ]
    | inr bad ↦ elim (Bool-cases b.need_next_index_entry) [
      | inl due ↦ rw (bad, due) (refl, refl)
      | inr not_due ↦ rw (bad, not_due) (refl, refl)
    ]
  ]

  handle_lem :
      (b : TableBuilder F) (raw : List ℕ)
      → ((write_raw_block io crc32c b raw).1.offset ≡ b.offset)
        × ((write_raw_block io crc32c b raw).1.size ≡ length raw)
  unfolding write_raw_block
  handle_lem b raw = (refl, refl)

  -- A raw block is found by its handle, whatever follows it.
  pub raw_found :
      (b : TableBuilder F) (raw later : List ℕ)
      → IsPlaced laws b
      → (write_raw_block io crc32c b raw).0.status ≡ ok
      → length (laws.contents (write_raw_block io crc32c b raw).0.file ++ later) < 2 ^ 64
      → (block_at
            (write_raw_block io crc32c b raw).1
            (laws.contents (write_raw_block io crc32c b raw).0.file ++ later)
          ≡ raw)
        × FitsInfo (write_raw_block io crc32c b raw).1
  raw_found b raw later at e small =
      let (bytes, placed) = write_raw_block-contents io laws crc32c b raw e in
      let before = laws.contents b.file in
      let trailer = encode_fixed32 (crc32c raw) in
      let split : laws.contents (write_raw_block io crc32c b raw).0.file ++ later
          ≡ before ++ (raw ++ (trailer ++ later)) =
        ap (λ l. l ++ later) bytes ∙ simp append_assoc refl in
      let sized : length before + length raw < 2 ^ 64 = omega (
        arith,
        ap length split,
        length-append before (raw ++ (trailer ++ later)),
        length-append raw (trailer ++ later),
      ) in
      let (where_at, how_long) = handle_lem b raw in
      (
        rw split (
            block_at-append before raw (trailer ++ later) _ (omega (arith, where_at, at)) how_long),
        (omega (arith, where_at, at), omega (arith, how_long)),
      )

  module _ (murmur_hash : List ℕ → List ℕ) where
    pub flush-failed :
        (b : TableBuilder F) (next : Bool)
        → (flush io crc32c murmur_hash b next).status ≡ ok
        → is_ok b.status ≡ true
    unfolding flush
    flush-failed b next e = elim (Bool-cases (is_ok b.status)) [
      | inl good ↦ good
      | inr bad ↦ absurd (is_not_ok b.status bad (rw bad at e))
    ]

    flush_data-IsPlaced :
        (b : TableBuilder F) (next : Bool)
        → IsPlaced laws b
        → (flush_data io crc32c b next).status ≡ ok
        → IsPlaced laws (flush_data io crc32c b next)
          × ((flush_data io crc32c b next).filter_block ≡ b.filter_block)
    unfolding flush_data
    flush_data-IsPlaced b next at e =
        let raw = (write_raw_block io crc32c b b.data_block).0 in
        elim (Bool-cases (is_ok raw.status)) [
          | inl good ↦
              let placed = write_raw_block-IsPlaced b b.data_block at (is_ok-ok _ good) in
              let (kept, out) = laws.flush-ok raw.file (rw good at e) in
              rw good (
                placed ∙ ap (λ l. length l % 2 ^ 64) (sym kept),
                (write_raw_block-rest b b.data_block).0,
              )
          | inr bad ↦ absurd (is_not_ok raw.status bad (rw bad at e))
        ]

    pub flush-IsPlaced :
        (b : TableBuilder F) (next : Bool)
        → IsPlaced laws b
        → (flush io crc32c murmur_hash b next).status ≡ ok
        → IsPlaced laws (flush io crc32c murmur_hash b next)
          × ((flush io crc32c murmur_hash b next).filter_block
              ≡ flush_filter_block murmur_hash b.filter_block)
    unfolding flush
    flush-IsPlaced b next at e =
        let live = flush-failed b next e in
        let filtered : TableBuilder F = record b {
          filter_block = flush_filter_block murmur_hash b.filter_block;
        } in
        elim (Bool-cases (length b.data_block == 0)) [
          | inl none_left ↦ rw (live, none_left) (at, refl)
          | inr some_left ↦
              rw (live, some_left)
                (flush_data-IsPlaced filtered next at (rw (live, some_left) at e))
        ]

-- ===== src/Builder/Indexed.antt =====
-- The last block of a table: the flush in `Finish` puts it into the file, and the index gets its entry.
use lsmkv.Base.{
  ℕ, ◌^◌, ◌<◌, ◌≡◌, refl, sym, ap, ◌∙◌, List, ◌++◌, true, length, ◌==◌, if◌then◌else◌, Bool-cases,
  inl, inr, ◌⊎◌, ==_iff,
}
use lsmkv.Status.{ok, is_ok}
use lsmkv.Block as Block
use lsmkv.Format.{BlockEntryInfo, encode_block_info}
use lsmkv.Builder.{
  WritableFile, TableBuilder, write_raw_block, write_trailer, flush, flush_data, flush_filter_block,
  add_index_entry,
}
use lsmkv.Builder.Written.{FileLaws, is_ok-ok, is_not_ok}
use lsmkv.Builder.Layout.{IsPlaced, block_at, raw_found, flush-failed}

module _ {F : Type 0} where
  -- What the index has at the end, of a builder with the status before the flush and of the file's bytes:
  -- the entry that was due, if there is no block to write, and else one for the last block, under the last
  -- key and with a handle that names the block.
  abbrev pub IsIndex : TableBuilder F → List ℕ → List ℕ → Type 0
  IsIndex b file index =
      ((length b.data_block ≡ 0)
        × (index ≡ (
            if b.need_next_index_entry
            then Block.add b.index_block b.last_key (encode_block_info b.data_block_entry)
            else b.index_block)))
      ⊎ ((handle : BlockEntryInfo) × (block_at handle file ≡ b.data_block)
          × (index ≡ Block.add b.index_block b.last_key (encode_block_info handle)))

  index_due :
      (b : TableBuilder F)
      → (add_index_entry b).index_block ≡ (
          if b.need_next_index_entry
          then Block.add b.index_block b.last_key (encode_block_info b.data_block_entry)
          else b.index_block)
  unfolding add_index_entry
  index_due b = elim (Bool-cases b.need_next_index_entry) [
    | inl due ↦ rw due refl
    | inr not_due ↦ rw not_due refl
  ]

module _ {F : Type 0} {io : WritableFile F} (laws : FileLaws F io) (crc32c : List ℕ → ℕ) where
  -- The handle of the block that is next to be written.
  abbrev pub next_handle : TableBuilder F → BlockEntryInfo
  next_handle b = record { offset = b.offset; size = length b.data_block }

  -- A block that is flushed is due for the index under the last key, and stands in the file from then on.
  abbrev Flushed : TableBuilder F → TableBuilder F → Type 0
  Flushed b after =
      ((add_index_entry after).index_block
        ≡ Block.add b.index_block b.last_key (encode_block_info (next_handle b)))
      × ((later : List ℕ)
          → length (laws.contents after.file ++ later) < 2 ^ 64
          → block_at (next_handle b) (laws.contents after.file ++ later) ≡ b.data_block)

  flush_data-due :
      (b : TableBuilder F)
      → is_ok (write_raw_block io crc32c b b.data_block).0.status ≡ true
      → (add_index_entry (flush_data io crc32c b true)).index_block
        ≡ Block.add b.index_block b.last_key (encode_block_info (next_handle b))
  unfolding flush_data add_index_entry write_raw_block write_trailer
  flush_data-due b good = elim (Bool-cases (is_ok (io.append b.file b.data_block).0)) [
    | inl first ↦ rw (good, first) refl
    | inr failed ↦ rw (good, failed) refl
  ]

  -- A flush that succeeds has written the block, and leaves the bytes of the file as they are.
  flush_data-written :
      (b : TableBuilder F)
      → (flush_data io crc32c b true).status ≡ ok
      → (is_ok (write_raw_block io crc32c b b.data_block).0.status ≡ true)
        × (laws.contents (flush_data io crc32c b true).file
            ≡ laws.contents (write_raw_block io crc32c b b.data_block).0.file)
  unfolding flush_data
  flush_data-written b done =
      let raw = (write_raw_block io crc32c b b.data_block).0 in
      elim (Bool-cases (is_ok raw.status)) [
        | inl good ↦ (good, rw good (laws.flush-ok raw.file (rw good at done)).0)
        | inr bad ↦ absurd (is_not_ok raw.status bad (rw bad at done))
      ]

  handle_lem : (b : TableBuilder F) → (write_raw_block io crc32c b b.data_block).1 ≡ next_handle b
  unfolding write_raw_block
  handle_lem b = refl

  flush_data-Flushed :
      (b : TableBuilder F)
      → IsPlaced laws b
      → (flush_data io crc32c b true).status ≡ ok
      → Flushed b (flush_data io crc32c b true)
  flush_data-Flushed b at done =
      let (good, same) = flush_data-written b done in
      (
        flush_data-due b good,
        λ later small.
            let bytes = laws.contents (write_raw_block io crc32c b b.data_block).0.file ++ later in
            rw same (
              ap (λ h. block_at h bytes) (sym (handle_lem b))
              ∙ (raw_found laws crc32c b b.data_block later at (is_ok-ok _ good)
                  (rw same at small)).0),
      )

  module _ (murmur_hash : List ℕ → List ℕ) where
    pub flush-IsIndex :
        (b : TableBuilder F) (later : List ℕ)
        → IsPlaced laws b
        → (flush io crc32c murmur_hash b true).status ≡ ok
        → length (laws.contents (flush io crc32c murmur_hash b true).file ++ later) < 2 ^ 64
        → IsIndex b
            (laws.contents (flush io crc32c murmur_hash b true).file ++ later)
            (add_index_entry (flush io crc32c murmur_hash b true)).index_block
    unfolding flush
    flush-IsIndex b later at done small =
        let live = flush-failed laws crc32c murmur_hash b true done in
        let filtered : TableBuilder F = record b {
          filter_block = flush_filter_block murmur_hash b.filter_block;
        } in
        elim (Bool-cases (length b.data_block == 0)) [
          | inl none_left ↦
              rw (live, none_left)
                (inl ((==_iff (length b.data_block) 0).0 none_left, index_due filtered))
          | inr some_left ↦
              let (due, placed) = flush_data-Flushed filtered at (rw (live, some_left) at done) in
              rw (live, some_left)
                (inr (next_handle b, placed later (rw (live, some_left) at small), due))
        ]

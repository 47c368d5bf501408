-- ===== src/Builder/Finished.antt =====
-- A finished table: the footer at the end of the file names the filter and the index.
use lsmkv.Base.{
  ℕ, ◌+◌, ◌-◌, ◌%◌, ◌^◌, ◌<◌, ◌≡◌, refl, sym, ap, ◌∙◌, arith, List, [], ◌∷◌, ◌++◌, true, Option,
  some, length, drop, ◌==◌, length-append, append-nil, nil-of_length, ==_iff, append_assoc,
  Bool-cases, inl, inr, drop-append,
}
use lsmkv.Status.{ok, is_ok}
use lsmkv.Format.{
  BlockEntryInfo, Footer, encode_footer, decode_footer, encoded_length, encode_block_info, magic_lo,
  magic_hi,
}
use lsmkv.Coding.{encode_fixed32}
use lsmkv.Coding.RoundTrip.{length-encode_fixed}
use lsmkv.Format.RoundTrip.{decode_footer-encode_footer, FitsInfo, length-encode_block_info}
use lsmkv.BloomFilter.{FilterBlockBuilder, flush_filter, finish_filter}
use lsmkv.Builder.{
  WritableFile, TableBuilder, add_index_entry, write_raw_block, write_index, write_filter,
  write_footer, empty_entry, flush, flush_filter_block, finish_footer, finish_index, finish_filters,
  finish,
}
use lsmkv.Builder.Written.{FileLaws, stored, is_ok-ok, is_not_ok, write_raw_block-contents}
use lsmkv.Builder.Indexed.{IsIndex, flush-IsIndex}
use lsmkv.Builder.Layout.{
  block_at, IsPlaced, write_raw_block-IsPlaced, write_raw_block-rest, raw_found, flush-IsPlaced,
}

-- Flushing the filter twice is flushing it once.
finish-flush_filter :
    (murmur_hash : List ℕ → List ℕ) (key_buf : List ℕ) (keys : List (ℕ × ℕ)) (buffer : List ℕ)
    → (finish_filter murmur_hash
        (flush_filter murmur_hash (record { key_buf = key_buf; keys = keys; buffer = buffer }))).1
      ≡ (finish_filter murmur_hash (record { key_buf = key_buf; keys = keys; buffer = buffer })).1
unfolding finish_filter flush_filter
finish-flush_filter murmur_hash key_buf [] buffer = refl
finish-flush_filter murmur_hash key_buf (k ∷ keys) buffer = refl

length-encode_footer : (f : Footer) → length (encode_footer f) ≡ 56
unfolding encode_footer
length-encode_footer f =
    let a = encode_block_info f.metaindex_handle in
    let b = encode_block_info f.index_handle in
    let c = encode_block_info f.model_handle in
    let lo = encode_fixed32 magic_lo in
    let hi = encode_fixed32 magic_hi in
    omega (
      arith,
      length-append (a ++ b ++ c ++ lo) hi,
      length-append (a ++ b ++ c) lo,
      length-append (a ++ b) c,
      length-append a b,
      length-encode_block_info f.metaindex_handle,
      length-encode_block_info f.index_handle,
      length-encode_block_info f.model_handle,
      length-encode_fixed 4 magic_lo,
      length-encode_fixed 4 magic_hi,
    )

minus_footer : (n : ℕ) → n + 56 - encoded_length ≡ n
minus_footer n = omega arith

-- What the file of a finished table has, for the bytes of its filter and of its index.
abbrev pub HasParts : List ℕ → ℕ → List ℕ → List ℕ → Type 0
HasParts file size bits index =
    (size ≡ length file)
    × (footer : Footer) × (decode_footer (drop (size - encoded_length) file) ≡ some (ok, footer))
    × (block_at footer.metaindex_handle file ≡ bits)
    × (block_at footer.index_handle file ≡ index)

module _ {F : Type 0} {io : WritableFile F} (laws : FileLaws F io) (crc32c : List ℕ → ℕ) where
  write_footer-contents :
      (b : TableBuilder F) (footer : Footer)
      → (write_footer io crc32c b footer).status ≡ ok
      → laws.contents (write_footer io crc32c b footer).file
        ≡ laws.contents b.file ++ encode_footer footer
  unfolding write_footer
  write_footer-contents b footer e = laws.append-ok b.file (encode_footer footer) e

  write_footer-offset :
      (b : TableBuilder F) (footer : Footer)
      → IsPlaced laws b
      → (write_footer io crc32c b footer).status ≡ ok
      → length (laws.contents b.file ++ encode_footer footer) < 2 ^ 64
      → (write_footer io crc32c b footer).offset ≡ length (laws.contents b.file) + 56
  unfolding write_footer is_ok
  write_footer-offset b footer at e small = rw e (
      omega (
        arith,
        at,
        length-append (laws.contents b.file) (encode_footer footer),
        length-encode_footer footer,
      ))

  -- The index is found by its handle, an empty one too.
  write_index_lem :
      (b : TableBuilder F) (later : List ℕ)
      → IsPlaced laws b
      → b.status ≡ ok
      → (write_index io crc32c b).0.status ≡ ok
      → length (laws.contents (write_index io crc32c b).0.file ++ later) < 2 ^ 64
      → IsPlaced laws (write_index io crc32c b).0
        × ((more : List ℕ) × (laws.contents (write_index io crc32c b).0.file
              ≡ laws.contents b.file ++ more))
        × (block_at
              (write_index io crc32c b).1
              (laws.contents (write_index io crc32c b).0.file ++ later)
            ≡ b.index_block)
        × FitsInfo (write_index io crc32c b).1
  unfolding write_index
  write_index_lem b later at good e small = elim (Bool-cases (length b.index_block == 0)) [
    | inl empty ↦
        let none_due : b.index_block ≡ [] =
          nil-of_length b.index_block ((==_iff (length b.index_block) 0).0 empty) in
        rw empty (at, ([], sym (append-nil _)), sym none_due, (omega arith, omega arith))
    | inr full ↦
        let done : (write_raw_block io crc32c b b.index_block).0.status ≡ ok = rw full at e in
        let fits : length
              (laws.contents (write_raw_block io crc32c b b.index_block).0.file ++ later)
            < 2 ^ 64 =
          rw full at small in
        let (found, handle) = raw_found laws crc32c b b.index_block later at done fits in
        rw full (
          write_raw_block-IsPlaced laws crc32c b b.index_block at done,
          (_, (write_raw_block-contents io laws crc32c b b.index_block done).0),
          found,
          handle,
        )
  ]

  -- Each part of `Finish` that ends well has found the status good and gone on.
  footer_step :
      (b : TableBuilder F) (index_handle filter_handle : BlockEntryInfo)
      → (finish_footer io crc32c (b, index_handle) filter_handle).status ≡ ok
      → (b.status ≡ ok)
        × (finish_footer io crc32c (b, index_handle) filter_handle
            ≡ write_footer io crc32c b (record {
              metaindex_handle = filter_handle;
              index_handle = index_handle;
              model_handle = empty_entry;
            }))
  unfolding finish_footer
  footer_step b index_handle filter_handle e = elim (Bool-cases (is_ok b.status)) [
    | inl good ↦ (is_ok-ok b.status good, rw good refl)
    | inr bad ↦ absurd (is_not_ok b.status bad (rw bad at e))
  ]

  index_step :
      (b : TableBuilder F) (filter_handle : BlockEntryInfo)
      → (finish_index io crc32c (b, filter_handle)).status ≡ ok
      → (b.status ≡ ok)
        × (finish_index io crc32c (b, filter_handle)
            ≡ finish_footer io crc32c (write_index io crc32c (add_index_entry b)) filter_handle)
  unfolding finish_index
  index_step b filter_handle e = elim (Bool-cases (is_ok b.status)) [
    | inl good ↦ (is_ok-ok b.status good, rw good refl)
    | inr bad ↦ absurd (is_not_ok b.status bad (rw bad at e))
  ]

  pub add_index_entry-rest :
      (b : TableBuilder F)
      → ((add_index_entry b).file ≡ b.file)
        × ((add_index_entry b).offset ≡ b.offset)
        × ((add_index_entry b).status ≡ b.status)
  unfolding add_index_entry
  add_index_entry-rest b = elim (Bool-cases b.need_next_index_entry) [
    | inl due ↦ rw due (refl, refl, refl)
    | inr not_due ↦ rw not_due (refl, refl, refl)
  ]

  -- The parts behind the data: the filter's bits, the index and the footer.
  finish_index_lem :
      (b : TableBuilder F) (bits : List ℕ)
      → IsPlaced laws b
      → (finish_index io crc32c (write_raw_block io crc32c b bits)).status ≡ ok
      → length (laws.contents (finish_index io crc32c (write_raw_block io crc32c b bits)).file)
        < 2 ^ 64
      → HasParts
          (laws.contents (finish_index io crc32c (write_raw_block io crc32c b bits)).file)
          (finish_index io crc32c (write_raw_block io crc32c b bits)).offset
          bits
          (add_index_entry b).index_block
        × (rest : List ℕ) × (laws.contents
              (finish_index io crc32c (write_raw_block io crc32c b bits)).file
            ≡ laws.contents b.file ++ rest)
  finish_index_lem b bits at e small =
      let filtered = (write_raw_block io crc32c b bits).0 in
      let filter_handle = (write_raw_block io crc32c b bits).1 in
      let due = add_index_entry filtered in
      let indexed = (write_index io crc32c due).0 in
      let index_handle = (write_index io crc32c due).1 in
      let footer : Footer = record {
        metaindex_handle = filter_handle;
        index_handle = index_handle;
        model_handle = empty_entry;
      } in
      let (good_filter, to_footer) = index_step filtered filter_handle e in
      let e2 : (finish_footer io crc32c (indexed, index_handle) filter_handle).status ≡ ok =
        rw to_footer at e in
      let (good_index, to_end) = footer_step indexed index_handle filter_handle e2 in
      let all = to_footer ∙ to_end in
      let done : (write_footer io crc32c indexed footer).status ≡ ok = rw all at e in
      let bytes : laws.contents (finish_index io crc32c (write_raw_block io crc32c b bits)).file
          ≡ laws.contents indexed.file ++ encode_footer footer =
        ap (λ t. laws.contents t.file) all ∙ write_footer-contents indexed footer done in
      let (same_file, same_offset, same_status) = add_index_entry-rest filtered in
      let placed = write_raw_block-IsPlaced laws crc32c b bits at good_filter in
      let due_placed : IsPlaced laws due =
        same_offset ∙ placed ∙ ap (λ f. length (laws.contents f) % 2 ^ 64) (sym same_file) in
      let (end_placed, (more, added), found_index, fits_index) =
        write_index_lem due (encode_footer footer) due_placed (same_status ∙ good_filter) good_index
          (rw bytes at small) in
      let tail : laws.contents indexed.file ++ encode_footer footer
          ≡ laws.contents filtered.file ++ (more ++ encode_footer footer) =
        ap (λ l. l ++ encode_footer footer) (added ∙ ap (λ f. laws.contents f ++ more) same_file)
        ∙ append_assoc (laws.contents filtered.file) more (encode_footer footer) in
      let (found_filter, fits_filter) =
        raw_found laws crc32c b bits (more ++ encode_footer footer) at good_filter
          (rw (bytes, tail) at small) in
      let size : (finish_index io crc32c (write_raw_block io crc32c b bits)).offset
          ≡ length (laws.contents indexed.file) + 56 =
        ap (λ t. t.offset) all
        ∙ write_footer-offset indexed footer end_placed done (rw bytes at small) in
      let written = (write_raw_block-contents io laws crc32c b bits good_filter).0 in
      let onward = more ++ encode_footer footer in
      let rest : laws.contents indexed.file ++ encode_footer footer
          ≡ laws.contents b.file ++ (stored io laws crc32c bits ++ onward) =
        tail
        ∙ ap (λ l. l ++ onward) written
        ∙ append_assoc (laws.contents b.file) (stored io laws crc32c bits) onward in
      (
        rw (size, bytes)
            (
              omega (
                arith,
                length-append (laws.contents indexed.file) (encode_footer footer),
                length-encode_footer footer,
              ),
              footer,
              rw
                  (
                    minus_footer (length (laws.contents indexed.file)),
                    drop-append _ (laws.contents indexed.file) (encode_footer footer) refl,
                  )
                  (decode_footer-encode_footer footer
                    (fits_filter, fits_index, (omega arith, omega arith))),
              rw tail found_filter,
              found_index ∙ (write_raw_block-rest laws crc32c b bits).1,
            ),
        _,
        bytes ∙ rest,
      )

  module _ (murmur_hash : List ℕ → List ℕ) where
    pub filters_step :
        (b : TableBuilder F)
        → (finish_filters io crc32c murmur_hash b).status ≡ ok
        → (b.status ≡ ok)
          × (finish_filters io crc32c murmur_hash b
              ≡ finish_index io crc32c (write_filter io crc32c murmur_hash b b.filter_block))
    unfolding finish_filters
    filters_step b e = elim (Bool-cases (is_ok b.status)) [
      | inl good ↦ (is_ok-ok b.status good, rw good refl)
      | inr bad ↦ absurd (is_not_ok b.status bad (rw bad at e))
    ]

    -- The index entry that is due does not depend on the filter.
    index-filter :
        (b : TableBuilder F) (f : Option FilterBlockBuilder)
        → (add_index_entry (record b { filter_block = f })).index_block
          ≡ (add_index_entry b).index_block
    unfolding add_index_entry
    index-filter b f = elim (Bool-cases b.need_next_index_entry) [
      | inl due ↦ rw due refl
      | inr not_due ↦ rw not_due refl
    ]

    pub finish_lem :
        (b : TableBuilder F) (f : FilterBlockBuilder)
        → IsPlaced laws b
        → b.filter_block ≡ some f
        → (finish io crc32c murmur_hash b).status ≡ ok
        → length (laws.contents (finish io crc32c murmur_hash b).file) < 2 ^ 64
        → (index : List ℕ) × HasParts
            (laws.contents (finish io crc32c murmur_hash b).file)
            (finish io crc32c murmur_hash b).offset
            (finish_filter murmur_hash f).1
            index
          × IsIndex b (laws.contents (finish io crc32c murmur_hash b).file) index
    unfolding finish write_filter
    finish_lem b f at has e small =
        let closed : TableBuilder F = record b { closed = true } in
        let flushed = flush io crc32c murmur_hash closed true in
        let (good, step) = filters_step flushed e in
        let (placed, kept) = flush-IsPlaced laws crc32c murmur_hash closed true at good in
        let filter : flushed.filter_block ≡ some (flush_filter murmur_hash f) =
          kept ∙ ap (flush_filter_block murmur_hash) has in
        let again = finish_filter murmur_hash (flush_filter murmur_hash f) in
        let ready : TableBuilder F = record flushed { filter_block = some again.0 } in
        let all : finish_filters io crc32c murmur_hash flushed
            ≡ finish_index io crc32c (write_raw_block io crc32c ready again.1) =
          step
          ∙ ap (λ o. finish_index io crc32c (write_filter io crc32c murmur_hash flushed o))
              filter in
        let once : again.1 ≡ (finish_filter murmur_hash f).1 =
          finish-flush_filter murmur_hash f.key_buf f.keys f.buffer in
        let (parts, rest, bytes) =
          finish_index_lem ready again.1 placed (rw all at e) (rw all at small) in
        let whole : laws.contents (finish_filters io crc32c murmur_hash flushed).file
            ≡ laws.contents flushed.file ++ rest =
          ap (λ t. laws.contents t.file) all ∙ bytes in
        (
          (add_index_entry flushed).index_block,
          rw (all, sym once, sym (index-filter flushed (some again.0))) parts,
          rw whole (flush-IsIndex laws crc32c murmur_hash closed rest at good (rw whole at small)),
        )

-- ===== src/Builder/Written.antt =====
-- What a table's builder has put into its file after a data block is flushed.
use lsmkv.Base.{
  ℕ, ◌+◌, ◌%◌, ◌^◌, ◌<◌, ◌≡◌, refl, ap, ◌∙◌, arith, List, [], ◌++◌, Bool, length, append_assoc,
  Bool-cases, inl, inr,
}
use lsmkv.Coding.{encode_fixed32}
use lsmkv.Status.{ok, is_ok}
pub use lsmkv.Status.{is_ok-ok, ok_is_ok, is_not_ok}
use lsmkv.Builder.{WritableFile, TableBuilder, write_trailer, write_raw_block, flush_data}

-- What the builder relies on: a success puts the bytes behind those that the file has taken, and a
-- flush that succeeds leaves all of them on the disk.
pub record FileLaws (F : Type 0) (io : WritableFile F) : Type 0 where
  pub contents : F → List ℕ
  pub disk : F → List ℕ
  pub append-ok :
      (f : F) (s : List ℕ) → (io.append f s).0 ≡ ok → contents (io.append f s).1 ≡ contents f ++ s
  pub flush-ok :
      (f : F)
      → (io.flush f).0 ≡ ok
      → (contents (io.flush f).1 ≡ contents f) × (disk (io.flush f).1 ≡ contents f)

module _ {F : Type 0} (io : WritableFile F) (laws : FileLaws F io) (crc32c : List ℕ → ℕ) where
  -- A block as it lies in the file.
  abbrev pub stored : List ℕ → List ℕ
  stored raw = raw ++ encode_fixed32 (crc32c raw)

  -- A raw block that is written lies behind what was there, and the offset follows, in 64 bits.
  pub write_raw_block-contents :
      (b : TableBuilder F) (raw : List ℕ)
      → (write_raw_block io crc32c b raw).0.status ≡ ok
      → (laws.contents (write_raw_block io crc32c b raw).0.file
          ≡ laws.contents b.file ++ stored raw)
        × ((write_raw_block io crc32c b raw).0.offset ≡ (b.offset + length raw + 4) % 2 ^ 64)
  unfolding write_raw_block write_trailer is_ok
  write_raw_block-contents b raw e = elim (Bool-cases (is_ok (io.append b.file raw).0)) [
    | inl good ↦
        let first = laws.append-ok b.file raw (is_ok-ok _ good) in
        let trailer = encode_fixed32 (crc32c raw) in
        let done : (io.append (io.append b.file raw).1 trailer).0 ≡ ok = rw good at e in
        let second = laws.append-ok (io.append b.file raw).1 trailer done in
        rw (good, done)
          (
            second ∙ ap (λ l. l ++ trailer) first ∙ append_assoc (laws.contents b.file) raw trailer,
            refl,
          )
    | inr bad ↦
        let failed : (io.append b.file raw).0 ≡ ok = rw bad at e in absurd (is_not_ok _ bad failed)
  ]

  write_raw_block_lem :
      (b : TableBuilder F) (raw : List ℕ)
      → b.offset + length raw + 4 < 2 ^ 64
      → (write_raw_block io crc32c b raw).0.status ≡ ok
      → (laws.contents (write_raw_block io crc32c b raw).0.file
          ≡ laws.contents b.file ++ stored raw)
        × ((write_raw_block io crc32c b raw).0.offset ≡ b.offset + length raw + 4)
  write_raw_block_lem b raw small e =
      let (bytes, placed) = write_raw_block-contents b raw e in (bytes, omega arith)

  -- A data block that reaches the file lies behind what was there, and on the disk.
  pub flush_data_lem :
      (b : TableBuilder F) (next : Bool)
      → b.offset ≡ length (laws.contents b.file)
      → b.offset + length b.data_block + 4 < 2 ^ 64
      → (flush_data io crc32c b next).status ≡ ok
      → (laws.contents (flush_data io crc32c b next).file
          ≡ laws.contents b.file ++ stored b.data_block)
        × (laws.disk (flush_data io crc32c b next).file
            ≡ laws.contents b.file ++ stored b.data_block)
        × ((flush_data io crc32c b next).offset ≡ b.offset + length b.data_block + 4)
        × ((flush_data io crc32c b next).data_block ≡ [])
  unfolding flush_data
  flush_data_lem b next at small e =
      let raw = (write_raw_block io crc32c b b.data_block).0 in
      elim (Bool-cases (is_ok raw.status)) [
        | inl good ↦
            let (written, placed) = write_raw_block_lem b b.data_block small (is_ok-ok _ good) in
            let flushed : (io.flush raw.file).0 ≡ ok = rw good at e in
            let (kept, out) = laws.flush-ok raw.file flushed in
            rw good (kept ∙ written, out ∙ written, placed, refl)
        | inr bad ↦ absurd (is_not_ok raw.status bad (rw bad at e))
      ]

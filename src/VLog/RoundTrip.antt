-- ===== src/VLog/RoundTrip.antt =====
-- An entry of the value log is read back as it was written.
use mathlib.Core.Path.{ap₂}
use lsmkv.Base.{
  ℕ, ◌+◌, ◌%◌, ◌^◌, ◌<◌, ◌≡◌, refl, sym, ap, ◌∙◌, arith, List, [], ◌++◌, Bool, true, false, Option,
  some, length, take, drop, ltb, leb, ◌==◌, Bool-cases, inl, inr, take-append, drop-append,
  length-append, drop-add,
}
use lsmkv.Coding.{encode_fixed32, decode_fixed32}
use lsmkv.Coding.RoundTrip.{length-encode_fixed, decode_fixed-encode_fixed_self}
use lsmkv.Keys.{extract_sequence_number}
use lsmkv.Block
use lsmkv.Block.Entries.{
  Entry, block_entry, length-block_entry, block_entry_sizes, block_entry_parts, add_lem,
}
use lsmkv.Format.{VLogEntryInfo}
use lsmkv.Status.{Code, ok, is_ok}
use lsmkv.Builder.{
  WritableFile, TableBuilder, add_index_entry, add_entry, add_with_info, set_last_key, flush,
  flush_data, flush_filter_block, block_size,
}
use lsmkv.Builder.Written.{FileLaws, stored, flush_data_lem, is_ok-ok, is_not_ok, ok_is_ok}
use lsmkv.VLog.{VLogBuilder, append_entry, settle, check_entry, check_live}

check_passes :
    (crc32c : List ℕ → ℕ) (live : Option ℕ) (buf : List ℕ) (k v : ℕ)
    → decode_fixed32 buf ≡ k
    → decode_fixed32 (drop 4 buf) ≡ v
    → length buf ≡ k + v + 12
    → k + v + 12 < 2 ^ 32
    → decode_fixed32 (drop (k + v + 8) buf) ≡ crc32c (take (k + v + 8) buf)
    → check_entry crc32c live (k + v + 8) buf
      ≡ check_live live (extract_sequence_number (take k (drop 8 buf))) (take v (drop (k + 8) buf))
unfolding check_entry
check_passes crc32c live buf k v ek ev size fits crc = rw (ek, ev, crc) (ground arith)

-- The bytes of a stored entry pass the checks, unless the entry is out of date.
pub check_entry_lem :
    (crc32c : List ℕ → ℕ) (live : Option ℕ) (e : Entry)
    → crc32c (block_entry e) < 2 ^ 32
    → length e.key + length e.value + 12 < 2 ^ 32
    → check_entry crc32c live
        (length e.key + length e.value + 8)
        (block_entry e ++ encode_fixed32 (crc32c (block_entry e)))
      ≡ check_live live (extract_sequence_number e.key) e.value
check_entry_lem crc32c live e small fits =
    let crc = encode_fixed32 (crc32c (block_entry e)) in
    let (ek, ev) = block_entry_sizes e crc (omega arith) in
    let (behind, key) = block_entry_parts e crc in
    let n = length-block_entry e in
    let size : length (block_entry e ++ crc) ≡ length e.key + length e.value + 12 =
      omega (
        arith,
        length-append (block_entry e) crc,
        length-encode_fixed 4 (crc32c (block_entry e)),
      ) in
    let last : drop (length e.key + length e.value + 8) (block_entry e ++ crc) ≡ crc =
      drop-append _ (block_entry e) crc (sym n) in
    let first : take (length e.key + length e.value + 8) (block_entry e ++ crc) ≡ block_entry e =
      take-append _ (block_entry e) crc (sym n) in
    let swap : length e.key + 8 ≡ 8 + length e.key = omega arith in
    let value : take (length e.value) (drop (length e.key + 8) (block_entry e ++ crc)) ≡ e.value =
      rw
        (
          swap,
          drop-add 8 (length e.key) (block_entry e ++ crc),
          behind,
          drop-append (length e.key) e.key (e.value ++ crc) refl,
        )
        (take-append (length e.value) e.value crc refl) in
    check_passes crc32c live (block_entry e ++ crc) (length e.key) (length e.value) ek ev size fits
      (rw (last, first) (decode_fixed-encode_fixed_self 4 (crc32c (block_entry e)) small))
    ∙ ap₂ (check_live live) (ap extract_sequence_number key) value

-- A builder that is ready for the next entry: its data block is empty and its offset is the end.
pub record IsReady {F : Type 0} {io : WritableFile F} (laws : FileLaws F io) (b : TableBuilder F)
    : Type 0 where
  pub good : b.status ≡ ok
  pub empty : b.data_block ≡ []
  pub at_end : b.offset ≡ length (laws.contents b.file)
  pub written : laws.disk b.file ≡ laws.contents b.file

module _ {F : Type 0} {io : WritableFile F} (laws : FileLaws F io) (crc32c : List ℕ → ℕ)
    (murmur_hash : List ℕ → List ℕ) where
  -- The bytes of an entry in the log.
  abbrev pub logged : Entry → List ℕ
  logged e = stored io laws crc32c (block_entry e)

  stored_length :
      (b : TableBuilder F) (e : Entry)
      → b.data_block ≡ block_entry e
      → b.offset ≡ length (laws.contents b.file)
      → b.offset + length b.data_block + 4
        ≡ length (laws.contents b.file ++ stored io laws crc32c b.data_block)
  stored_length b e held at = omega (
    arith,
    length-append (laws.contents b.file) (stored io laws crc32c b.data_block),
    length-append b.data_block (encode_fixed32 (crc32c b.data_block)),
    length-encode_fixed 4 (crc32c b.data_block),
  )

  -- The flush of the only entry.
  flush-only :
      (b : TableBuilder F) (e : Entry) (next : Bool)
      → b.status ≡ ok
      → b.data_block ≡ block_entry e
      → b.offset ≡ length (laws.contents b.file)
      → b.offset + length (block_entry e) + 4 < 2 ^ 64
      → (flush io crc32c murmur_hash b next).status ≡ ok
      → IsReady laws (flush io crc32c murmur_hash b next)
        × (laws.contents (flush io crc32c murmur_hash b next).file
            ≡ laws.contents b.file ++ logged e)
  unfolding flush is_ok
  flush-only b e next good held at small done =
      let live : is_ok b.status ≡ true = ap is_ok good in
      let full : (length b.data_block == 0) ≡ false =
        rw held (ground (arith, length-block_entry e)) in
      let filtered : TableBuilder F = record b {
        filter_block = flush_filter_block murmur_hash b.filter_block;
      } in
      let ended : (flush_data io crc32c filtered next).status ≡ ok = rw (live, full) at done in
      let (taken, out, placed, emptied) =
        flush_data_lem io laws crc32c filtered next at (rw held small) ended in
      rw (live, full)
        (
          record {
            good = ended;
            empty = emptied;
            at_end = rw (placed, taken) (stored_length b e held at);
            written = out ∙ sym taken;
          },
          rw (sym held) taken,
        )

  -- A flush with nothing to write.
  flush-nothing :
      (b : TableBuilder F) (next : Bool)
      → IsReady laws b
      → IsReady laws (flush io crc32c murmur_hash b next)
        × (laws.contents (flush io crc32c murmur_hash b next).file ≡ laws.contents b.file)
        × ((flush io crc32c murmur_hash b next).status ≡ ok)
  unfolding flush is_ok
  flush-nothing b next r =
      let live : is_ok b.status ≡ true = ap is_ok r.good in
      let none_left : (length b.data_block == 0) ≡ true = rw r.empty refl in
      rw (live, none_left)
        (
          record { good = r.good; empty = r.empty; at_end = r.at_end; written = r.written },
          refl,
          r.good,
        )

  -- The builder with the entry in its data block.
  abbrev holding : TableBuilder F → Entry → TableBuilder F
  holding b e = add_entry (add_index_entry b) e.key e.value

  holding_lem :
      (b : TableBuilder F) (e : Entry)
      → IsReady laws b
      → ((holding b e).data_block ≡ block_entry e)
        × ((holding b e).status ≡ ok)
        × ((holding b e).offset ≡ b.offset)
        × ((holding b e).file ≡ b.file)
  unfolding add_entry add_index_entry
  holding_lem b e r =
      let held : Block.add b.data_block e.key e.value ≡ block_entry e = rw r.empty (add_lem [] e) in
      elim (Bool-cases b.need_next_index_entry) [
        | inl due ↦ rw due (held, r.good, refl, refl)
        | inr not_due ↦ rw not_due (held, r.good, refl, refl)
      ]

  -- The place that an entry is given.
  abbrev place : TableBuilder F → Entry → VLogEntryInfo → VLogEntryInfo
  place b e info = record info {
    offset = (b.offset + length b.data_block) % 2 ^ 64;
    length = (length e.value + length e.key + 8) % 2 ^ 32;
  }

  -- The block is flushed at once if the entry fills it, and behind `Add` otherwise.
  add_large :
      (b : TableBuilder F) (e : Entry) (info : VLogEntryInfo)
      → is_ok b.status ≡ true
      → leb block_size (length (holding b e).data_block) ≡ true
      → add_with_info io crc32c murmur_hash b e.key e.value info ≡ (
        flush io crc32c murmur_hash (record (holding b e) { last_key = e.key }) true,
        place b e info,
      )
  unfolding add_with_info
  add_large b e info live large = rw (live, large) refl

  add_small :
      (b : TableBuilder F) (e : Entry) (info : VLogEntryInfo)
      → is_ok b.status ≡ true
      → leb block_size (length (holding b e).data_block) ≡ false
      → add_with_info io crc32c murmur_hash b e.key e.value info ≡ (holding b e, place b e info)
  unfolding add_with_info
  add_small b e info live little = rw (live, little) refl

  keyed : (b : TableBuilder F) (key : List ℕ) → IsReady laws b → IsReady laws (set_last_key b key)
  unfolding set_last_key
  keyed b key r = record { good = r.good; empty = r.empty; at_end = r.at_end; written = r.written }

  -- What there is to show of an append to `b`, of what it gave.
  abbrev Logged :
      VLogBuilder F → TableBuilder F → Entry → Code × VLogEntryInfo × VLogBuilder F → Type 0
  Logged v b e given =
      (given.1 ≡ record {
        offset = length (laws.contents b.file);
        file_no = v.file_no;
        length = length (block_entry e);
      })
      × (after : TableBuilder F) × (given.2.builder ≡ some after)
      × IsReady laws after
      × (laws.contents after.file ≡ laws.contents b.file ++ logged e)

  place_lem :
      (v : VLogBuilder F) (b : TableBuilder F) (e : Entry) (info : VLogEntryInfo)
      → IsReady laws b
      → b.offset + length (block_entry e) + 4 < 2 ^ 64
      → length (block_entry e) < 2 ^ 32
      → record (place b e info) { file_no = v.file_no } ≡ record {
        offset = length (laws.contents b.file);
        file_no = v.file_no;
        length = length (block_entry e);
      }
  place_lem v b e info r small fits =
      let spot : (b.offset + length b.data_block) % 2 ^ 64 ≡ length (laws.contents b.file) =
        rw r.empty (omega (arith, r.at_end)) in
      let size : (length e.value + length e.key + 8) % 2 ^ 32 ≡ length (block_entry e) =
        omega (arith, length-block_entry e) in
      rw (spot, size) refl

  settle_lem :
      (v : VLogBuilder F) (b added : TableBuilder F) (e : Entry) (info : VLogEntryInfo)
      → IsReady laws b
      → b.offset + length (block_entry e) + 4 < 2 ^ 64
      → length (block_entry e) < 2 ^ 32
      → is_ok added.status ≡ true
      → ((next : Bool)
          → (flush io crc32c murmur_hash (set_last_key added e.key) next).status ≡ ok
          → IsReady laws (flush io crc32c murmur_hash (set_last_key added e.key) next)
            × (laws.contents (flush io crc32c murmur_hash (set_last_key added e.key) next).file
                ≡ laws.contents b.file ++ logged e))
      → (settle io crc32c murmur_hash v e.key added (place b e info)).0 ≡ ok
      → Logged v b e (settle io crc32c murmur_hash v e.key added (place b e info))
  unfolding settle
  settle_lem v b added e info r small fits live flushed done =
      let next = ltb block_size ((v.offset + (place b e info).length) % 2 ^ 64) in
      let (ready, bytes) = flushed next (rw live at done) in
      rw live (place_lem v b e info r small fits, _, refl, ready, bytes)

  settle-failed :
      (v : VLogBuilder F) (added : TableBuilder F) (key : List ℕ) (info : VLogEntryInfo)
      → is_ok added.status ≡ false
      → ¬ ((settle io crc32c murmur_hash v key added info).0 ≡ ok)
  unfolding settle
  settle-failed v added key info bad done = is_not_ok added.status bad (rw bad at done)

  -- The flush of the entry, under its key.
  flush_keyed :
      (b : TableBuilder F) (e : Entry) (next : Bool)
      → IsReady laws b
      → b.offset + length (block_entry e) + 4 < 2 ^ 64
      → (flush io crc32c murmur_hash (set_last_key (holding b e) e.key) next).status ≡ ok
      → IsReady laws (flush io crc32c murmur_hash (set_last_key (holding b e) e.key) next)
        × (laws.contents (flush io crc32c murmur_hash (set_last_key (holding b e) e.key) next).file
            ≡ laws.contents b.file ++ logged e)
  unfolding set_last_key
  flush_keyed b e next r small ended =
      let (held, good, same, kept) = holding_lem b e r in
      let at : (holding b e).offset ≡ length (laws.contents (holding b e).file) =
        same ∙ r.at_end ∙ ap (λ f. length (laws.contents f)) (sym kept) in
      let (ready, bytes) =
        flush-only (set_last_key (holding b e) e.key) e next good held at (rw same small) ended in
      (ready, bytes ∙ ap (λ f. laws.contents f ++ logged e) kept)

  -- An entry that filled the block was flushed by `Add`; the flush behind it finds nothing.
  settle_large :
      (v : VLogBuilder F) (b : TableBuilder F) (e : Entry) (info : VLogEntryInfo)
      → IsReady laws b
      → b.offset + length (block_entry e) + 4 < 2 ^ 64
      → length (block_entry e) < 2 ^ 32
      → (settle io crc32c murmur_hash v e.key
          (flush io crc32c murmur_hash (set_last_key (holding b e) e.key) true)
          (place b e info)).0
        ≡ ok
      → Logged v b e (
          settle io crc32c murmur_hash v e.key
            (flush io crc32c murmur_hash (set_last_key (holding b e) e.key) true)
            (place b e info))
  unfolding set_last_key
  settle_large v b e info r small fits done =
      let added = flush io crc32c murmur_hash (set_last_key (holding b e) e.key) true in
      elim (Bool-cases (is_ok added.status)) [
        | inl live ↦
            let (ready, bytes) = flush_keyed b e true r small (is_ok-ok _ live) in
            settle_lem v b added e info r small fits live
              (λ next ended.
                let (still, same, good) =
                  flush-nothing (set_last_key added e.key) next (keyed added e.key ready) in
                (still, same ∙ bytes))
              done
        | inr bad ↦ absurd (settle-failed v added e.key (place b e info) bad done)
      ]

  -- An append to a log that is ready, if it succeeds, puts the entry and its checksum behind what the
  -- file has taken and on the disk, gives their and leaves the log ready.
  pub append_entry_lem :
      (v : VLogBuilder F) (b : TableBuilder F) (e : Entry) (info : VLogEntryInfo)
      → IsReady laws b
      → b.offset + length (block_entry e) + 4 < 2 ^ 64
      → length (block_entry e) < 2 ^ 32
      → (append_entry io crc32c murmur_hash v b e.key e.value info).0 ≡ ok
      → Logged v b e (append_entry io crc32c murmur_hash v b e.key e.value info)
  unfolding append_entry set_last_key
  append_entry_lem v b e info r small fits done =
      let live : is_ok b.status ≡ true = rw r.good ok_is_ok in
      elim (Bool-cases (leb block_size (length (holding b e).data_block))) [
        | inl large ↦
            rw (add_large b e info live large)
              (settle_large v b e info r small fits (rw (add_large b e info live large) at done))
        | inr little ↦ rw (add_small b e info live little) (
            settle_lem v b (holding b e) e info r small fits (rw ((holding_lem b e r).1) ok_is_ok)
              (λ next ended. flush_keyed b e next r small ended)
              (rw (add_small b e info live little) at done))
      ]

-- ===== src/VLog/ReadBack.antt =====
-- A value that the store logs is read back from the place that it was given.
use lsmkv.Base.{
  ℕ, ◌+◌, ◌%◌, ◌^◌, ◌<◌, ◌≡◌, refl, sym, ap, ◌∙◌, arith, List, [], ◌++◌, Option, none, some, length,
  take, drop, append_assoc, take-append, drop-append, length-append, replicate, append-nil,
}
use lsmkv.Coding.{encode_fixed32, encode_fixed64}
use lsmkv.Coding.RoundTrip.{length-encode_fixed, store_at_lem}
use lsmkv.Keys.{ValueType, make_tag, extract_sequence_number}
use lsmkv.Keys.Layout.{with_tag, extract-with_tag, length-with_tag}
use lsmkv.Block.Entries.{Entry, block_entry, length-block_entry}
use lsmkv.Format.{VLogEntryInfo}
use lsmkv.Status.{Code, ok}
use lsmkv.Builder.{WritableFile, TableBuilder}
use lsmkv.Builder.Written.{FileLaws, stored, ok_is_ok}
use lsmkv.VLog.{VLogBuilder, encode_key, append, append_opened, append_entry, check_live, read_from}
use lsmkv.VLog.RoundTrip.{IsReady, check_entry_lem, append_entry_lem}

encode_key-with_tag : (key : List ℕ) (seq : ℕ) → encode_key key seq ≡ with_tag key seq
unfolding encode_key
encode_key-with_tag key seq =
    let filled = store_at_lem (length key) key (encode_fixed64 seq) (replicate 8 0) refl in
    let none_left : drop (length (encode_fixed64 seq)) (replicate 8 (let z : ℕ = 0 in z)) ≡ [] =
      rw (length-encode_fixed 8 seq) refl in
    filled ∙ ap (λ l. key ++ encode_fixed64 seq ++ l) none_left ∙ append-nil _

some-same : {A : Type 0} (x y : A) → some x ≡ some y → x ≡ y
some-same x y e = cc

-- What the log's file has on the disk.
abbrev pub log_disk :
    {F : Type 0} {io : WritableFile F} → FileLaws F io → Option (TableBuilder F) → List ℕ
log_disk laws none = []
log_disk laws (some b) = laws.disk b.file

module _ {F H : Type 0} {io : WritableFile F} (laws : FileLaws F io) (crc32c : List ℕ → ℕ)
    (murmur_hash : List ℕ → List ℕ) (pread : H → ℕ → ℕ → Code × List ℕ) where
  read-stored :
      (live : Option ℕ) (h : H) (e : Entry) (before later : List ℕ) (file_no : ℕ)
      → crc32c (block_entry e) < 2 ^ 32
      → length (block_entry e) + 4 < 2 ^ 32
      → ((offset n : ℕ)
          → pread h offset n ≡ (
            ok,
            take n (drop offset ((before ++ stored io laws crc32c (block_entry e)) ++ later)),
          ))
      → read_from pread crc32c live h
          (record { offset = length before; file_no = file_no; length = length (block_entry e) })
        ≡ check_live live (extract_sequence_number e.key) e.value
  unfolding read_from
  read-stored live h e before later file_no small fits reads =
      let bytes = stored io laws crc32c (block_entry e) in
      let size : (length (block_entry e) + 4) % 2 ^ 32 ≡ length bytes = omega (
        arith,
        length-append (block_entry e) (encode_fixed32 (crc32c (block_entry e))),
        length-encode_fixed 4 (crc32c (block_entry e)),
      ) in
      let there : take (length bytes) (drop (length before) ((before ++ bytes) ++ later)) ≡ bytes =
        rw
          (
            append_assoc before bytes later,
            drop-append (length before) before (bytes ++ later) refl,
          )
          (take-append (length bytes) bytes later refl) in
      let got : pread h (length before) ((length (block_entry e) + 4) % 2 ^ 32) ≡ (ok, bytes) =
        rw size (reads (length before) (length bytes) ∙ ap (λ l. (ok, l)) there) in
      rw (got, ok_is_ok, length-block_entry e)
        (check_entry_lem crc32c live e small (omega (arith, length-block_entry e)))

  -- Where an append puts its entry: behind what the file has taken.
  pub append-placed :
      (v next : VLogBuilder F) (b : TableBuilder F) (key value : List ℕ) (tag : ℕ)
      (info placed : VLogEntryInfo)
      → v.builder ≡ some b
      → IsReady laws b
      → b.offset + length key + length value + 20 < 2 ^ 64
      → length key + length value + 20 < 2 ^ 32
      → append io crc32c murmur_hash v tag key value info ≡ some (ok, placed, next)
      → placed ≡ record {
        offset = length (laws.contents b.file);
        file_no = v.file_no;
        length = length key + length value + 16;
      }
  unfolding append
  append-placed v next b key value tag info placed opened ready room fits done =
      let e : Entry = record { key = with_tag key tag; value = value } in
      let size = length-block_entry e in
      let tagged = length-with_tag key tag in
      let given : append_entry io crc32c murmur_hash v b e.key e.value info ≡ (ok, placed, next) =
        some-same _ _ (
          sym (ap (λ o. append_opened io crc32c murmur_hash o v e.key value info) opened)
          ∙ (rw (encode_key-with_tag key tag) at done)) in
      let shown =
        append_entry_lem laws crc32c murmur_hash v b e info ready (omega arith) (omega arith)
          (ap (λ r. r.0) given) in
      let (place, after, built, again, bytes) = rw given at shown in
      let long : length (block_entry e) ≡ length key + length value + 16 = omega arith in
      place ∙ rw long refl

  -- An append to an open log that is ready, of an entry that fits 32 bits in a file that fits 64, puts
  -- the entry's file and number in the location that it gives if it succeeds, and leaves the log ready
  -- for the next. The location then reads back the value from a file that begins with what is on the
  -- disk, whatever was appended later, unless the entry's number is below the living ones: it has
  -- expired then.
  pub append-read :
      (v next : VLogBuilder F) (b : TableBuilder F) (key value : List ℕ) (seq : ℕ) (t : ValueType)
      (info placed : VLogEntryInfo) (live : Option ℕ) (h : H) (later : List ℕ)
      → v.builder ≡ some b
      → IsReady laws b
      → b.offset + length key + length value + 20 < 2 ^ 64
      → length key + length value + 20 < 2 ^ 32
      → seq < 2 ^ 56
      → ((s : List ℕ) → crc32c s < 2 ^ 32)
      → append io crc32c murmur_hash v (make_tag seq t) key value info ≡ some (ok, placed, next)
      → ((offset n : ℕ)
          → pread h offset n ≡ (ok, take n (drop offset (log_disk laws next.builder ++ later))))
      → (placed.file_no ≡ v.file_no)
        × ((after : TableBuilder F) × (next.builder ≡ some after) × IsReady laws after)
        × (read_from pread crc32c live h placed ≡ check_live live seq value)
  unfolding append
  append-read v next b key value seq t info placed live h later opened ready room fits small crc
        done reads =
      let e : Entry = record { key = with_tag key (make_tag seq t); value = value } in
      let size = length-block_entry e in
      let tagged = length-with_tag key (make_tag seq t) in
      let given : append_entry io crc32c murmur_hash v b e.key e.value info ≡ (ok, placed, next) =
        some-same _ _ (
          sym (ap (λ o. append_opened io crc32c murmur_hash o v e.key value info) opened)
          ∙ (rw (encode_key-with_tag key (make_tag seq t)) at done)) in
      let shown =
        append_entry_lem laws crc32c murmur_hash v b e info ready (omega arith) (omega arith)
          (ap (λ r. r.0) given) in
      let (place, after, built, again, bytes) = rw given at shown in
      let (user, number, kind) = extract-with_tag key seq t small in
      let on_disk : log_disk laws next.builder
          ≡ laws.contents b.file ++ stored io laws crc32c (block_entry e) =
        rw built (again.written ∙ bytes) in
      (
        ap (λ p. p.file_no) place,
        (after, built, again),
        rw place (
            read-stored live h e (laws.contents b.file) later v.file_no (crc (block_entry e))
              (omega arith) (rw on_disk at reads)
            ∙ ap (λ n. check_live live n value) number),
      )

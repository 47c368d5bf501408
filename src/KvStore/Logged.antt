-- ===== src/KvStore/Logged.antt =====
-- A write and a read of the store of src/kvstore.cc over its value log.
mod Tests
use lsmkv.Base.{
  ℕ, ◌+◌, ◌^◌, ◌<◌, ◌≡◌, ◌≢◌, refl, sym, ap, subst, ◌∙◌, arith, List, [], ◌++◌, Option, none, some,
  length, take, drop, ltb, if◌then◌else◌, Bool-cases, inl, inr, true, false,
}
use lsmkv.Keys.{ValueType, make_tag}
use lsmkv.Status.{Code, ok, expired}
use lsmkv.Format.{VLogEntryInfo}
use lsmkv.Format.RoundTrip.{FitsEntry}
use lsmkv.Reader.Files.{Lookup}
use lsmkv.Builder.{WritableFile, TableBuilder}
use lsmkv.Builder.Written.{FileLaws}
use lsmkv.VLog.{VLogBuilder, full, append, init_file, read, refused, check_live, read_from}
use lsmkv.VLog.RoundTrip as RoundTrip
use lsmkv.VLog.ReadBack.{log_disk, append-read, append-placed}
use lsmkv.KvStore.{Storage, KvStore, no_location, write_impl, get_impl}
use lsmkv.KvStore.Writes.{IsReady, write_impl-written}
use lsmkv.KvStore.Log.{Log, log_storage, reader, read_log, read_status, with_builder}

module _ {F H : Type 0} {io : WritableFile F} (laws : FileLaws F io) (crc32c : List ℕ → ℕ)
    (murmur_hash : List ℕ → List ℕ) (create : ℕ → Code × F) (open_random : ℕ → Code × H)
    (pread : Log F H → H → ℕ → ℕ → Code × List ℕ) (lookup : Lookup) where
  abbrev pub storage : Storage (Log F H)
  storage = log_storage io crc32c murmur_hash create open_random pread lookup

  -- What a read of an entry with that number gives.
  abbrev pub live_value : ℕ → ℕ → List ℕ → Code × List ℕ
  live_value live seq value = if ltb seq live then (expired, []) else (ok, value)

  check_live_status :
      (live seq : ℕ) (value : List ℕ)
      → read_status (check_live (some live) seq value) ≡ some (live_value live seq value)
  unfolding check_live
  check_live_status live seq value = elim (Bool-cases (ltb seq live)) [
    | inl old ↦ rw old refl
    | inr new ↦ rw new refl
  ]

  read_log-opened :
      (live : ℕ) (l : Log F H) (info : VLogEntryInfo) (h : H)
      → (init_file open_random (pread l) crc32c (reader live l) info.file_no).0 ≡ (ok, some h)
      → read_log io crc32c murmur_hash create open_random pread lookup live l info
        ≡ read_status (read_from (pread l) crc32c (some live) h info)
  unfolding read
  read_log-opened live l info h opened =
      ap
        (λ (o : Code × Option H). read_status (elim o.1 [
          | none ↦ refused o.0
          | some g ↦ read_from (pread l) crc32c (some live) g info
        ]))
        opened

  append_logged :
      (l : Log F H) (next : VLogBuilder F) (key val : List ℕ) (tag : ℕ) (info : VLogEntryInfo)
      → append io crc32c murmur_hash l.builder tag key val no_location ≡ some (ok, info, next)
      → storage.append l tag key val ≡ some (ok, (info, record l { builder = next }))
  append_logged l next key val tag info done = ap (with_builder l) done

  -- In a store whose table in memory is in order and holds older numbers only, with the next number
  -- below 2 ^ 56, a key that fits its length field and memory of the arena of the right size, over a log
  -- that is open, ready and not full, of less than 2 ^ 64 bytes with the entry, which has less than 2 ^ 32
  -- ones: a write of a value, whose append to the log's file succeeds, succeeds and leaves both the table
  -- and the log ready for the next write. A read of the key then gives the value, or that it has expired
  -- if the living numbers begin behind the write's. This needs that a checksum fits 32 bits, and that the
  -- log's file can be opened and read: what is on the disk, and whatever may follow it.
  pub get_impl-write_impl :
      (s : KvStore (Log F H)) (b : TableBuilder F) (key val fresh later : List ℕ) (rnd : ℕ)
      (info : VLogEntryInfo) (next : VLogBuilder F) (h : H)
      → IsReady s
      → s.version.last_sequence + 1 < 2 ^ 56
      → length key + 12 < 2 ^ 32
      → length fresh ≡ 16 + 8 + length key + 4
      → s.vlog.builder.builder ≡ some b
      → RoundTrip.IsReady laws b
      → s.vlog.builder.file_no < 2 ^ 32
      → full b (length val) ≡ false
      → b.offset + length key + length val + 20 < 2 ^ 64
      → length key + length val + 20 < 2 ^ 32
      → ((bytes : List ℕ) → crc32c bytes < 2 ^ 32)
      → append io crc32c murmur_hash s.vlog.builder
          (make_tag s.version.last_sequence ValueType.value)
          key
          val
          no_location
        ≡ some (ok, info, next)
      → (init_file open_random
          (pread (record s.vlog { builder = next }))
          crc32c
          (reader s.version.last_live_sequence (record s.vlog { builder = next }))
          s.vlog.builder.file_no).0
        ≡ (ok, some h)
      → ((offset n : ℕ)
          → pread (record s.vlog { builder = next }) h offset n
            ≡ (ok, take n (drop offset (log_disk laws next.builder ++ later))))
      → (s' : KvStore (Log F H)) × (write_impl storage s key val ValueType.value fresh rnd
          ≡ some (ok, s'))
        × IsReady s'
        × ((after : TableBuilder F) × (s'.vlog.builder.builder ≡ some after)
            × RoundTrip.IsReady laws after)
        × (get_impl storage s' key
            ≡ some (live_value s.version.last_live_sequence s.version.last_sequence val))
  get_impl-write_impl s b key val fresh later rnd info next h ready bound short size opened
        log_ready file_no room offset entry crc done opens reads =
      let last = s.version.last_sequence in
      let live = s.version.last_live_sequence in
      let l : Log F H = record s.vlog { builder = next } in
      let not_full : storage.full s.vlog (length val) ≡ some false = rw opened (ap some room) in
      let place =
        append-placed laws crc32c murmur_hash (pread l) s.vlog.builder next b key val
          (make_tag last ValueType.value) no_location info opened log_ready offset entry done in
      let (same_file, log_after, value) =
        append-read laws crc32c murmur_hash (pread l) s.vlog.builder next b key val last
          ValueType.value no_location info (some live) h later opened log_ready offset entry
          (omega arith) crc done reads in
      let at = ap (λ p. p.offset) place in
      let long = ap (λ p. p.length) place in
      let end = log_ready.at_end in
      let fits : FitsEntry info = (omega arith, omega arith, omega arith) in
      let some_length : info.length ≢ 0 = λ none_long. absurd (omega arith) in
      let logged = append_logged s.vlog next key val (make_tag last ValueType.value) info done in
      let (s', wrote, again, same, got) =
        write_impl-written storage s key val fresh rnd info l ready bound short size not_full logged
          fits some_length in
      (
        s',
        wrote,
        again,
        subst
            (λ (t : Log F H).
              (after : TableBuilder F) × (t.builder.builder ≡ some after)
              × RoundTrip.IsReady laws after)
            (sym same) log_after,
        got
            ∙ read_log-opened live l info h (rw same_file opens)
            ∙ ap read_status value
            ∙ check_live_status live last val,
      )

-- ===== src/VLog.antt =====
-- src/include/vlog_builder.h and `VLogReader` (src/include/reader.h): the value log. Each entry is one
-- block of a table's file: the sizes, the internal key, the value and a checksum of all of these.
pub mod RoundTrip
pub mod ReadBack
mod Tests
use lsmkv.Base.{
  ℕ, ◌+◌, ◌*◌, ◌/◌, ◌%◌, ◌^◌, List, [], ◌∷◌, ◌++◌, Bool, true, false, not, ◌&&◌, ◌||◌, Option, none,
  some, length, take, drop, replicate, ltb, leb, ◌==◌, if◌then◌else◌,
}
use lsmkv.Coding.{encode_fixed64, decode_fixed32, store_at}
use lsmkv.Keys.{extract_sequence_number}
use lsmkv.Format.{VLogEntryInfo}
use lsmkv.Status.{Code, ok, corruption, expired, is_ok}
use lsmkv.Lru
use lsmkv.Builder.{
  WritableFile, TableBuilder, new_builder, approximate_file_size, block_size, trailer_size,
  add_with_info, set_last_key, flush, finish,
}

-- The user key and the sequence number behind it.
unfoldable pub encode_key : List ℕ → ℕ → List ℕ
encode_key key seq = store_at (length key) (encode_fixed64 seq) (key ++ replicate 8 0)

abbrev pub max_vlog_size : ℕ
max_vlog_size = 128 * 1024 * 1024

pub record VLogBuilder (F : Type 0) : Type 0 where
  pub file_no : ℕ
  pub offset : ℕ
  pub builder : Option (TableBuilder F)  -- with the file that it writes to

module _ {F : Type 0} where
  -- `Open`, with what the system gives for the new file.
  unfoldable pub open_log : VLogBuilder F → ℕ → Code → F → Code × VLogBuilder F
  open_log v file_no status file =
      let numbered : VLogBuilder F = record v { file_no = file_no } in
      if not (is_ok status)
      then (status, numbered)
      else (ok, record numbered { builder = some (new_builder file true) })

  unfoldable pub is_empty : VLogBuilder F → Bool
  is_empty v = elim v.builder [ none ↦ true | some b ↦ false ]

  -- `Full`, of an open log; the size is a `uint32_t`.
  unfoldable pub full : TableBuilder F → ℕ → Bool
  full b value_sz =
      let size = approximate_file_size b in
      leb max_vlog_size size
      || (ltb (max_vlog_size / 2) size && ltb (max_vlog_size / 2) (value_sz % 2 ^ 32))

module _ {F : Type 0} (io : WritableFile F) (crc32c : List ℕ → ℕ)
    (murmur_hash : List ℕ → List ℕ) where
  -- `Close`: the builder's destructor finishes the table, and the file is let go as it then is.
  unfoldable pub close_log : VLogBuilder F → Code × VLogBuilder F × Option (TableBuilder F)
  close_log v = (
    ok,
    record v { file_no = 0; builder = none },
    elim v.builder [
      | none ↦ none
      | some b ↦ some (if b.closed then b else finish io crc32c murmur_hash b)
    ],
  )

  -- What `Append` does behind the builder's `Add`.
  unfoldable pub settle :
      VLogBuilder F → List ℕ → TableBuilder F → VLogEntryInfo → Code × VLogEntryInfo × VLogBuilder F
  settle v internal_key added placed =
      let info = record placed { file_no = v.file_no } in
      let offset = (v.offset + placed.length) % 2 ^ 64 in
      let next_index = ltb block_size offset in
      let flushed = flush io crc32c murmur_hash (set_last_key added internal_key) next_index in
      if is_ok added.status
      then (
        flushed.status,
        info,
        record v { offset = if next_index then 0 else offset; builder = some flushed },
      )
      else (added.status, info, record v { offset = offset; builder = some added })

  -- `Append` of an internal key to an open log: the entry goes to the file as a block of its own.
  unfoldable pub append_entry :
      VLogBuilder F
      → TableBuilder F
      → List ℕ
      → List ℕ
      → VLogEntryInfo
      → Code × VLogEntryInfo × VLogBuilder F
  append_entry v b internal_key value info =
      let (added, placed) = add_with_info io crc32c murmur_hash b internal_key value info in
      settle v internal_key added placed

  abbrev pub append_opened :
      Option (TableBuilder F)
      → VLogBuilder F
      → List ℕ
      → List ℕ
      → VLogEntryInfo
      → Option (Code × VLogEntryInfo × VLogBuilder F)
  append_opened none v internal_key value info = none
  append_opened (some b) v internal_key value info = some (append_entry v b internal_key value info)

  -- `Append` of a user key; `none` is a call on a log that is not open.
  unfoldable pub append :
      VLogBuilder F
      → ℕ
      → List ℕ
      → List ℕ
      → VLogEntryInfo
      → Option (Code × VLogEntryInfo × VLogBuilder F)
  append v seq key value info = append_opened v.builder v (encode_key key seq) value info

-- What a read gives: the value, a status, or a failed assertion that the sizes add up.
pub data ReadResult : Type 0 where
  found : List ℕ → ReadResult
  refused : Code → ReadResult
  fault : ReadResult

-- The files that are open, with their numbers.
pub record VLogReader (H : Type 0) : Type 0 where
  pub live_sequence : Option ℕ  -- of `version_`, if there is one
  pub lru : List (ℕ × H)

abbrev pub lru_capacity : ℕ
lru_capacity = 5

-- An entry from before the living sequence numbers has expired.
unfoldable pub check_live : Option ℕ → ℕ → List ℕ → ReadResult
check_live none seq value = found value
check_live (some live_seq) seq value = if ltb seq live_seq then refused expired else found value

-- `Read` from the bytes that the file gave.
unfoldable pub check_entry : (List ℕ → ℕ) → Option ℕ → ℕ → List ℕ → ReadResult
check_entry crc32c live entry_length buf =
    let key_size = decode_fixed32 buf in
    let value_size = decode_fixed32 (drop 4 buf) in
    let size = key_size + value_size + 8 in
    let value = take value_size (drop (key_size + 8) buf) in
    let seq = extract_sequence_number (take key_size (drop 8 buf)) in
    if not (length buf == (entry_length + trailer_size) % 2 ^ 32)
    then refused corruption
    else if not (size % 2 ^ 32 == entry_length) || ltb (length buf) (size + trailer_size)
    then fault
    else if not (decode_fixed32 (drop size buf) == crc32c (take size buf))
    then refused corruption
    else check_live live seq value

-- The read from an open file.
unfoldable pub read_from :
    {H : Type 0}
    → (H → ℕ → ℕ → Code × List ℕ)
    → (List ℕ → ℕ)
    → Option ℕ
    → H
    → VLogEntryInfo
    → ReadResult
read_from pread crc32c live h info =
    let (status, buf) = pread h info.offset ((info.length + trailer_size) % 2 ^ 32) in
    if not (is_ok status) then refused status else check_entry crc32c live info.length buf

-- The opening of a file and the reading from one are the system's.
module _ {H : Type 0} (open_random : ℕ → Code × H) (pread : H → ℕ → ℕ → Code × List ℕ)
    (crc32c : List ℕ → ℕ) where
  -- `InitFile`: the file in the cache, or one that is opened and put there.
  unfoldable pub init_file : VLogReader H → ℕ → (Code × Option H) × VLogReader H
  init_file r file_no = elim (Lru.get file_no r.lru).0 [
    | some h ↦ ((ok, some h), record r { lru = (Lru.get file_no r.lru).1 })
    | none ↦
        let (status, h) = open_random file_no in
        if not (is_ok status)
        then ((status, none), r)
        else ((ok, some h), record r { lru = Lru.put lru_capacity file_no h r.lru })
  ]

  unfoldable pub read : VLogReader H → VLogEntryInfo → ReadResult × VLogReader H
  read r info =
      let ((status, file), cached) = init_file r info.file_no in
      (
        elim file [
          | none ↦ refused status
          | some h ↦ read_from pread crc32c r.live_sequence h info
        ],
        cached,
      )

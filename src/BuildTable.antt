-- ===== src/BuildTable.antt =====
-- src/builder.cpp: `BuildTable` turns the entries of a memtable's iterator into a file on the disk. The
-- file is any that the builder can write to; the program's is the `UringWritableFile`.
pub mod Kept
mod Tests
use lsmkv.Base.{
  ℕ, ◌+◌, ◌%◌, ◌^◌, List, [], ◌∷◌, Bool, true, false, not, ◌&&◌, Option, none, some, length, ltb,
  ◌==◌, if◌then◌else◌,
}
use lsmkv.Keys.{decode_internal_key}
use lsmkv.Block.Entries.{Entry}
use lsmkv.Status.{Code, invalid_argument, is_ok}
use lsmkv.Format.{SstFileMeta}
use lsmkv.Version.{Version, set_sst_file_number}
use lsmkv.Builder.{WritableFile, TableBuilder, new_builder, set_last_key, add, finish}

-- What `BuildTable` asks of the files: a new one by its number, and the end of one.
pub record TableFiles (F : Type 0) : Type 0 where
  pub writes : WritableFile F
  pub open_file : ℕ → Code × F
  pub sync : F → Code × F
  pub close : F → Code × F
  pub size_of : F → ℕ  -- `GetFileSize`

-- What the call leaves behind; `file` is the file when one was opened.
pub record Outcome (F : Type 0) : Type 0 where
  pub status : Code
  pub file_meta : SstFileMeta
  pub version : Version
  pub file : Option F

-- The slice `key` behind the loop.
unfoldable pub last_key_of : Entry → List Entry → List ℕ
last_key_of e [] = e.key
last_key_of e (next ∷ es) = last_key_of next es

unfoldable pub set_largest : SstFileMeta → List ℕ → SstFileMeta
set_largest file_meta key =
    if length key == 0 then file_meta else record file_meta { largest = decode_internal_key key }

module _ {F : Type 0} where
  unfoldable pub end_with_key : TableBuilder F → List ℕ → TableBuilder F
  end_with_key b key = if length key == 0 then b else set_last_key b key

module _ {F : Type 0} (files : TableFiles F) (crc32c : List ℕ → ℕ)
    (murmur_hash : List ℕ → List ℕ) where
  unfoldable pub sync_and_close : F → Code × F
  sync_and_close file =
      let (status, synced) = files.sync file in
      if is_ok status then files.close synced else (status, synced)

  -- The loop over the iterator.
  unfoldable pub add_all : TableBuilder F → List Entry → TableBuilder F
  add_all b [] = b
  add_all b (e ∷ es) = add_all (add files.writes crc32c murmur_hash b e.key e.value) es

  unfoldable pub fill : F → Entry → List Entry → TableBuilder F
  fill file e es = end_with_key (add_all (new_builder file true) (e ∷ es)) (last_key_of e es)

  -- From the test of the file's size on; `none` is a failed assertion. The number is taken only now.
  unfoldable pub keep : Version → SstFileMeta → Code × F → Option (Outcome F)
  keep v file_meta (status, file) =
      let advanced = set_sst_file_number ((v.fileno + 1) % 2 ^ 64) v in
      if not (files.size_of file == file_meta.file_size)
      then none
      else some (record {
        status = status;
        file_meta = file_meta;
        version = if is_ok status && ltb 0 file_meta.file_size then advanced else v;
        file = some file;
      })

  -- From the call of `Finish` on.
  unfoldable pub close_table : Version → SstFileMeta → TableBuilder F → Option (Outcome F)
  close_table v file_meta built =
      if not (is_ok built.status)
      then keep v file_meta (built.status, built.file)
      else if built.offset == 0
      then none
      else keep v (record file_meta { level = 0; file_size = built.offset })
          (sync_and_close built.file)

  unfoldable pub build_opened : Version → F → Entry → List Entry → SstFileMeta → Option (Outcome F)
  build_opened v file e es file_meta =
      let numbered : SstFileMeta = record file_meta {
        file_number = v.fileno;
        smallest = decode_internal_key e.key;
      } in
      close_table v (set_largest numbered (last_key_of e es))
        (finish files.writes crc32c murmur_hash (fill file e es))

  -- By the entries that the iterator has from its first one on.
  unfoldable pub build_table : Version → List Entry → SstFileMeta → Option (Outcome F)
  build_table v [] file_meta =
      some (record { status = invalid_argument; file_meta = file_meta; version = v; file = none })
  build_table v (e ∷ es) file_meta =
      let (status, file) = files.open_file v.fileno in
      if not (is_ok status)
      then some (record { status = status; file_meta = file_meta; version = v; file = none })
      else build_opened v file e es file_meta

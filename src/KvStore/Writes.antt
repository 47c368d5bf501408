-- ===== src/KvStore/Writes.antt =====
-- A read after a write of the same key.
use lsmkv.Base.{
  ℕ, ◌+◌, ◌*◌, ◌^◌, ◌<◌, ◌≡◌, ◌≢◌, refl, ◌∙◌, arith, List, [], some, length, true, false, ltb, ◌==◌,
  All,
}
use lsmkv.Keys.{ValueType, make_tag, query_key}
use lsmkv.Status.{Code, ok, not_found, is_ok}
use lsmkv.Format.{VLogEntryInfo}
use lsmkv.Format.RoundTrip.{FitsEntry, length-encode_vlog_info, decode_vlog_info_lem}
use lsmkv.MemTable
use lsmkv.MemTable.{MemTable, mem_compare, value_fits, empty_memtable}
use lsmkv.MemTable.Reads.{IsWritten, answer, get-put}
use lsmkv.Skiplist.Insert.{Holds, empty_list-Holds}
use lsmkv.Version.{set_last_sequence}
use lsmkv.KvStore.{
  Storage, KvStore, stored_value, no_location, commit, append_and_put, write_impl, read_value,
  get_impl,
}

-- The table in memory of a store: its nodes stand in order, and their numbers are below the next one.
pub record IsReady {L : Type 0} (s : KvStore L) : Type 0 where
  pub nodes : List ℕ
  pub holds : Holds mem_compare s.mem.table nodes
  pub written : All (λ i. IsWritten (s.version.last_sequence * 256) (s.mem.table.key i)) nodes

-- A store with a new table in memory is ready.
pub new-IsReady : {L : Type 0} (s : KvStore L) → s.mem ≡ empty_memtable → IsReady s
unfolding empty_memtable
new-IsReady s e = record {
  nodes = [];
  holds = rw e (empty_list-Holds mem_compare []);
  written = tt;
}

stored_value_fits :
    (t : ValueType) (info : VLogEntryInfo) → value_fits (some t) (stored_value t info) ≡ true
stored_value_fits ValueType.deletion info = refl
stored_value_fits ValueType.value info = rw (length-encode_vlog_info info) refl

module _ {L : Type 0} (storage : Storage L) where
  get_impl-decided :
      (s : KvStore L) (key : List ℕ) (found : Code × VLogEntryInfo)
      → MemTable.get s.mem (query_key s.version.last_sequence key) ok no_location
        ≡ some (true, found)
      → get_impl storage s key ≡ read_value storage s found
  unfolding get_impl
  get_impl-decided s key found e = rw (e, get_impl) refl

  commit-next :
      (s : KvStore L) (mem : MemTable)
      → commit storage s s.version.last_sequence (some mem)
        ≡ some (
          ok,
          record s {
            mem = mem;
            version = record s.version { last_sequence = s.version.last_sequence + 1 };
          },
        )
  unfolding set_last_sequence
  commit-next s mem =
      let l : ltb s.version.last_sequence (s.version.last_sequence + 1) ≡ true = ground arith in
      rw (l, commit) refl

  module _ (s : KvStore L) (key val : List ℕ) (t : ValueType) (fresh : List ℕ) (rnd : ℕ)
      (info : VLogEntryInfo) (log : L) (ready : IsReady s)
      (bound : s.version.last_sequence + 1 < 2 ^ 56) (short : length key + 12 < 2 ^ 32)
      (size : length fresh ≡ 16 + 8 + length key + 4)
      (room : storage.full s.vlog (length val) ≡ some false)
      (logged : storage.append s.vlog (make_tag s.version.last_sequence t) key val
        ≡ some (ok, (info, log))) where
    abbrev last : ℕ
    last = s.version.last_sequence

    -- The store behind the write, with the new table in memory.
    abbrev pub stored : MemTable → KvStore L
    stored mem = record s {
      vlog = log;
      mem = mem;
      version = record s.version { last_sequence = last + 1 };
    }

    pub write_impl-stored :
        (mem : MemTable) × (write_impl storage s key val t fresh rnd ≡ some (ok, stored mem))
        × IsReady (stored mem)
        × (MemTable.get mem (query_key (last + 1) key) ok no_location
            ≡ some (answer t (stored_value t info) no_location))
    unfolding write_impl append_and_put is_ok
    write_impl-stored =
        let (mem, c, put, holds, written, get) =
          get-put last (last + 1) key (stored_value t info) t (omega arith) bound short s.mem
            ready.nodes fresh rnd ready.holds ready.written size (stored_value_fits t info) in
        (
          mem,
          rw (write_impl, room, append_and_put, logged, put)
              (commit-next (record s { vlog = log }) mem),
          record { nodes = c; holds = holds; written = written },
          get ok no_location,
        )

  -- A write of a value that the log accepts, and what a read of the key then asks of the log.
  pub write_impl-written :
      (s : KvStore L) (key val fresh : List ℕ) (rnd : ℕ) (info : VLogEntryInfo) (log : L)
      → IsReady s
      → s.version.last_sequence + 1 < 2 ^ 56
      → length key + 12 < 2 ^ 32
      → length fresh ≡ 16 + 8 + length key + 4
      → storage.full s.vlog (length val) ≡ some false
      → storage.append s.vlog (make_tag s.version.last_sequence ValueType.value) key val
        ≡ some (ok, (info, log))
      → FitsEntry info
      → info.length ≢ 0
      → (s' : KvStore L) × (write_impl storage s key val ValueType.value fresh rnd ≡ some (ok, s'))
        × IsReady s'
        × (s'.vlog ≡ log)
        × (get_impl storage s' key ≡ storage.read s.version.last_live_sequence log info)
  unfolding is_ok
  write_impl-written s key val fresh rnd info log ready bound short size room logged fits
        some_length =
      let (mem, w, r, g) =
        write_impl-stored s key val ValueType.value fresh rnd info log ready bound short size room
          logged in
      let s' = record s {
        vlog = log;
        mem = mem;
        version = record s.version { last_sequence = s.version.last_sequence + 1 };
      } in
      let d = (decode_vlog_info_lem info no_location [] fits).0 in
      let nonzero : (info.length == 0) ≡ false = ground arith in
      (s', w, r, refl, get_impl-decided s' key (ok, info) (rw d at g) ∙ rw nonzero refl)

  -- In a store whose table in memory is in order and holds older numbers only, with the next number
  -- below 2 ^ 56, a key that fits its length field and memory of the arena of the right size: a deletion
  -- that the log accepts, into a log file with room, succeeds and leaves the table ready for the next
  -- write. A read of the key then finds nothing.
  pub get_impl-delete :
      (s : KvStore L) (key fresh : List ℕ) (rnd : ℕ) (info : VLogEntryInfo) (log : L)
      → IsReady s
      → s.version.last_sequence + 1 < 2 ^ 56
      → length key + 12 < 2 ^ 32
      → length fresh ≡ 16 + 8 + length key + 4
      → storage.full s.vlog 0 ≡ some false
      → storage.append s.vlog (make_tag s.version.last_sequence ValueType.deletion) key []
        ≡ some (ok, (info, log))
      → (s' : KvStore L) × (write_impl storage s key [] ValueType.deletion fresh rnd
          ≡ some (ok, s'))
        × IsReady s'
        × (get_impl storage s' key ≡ some (not_found, []))
  unfolding is_ok
  get_impl-delete s key fresh rnd info log ready bound short size room logged =
      let (mem, w, r, g) =
        write_impl-stored s key [] ValueType.deletion fresh rnd info log ready bound short size room
          logged in
      let s' = record s {
        vlog = log;
        mem = mem;
        version = record s.version { last_sequence = s.version.last_sequence + 1 };
      } in
      (s', w, r, get_impl-decided s' key (not_found, no_location) g)

-- ===== src/KvStore/Tests.antt =====
-- A new store over a value log that keeps the last value.
use lsmkv.Base.{
  ℕ, ◌+◌, ◌^◌, ◌<◌, ◌⊎◌, ◌≡◌, refl, arith, List, [], ◌∷◌, replicate, none, some, true, false, Bool,
}
use lsmkv.Keys.{ValueType, InternalKey}
use lsmkv.Status.{Code, ok, not_found, is_ok}
use lsmkv.Format.{SstFileMeta, VLogEntryInfo}
use lsmkv.MemTable.{empty_memtable}
use lsmkv.LevelCache.{level_files}
use lsmkv.Version.{new_version}
use lsmkv.KvStore.{Storage, KvStore, write_impl, get_impl}
use lsmkv.KvStore.Background.{Action, prepare_round, compact_mem_table}
use lsmkv.KvStore.Schedule.{Decided, prepare_round_lem, compact_mem_table_lem}
use lsmkv.Base.OrderedMap.{find}
use lsmkv.KvStore.Writes.{IsReady, new-IsReady, get_impl-delete}

abbrev record_of : List ℕ → VLogEntryInfo
record_of val = record { offset = 0; file_no = 1; length = 9 }

abbrev last_value : Storage (List ℕ)
last_value = record {
  full = λ log n. some false;
  close = λ log. (ok, log);
  open_file = λ log n. log;
  append = λ log seq key val. some (ok, (record_of val, val));
  read = λ live log info. some (ok, log);
  get_from_files = λ cache query info. some (not_found, info);
}

abbrev new_store : KvStore (List ℕ)
new_store = record {
  version = new_version;
  mem = empty_memtable;
  imm = none;
  vlog = [];
  cache = [] ∷ [];
  bg_catch_error = false;
  background_compaction_scheduled = false;
  shutting_down = false;
  trigger_sst_compaction = false;
  submitted = 0;
}

abbrev key_k : List ℕ
key_k = 107 ∷ []

abbrev val_v : List ℕ
val_v = 118 ∷ 118 ∷ []

first_sequence : new_store.version.last_sequence + 1 < 2 ^ 56
unfolding new_version
first_sequence = omega arith

get_impl-delete_example :
    (s' : KvStore (List ℕ)) × (write_impl last_value new_store key_k [] ValueType.deletion
        (replicate 29 0)
        6
      ≡ some (ok, s'))
    × IsReady s'
    × (get_impl last_value s' key_k ≡ some (not_found, []))
get_impl-delete_example =
    get_impl-delete last_value new_store key_k (replicate 29 0) 6 (record_of []) []
      (new-IsReady new_store refl) first_sequence (omega arith) refl refl refl

abbrev bound : InternalKey
bound = record { size = 9; rep = 97 ∷ 1 ∷ 5 ∷ 0 ∷ 0 ∷ 0 ∷ 0 ∷ 0 ∷ 0 ∷ [] }

abbrev built : Code × SstFileMeta
built = (
  ok,
  record {
    file_size = 700;
    file_number = 3;
    level = 0;
    vlog_file_no = 0;
    smallest = bound;
    largest = bound;
  },
)

abbrev waiting : KvStore (List ℕ)
waiting = record new_store { imm = some empty_memtable }

abbrev round : Action × KvStore (List ℕ)
round = prepare_round last_value false 30000 new_store

prepare_round_lem_example : Decided last_value false 30000 new_store round.1 round.0
prepare_round_lem_example = prepare_round_lem last_value false 30000 new_store

abbrev no_build : List SstFileMeta → List SstFileMeta → Bool → Code × List SstFileMeta
no_build old overlap compact_vlog = (ok, [])

abbrev taken : KvStore (List ℕ)
taken = record round.1 { submitted = 0 }

abbrev compacted : KvStore (List ℕ)
compacted = compact_mem_table last_value built waiting

number_free : find built.1.file_number (level_files waiting.cache 0) ≡ none
unfolding find
number_free = refl

compact_mem_table_lem_example :
    ((compacted.imm ≡ waiting.imm)
      ⊎ ((compacted.imm ≡ none)
          × (is_ok built.0 ≡ true)
          × (waiting.shutting_down ≡ false)
          × ((built.1.file_size ≡ 0)
              ⊎ ((find built.1.file_number (level_files compacted.cache 0) ≡ some built.1)
                  × (compacted.version.fileno ≡ built.1.file_number + 1)))))
    × (compacted.mem ≡ waiting.mem)
    × (compacted.submitted ≡ waiting.submitted)
compact_mem_table_lem_example = compact_mem_table_lem last_value built waiting number_free

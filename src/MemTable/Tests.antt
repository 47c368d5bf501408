-- ===== src/MemTable/Tests.antt =====
-- A write into a new memtable.
use lsmkv.Base.{ℕ, ◌+◌, ◌*◌, ◌≡◌, refl, arith, List, [], ◌∷◌, some, All, replicate}
use lsmkv.Keys.{ValueType, make_tag, query_key}
use lsmkv.Status.{Code}
use lsmkv.Format.{VLogEntryInfo}
use lsmkv.Skiplist.Insert.{Holds, empty_list-Holds}
use lsmkv.MemTable.{MemTable, empty_memtable, mem_compare, put, get}
use lsmkv.MemTable.Reads.{IsWritten, answer, get-put}

abbrev key_k : List ℕ
key_k = 107 ∷ []

abbrev location : List ℕ
location = replicate 16 3

empty_memtable-Holds : Holds mem_compare empty_memtable.table []
unfolding empty_memtable
empty_memtable-Holds = empty_list-Holds mem_compare []

get-put_example :
    (mt' : MemTable) × (c' : List ℕ) × (put empty_memtable
        (make_tag 4 ValueType.value)
        key_k
        location
        (replicate 29 0)
        6
      ≡ some mt')
    × Holds mem_compare mt'.table c'
    × All (λ i. IsWritten ((4 + 1) * 256) (mt'.table.key i)) c'
    × ((s : Code) (res : VLogEntryInfo)
        → get mt' (query_key 9 key_k) s res ≡ some (answer ValueType.value location res))
get-put_example =
    get-put 4 9 key_k location ValueType.value (omega arith) (omega arith) (omega arith)
      empty_memtable [] (replicate 29 0) 6 empty_memtable-Holds tt refl refl

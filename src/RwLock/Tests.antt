-- ===== src/RwLock/Tests.antt =====
-- Runs of two threads.
use lsmkv.Base.{◌+◌, ◌^◌, ◌≡◌, refl, arith, true, false, [], ◌∷◌}
use lsmkv.RwLock.{
  System, pick, Steps, here, next, reading, shared_wait, lock_inner_wait, writing, start_shared,
  exchange, give_up, start_lock, lock_mutex, lock_pass, fetch_free, fetch_busy, assertion,
}
use lsmkv.RwLock.Invariant.{reads, writes, start_system}
use lsmkv.RwLock.Exclusion.{mutual_exclusion, assertions_hold}

-- Thread 0 reads, and thread 1 waits for it with the writer's bit set.
abbrev writer_behind_reader : System
writer_behind_reader = record {
  lock = record { mtx = true; readers = 2 ^ 31 + 1; writer_waiting = false };
  threads = reading ∷ lock_inner_wait false ∷ [];
}

reach_waiting : Steps (start_system 2) writer_behind_reader
reach_waiting =
    next
      (next
        (next
          (next (next (next here (pick 0 refl start_shared)) (pick 0 refl (exchange refl)))
            (pick 1 refl start_lock))
          (pick 1 refl (lock_mutex refl)))
        (pick 1 refl (lock_pass refl)))
      (pick 1 refl (fetch_busy (omega arith)))

-- Thread 0 writes, and thread 1 has found its bit.
abbrev reader_behind_writer : System
reader_behind_writer = record {
  lock = record { mtx = true; readers = 2 ^ 31; writer_waiting = false };
  threads = writing false ∷ shared_wait ∷ [];
}

reach_writing : Steps (start_system 2) reader_behind_writer
reach_writing =
    next
      (next
        (next
          (next (next (next here (pick 0 refl start_lock)) (pick 0 refl (lock_mutex refl)))
            (pick 0 refl (lock_pass refl)))
          (pick 0 refl (fetch_free refl)))
        (pick 1 refl start_shared))
      (pick 1 refl (give_up (omega arith)))

mutual_exclusion_example : (reads shared_wait ≡ 0) × (writes shared_wait ≡ 0)
mutual_exclusion_example =
    mutual_exclusion {n = 2} (omega arith) reach_writing 0 1 (writing false) shared_wait
      (omega arith) refl refl refl

assertions_hold_example : assertion writer_behind_reader.lock reading ≡ true
assertions_hold_example = assertions_hold {n = 2} (omega arith) reach_waiting 0 reading refl

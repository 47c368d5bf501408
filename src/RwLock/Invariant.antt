-- ===== src/RwLock/Invariant.antt =====
-- What the lock's members say of the threads, in every state that can be reached.
use lsmkv.Base.{
  ℕ, zero, suc, ◌+◌, ◌≤◌, ◌<◌, ◌≡◌, refl, sym, arith, Bool, true, false, set, replicate, leb,
  if◌then◌else◌, ◌*◌,
}
use lsmkv.RwLock.{
  RwLock, System, Step, pick, Steps, here, next, Pc, idle, shared_inner, shared_add, shared_release,
  reading, lock_test, lock_inner, lock_inner_wait, writing, unlock_flag, unlock_release,
  before_wait, wait_release, waiting, Move, start_shared, exchange, retry, give_up, shared_mutex,
  shared_fetch, shared_leave, unlock_shared, start_lock, lock_mutex, lock_sleep, lock_wake,
  lock_pass, fetch_free, fetch_busy, spin, enter, start_unlock, clear_flag, unlock_leave,
  start_wait, wait_store, wait_leave, wait_mutex, x_bit, new_lock,
}
use lsmkv.RwLock.Count.{total, others, total-others, total-set, others-le, total-replicate}

abbrev pub bit : Bool → ℕ
bit true = 1
bit false = 0

-- a thread that `readers_` counts once
abbrev pub reads : Pc → ℕ
reads reading = 1
reads shared_release = 1
reads _ = 0

-- a thread whose bit is in `readers_`
abbrev pub marks : Pc → ℕ
marks (lock_inner_wait _) = 1
marks (writing _) = 1
marks before_wait = 1
marks _ = 0

-- a thread that may write
abbrev pub writes : Pc → ℕ
writes (writing _) = 1
writes before_wait = 1
writes _ = 0

abbrev pub holds_mtx : Pc → ℕ
holds_mtx shared_add = 1
holds_mtx shared_release = 1
holds_mtx lock_test = 1
holds_mtx (lock_inner _) = 1
holds_mtx (lock_inner_wait _) = 1
holds_mtx (writing _) = 1
holds_mtx (unlock_flag _) = 1
holds_mtx unlock_release = 1
holds_mtx before_wait = 1
holds_mtx wait_release = 1
holds_mtx _ = 0

-- a writer in `atomic_wait`, or back from it
abbrev pub reserves : Pc → ℕ
reserves (lock_inner back) = bit back
reserves (lock_inner_wait back) = bit back
reserves (writing back) = bit back
reserves (unlock_flag back) = bit back
reserves before_wait = 1
reserves wait_release = 1
reserves waiting = 1
reserves _ = 0

-- a writer that has not been in `atomic_wait`
abbrev pub passed : Pc → ℕ
passed (lock_inner false) = 1
passed (lock_inner_wait false) = 1
passed (writing false) = 1
passed (unlock_flag false) = 1
passed unlock_release = 1
passed _ = 0

-- a reader whose copy of `readers_` has the writer's bit
abbrev pub stale : Pc → ℕ
stale (shared_inner lk) = if leb x_bit lk then 1 else 0
stale _ = 0

abbrev pub each : Pc → ℕ
each _ = 1

-- The counts of the threads, and what the lock's members have to do with them.
pub record Counts (m : RwLock) (readers marked writers holders reserved fresh bad all : ℕ)
    : Type 0 where
  pub mtx : bit m.mtx ≡ holders
  pub word : m.readers ≡ readers + x_bit * marked
  pub flag : bit m.writer_waiting ≡ reserved
  pub quiet : 0 < writers → readers ≡ 0
  pub free : 0 < fresh → reserved ≡ 0
  pub good : bad ≡ 0
  pub most : readers ≤ all
  pub few : all < x_bit

-- The relations between the counts of the other threads.
pub record Rest (readers marked writers holders reserved fresh all : ℕ) : Type 0 where
  pub marked-holders : marked ≤ holders
  pub writers-marked : writers ≤ marked
  pub fresh-holders : fresh ≤ holders
  pub readers-all : readers ≤ all

Move-Counts :
    {m n : RwLock} {p q : Pc} {r x w h v f a : ℕ} (b : ℕ)
    → Rest r x w h v f a
    → Move m p n q
    → Counts m
        (r + reads p)
        (x + marks p)
        (w + writes p)
        (h + holds_mtx p)
        (v + reserves p)
        (f + passed p)
        (b + stale p)
        (a + each p)
    → Counts n
        (r + reads q)
        (x + marks q)
        (w + writes q)
        (h + holds_mtx q)
        (v + reserves q)
        (f + passed q)
        (b + stale q)
        (a + each q)
Move-Counts b o start_shared c = ground arith
Move-Counts b o (exchange e) c = ground arith
Move-Counts b o (retry e) c = ground arith
Move-Counts b o (give_up e) c = ground arith
Move-Counts b o (shared_mutex e) c = ground arith
Move-Counts b o shared_fetch c = ground arith
Move-Counts b o shared_leave c = ground arith
Move-Counts b o unlock_shared c = ground arith
Move-Counts b o start_lock c = ground arith
Move-Counts b o (lock_mutex e) c = ground arith
Move-Counts b o (lock_sleep e) c = ground arith
Move-Counts b o (lock_wake e) c = ground arith
Move-Counts b o (lock_pass e) c = ground arith
Move-Counts b o (fetch_free {back = true} e) c = ground arith
Move-Counts b o (fetch_free {back = false} e) c = ground arith
Move-Counts b o (fetch_busy {back = true} e) c = ground arith
Move-Counts b o (fetch_busy {back = false} e) c = ground arith
Move-Counts b o (spin {back = true} e) c = ground arith
Move-Counts b o (spin {back = false} e) c = ground arith
Move-Counts b o (enter {back = true} e) c = ground arith
Move-Counts b o (enter {back = false} e) c = ground arith
Move-Counts b o (start_unlock {back = true}) c = ground arith
Move-Counts b o (start_unlock {back = false}) c = ground arith
Move-Counts b o (clear_flag {back = true}) c = ground arith
Move-Counts b o (clear_flag {back = false}) c = ground arith
Move-Counts b o unlock_leave c = ground arith
Move-Counts b o (start_wait {back = true}) c = ground arith
Move-Counts b o (start_wait {back = false}) c = ground arith
Move-Counts b o wait_store c = ground arith
Move-Counts b o wait_leave c = ground arith
Move-Counts b o (wait_mutex e) c = ground arith

-- The lock's members stand for the threads.
abbrev pub IsCounted : System → Type 0
IsCounted s =
    Counts s.lock (total reads s.threads) (total marks s.threads) (total writes s.threads)
      (total holds_mtx s.threads) (total reserves s.threads) (total passed s.threads)
      (total stale s.threads) (total each s.threads)

pub marks-holders : (p : Pc) → marks p ≤ holds_mtx p
marks-holders p = ground arith

writes-marks : (p : Pc) → writes p ≤ marks p
writes-marks p = ground arith

pub writes-holders : (p : Pc) → writes p ≤ holds_mtx p
writes-holders p = ground arith

pub writes-passed : (p : Pc) → writes p ≤ passed p + reserves p
writes-passed (writing true) = omega arith
writes-passed (writing false) = omega arith
writes-passed p = ground arith

pub bit-le : (b : Bool) → bit b ≤ 1
bit-le b = ground arith

passed-holders : (p : Pc) → passed p ≤ holds_mtx p
passed-holders (lock_inner true) = omega arith
passed-holders (lock_inner false) = omega arith
passed-holders p = ground arith

reads-each : (p : Pc) → reads p ≤ each p
reads-each p = ground arith

pub Step-IsCounted : {s t : System} → Step s t → IsCounted s → IsCounted t
Step-IsCounted {s} (pick i {p} {q} e mv) c =
    let before : (w : Pc → ℕ) → total w s.threads ≡ others w s.threads i + w p =
      λ w. total-others w s.threads i p e in
    let after : (w : Pc → ℕ) → total w (set s.threads i q) ≡ others w s.threads i + w q =
      λ w. total-set w s.threads i p q e in
    rw
      (
        after reads,
        after marks,
        after writes,
        after holds_mtx,
        after reserves,
        after passed,
        after stale,
        after each,
      )
      (Move-Counts (others stale s.threads i)
        (record {
          marked-holders = others-le marks holds_mtx marks-holders s.threads i;
          writers-marked = others-le writes marks writes-marks s.threads i;
          fresh-holders = others-le passed holds_mtx passed-holders s.threads i;
          readers-all = others-le reads each reads-each s.threads i;
        })
        mv
        (rw
          (
            sym (before reads),
            sym (before marks),
            sym (before writes),
            sym (before holds_mtx),
            sym (before reserves),
            sym (before passed),
            sym (before stale),
            sym (before each),
          )
          c))

-- A new lock, and `n` threads that have not started.
abbrev pub start_system : ℕ → System
start_system n = record { lock = new_lock; threads = replicate n idle }

total_each : (n : ℕ) (p : Pc) → total each (replicate n p) ≡ n
total_each zero p = refl
total_each (suc n) p = omega (arith, total_each n p)

start-IsCounted : (n : ℕ) → n < x_bit → IsCounted (start_system n)
start-IsCounted n few =
    let none_of : (w : Pc → ℕ) → w idle ≡ 0 → total w (replicate n idle) ≡ 0 =
      λ w e. total-replicate w n idle e in
    rw
      (
        none_of reads refl,
        none_of marks refl,
        none_of writes refl,
        none_of holds_mtx refl,
        none_of reserves refl,
        none_of passed refl,
        none_of stale refl,
        total_each n idle,
      )
      (ground arith)

pub Steps-IsCounted : {n : ℕ} {s : System} → n < x_bit → Steps (start_system n) s → IsCounted s
Steps-IsCounted few here = start-IsCounted _ few
Steps-IsCounted few (next r st) = Step-IsCounted st (Steps-IsCounted few r)

-- ===== src/RwLock.antt =====
-- utils/rwlock.h: the readers-writer lock, one shared access at a time, and threads that interleave.
mod Count
pub mod Invariant
pub mod Exclusion
mod Tests
use lsmkv.Base.{
  ℕ, ◌+◌, ◌-◌, ◌%◌, ◌^◌, ◌≤◌, ◌<◌, ◌≡◌, ◌≢◌, refl, arith, Bool, true, false, Option, some, List,
  get_elem?, set, not, ◌==◌,
}

-- the bit of `readers_` that a writer sets
abbrev pub x_bit : ℕ
x_bit = 2 ^ 31

-- What the threads share: `mtx_`, `readers_` and `writer_waiting_`.
pub record RwLock : Type 0 where
  pub mtx : Bool  -- held by some thread
  pub readers : ℕ  -- uint32_t
  pub writer_waiting : Bool

-- Where a thread stands, with the local variables that are live there. A flag marks a writer that has
-- come back from `atomic_wait` since it took the lock.
pub data Pc : Type 0 where
  idle : Pc
  shared_inner : (lk : ℕ) → Pc  -- the compare-exchange of `shared_lock_inner`
  shared_wait : Pc  -- before `mtx_.lock()` of `shared_lock_wait`
  shared_add : Pc  -- before its `fetch_add`
  shared_release : Pc  -- before its `mtx_.unlock()`
  reading : Pc
  lock_enter : Pc  -- before `mtx_.lock()` of `lock`
  lock_test : Pc  -- `mtx_` held, before the test of `writer_waiting_`
  lock_signal : Pc  -- in `writer_waiting_signal_.wait`
  lock_inner : (back : Bool) → Pc  -- before the `fetch_add` of `lock_inner`
  lock_inner_wait : (back : Bool) → Pc  -- the loop of `lock_inner_wait`
  writing : (back : Bool) → Pc
  unlock_flag : (back : Bool) → Pc  -- after `unlock_inner` of `unlock`
  unlock_release : Pc  -- before `mtx_.unlock()` of `unlock`
  before_wait : Pc  -- `writer_waiting_` set, before `unlock_inner`
  wait_release : Pc  -- before `mtx_.unlock()` of `atomic_wait`
  waiting : Pc  -- in the wait that `atomic_wait` is given, and before `mtx_.lock()`

-- One step of one thread. A weak compare-exchange may fail at any time, and a condition variable may
-- wake at any time. So may a wait on `readers_` or on what `atomic_wait` is given: it looks again as often
-- as it likes, whether it was notified or not. That allows every run of the blocking waits and more, so
-- what holds in every reachable state holds with them; a lost notification is not seen here.
pub data Move (m : RwLock) : Pc → RwLock → Pc → Type 0 where
  -- lock_shared
  start_shared : Move m idle m (shared_inner 0)
  exchange :
      {lk : ℕ}
      → m.readers ≡ lk
      → Move m (shared_inner lk) (record m { readers = (lk + 1) % 2 ^ 32 }) reading
  retry : {lk : ℕ} → m.readers < x_bit → Move m (shared_inner lk) m (shared_inner m.readers)
  give_up : {lk : ℕ} → x_bit ≤ m.readers → Move m (shared_inner lk) m shared_wait
  shared_mutex : m.mtx ≡ false → Move m shared_wait (record m { mtx = true }) shared_add
  shared_fetch : Move m shared_add (record m { readers = (m.readers + 1) % 2 ^ 32 }) shared_release
  shared_leave : Move m shared_release (record m { mtx = false }) reading
  -- unlock_shared
  unlock_shared : Move m reading (record m { readers = (m.readers + 2 ^ 32 - 1) % 2 ^ 32 }) idle
  -- lock
  start_lock : Move m idle m lock_enter
  lock_mutex : m.mtx ≡ false → Move m lock_enter (record m { mtx = true }) lock_test
  lock_sleep : m.writer_waiting ≡ true → Move m lock_test (record m { mtx = false }) lock_signal
  lock_wake : m.mtx ≡ false → Move m lock_signal (record m { mtx = true }) lock_test
  lock_pass : m.writer_waiting ≡ false → Move m lock_test m (lock_inner false)
  fetch_free :
      {back : Bool}
      → m.readers ≡ 0
      → Move m (lock_inner back) (record m { readers = x_bit }) (writing back)
  fetch_busy :
      {back : Bool}
      → m.readers ≢ 0
      → Move m
          (lock_inner back)
          (record m { readers = (m.readers + x_bit) % 2 ^ 32 })
          (lock_inner_wait back)
  spin : {back : Bool} → m.readers ≢ x_bit → Move m (lock_inner_wait back) m (lock_inner_wait back)
  enter : {back : Bool} → m.readers ≡ x_bit → Move m (lock_inner_wait back) m (writing back)
  -- unlock
  start_unlock : {back : Bool} → Move m (writing back) (record m { readers = 0 }) (unlock_flag back)
  clear_flag :
      {back : Bool} → Move m (unlock_flag back) (record m { writer_waiting = false }) unlock_release
  unlock_leave : Move m unlock_release (record m { mtx = false }) idle
  -- atomic_wait, from `before_wait` to `after_wait`
  start_wait :
      {back : Bool} → Move m (writing back) (record m { writer_waiting = true }) before_wait
  wait_store : Move m before_wait (record m { readers = 0 }) wait_release
  wait_leave : Move m wait_release (record m { mtx = false }) waiting
  wait_mutex : m.mtx ≡ false → Move m waiting (record m { mtx = true }) (lock_inner true)

-- What the code asserts of the members where a thread stands: in `shared_unlock_inner`, of the value
-- before the subtraction, and in `after_wait`.
abbrev pub assertion : RwLock → Pc → Bool
assertion m reading = not (m.readers % x_bit == 0)
assertion m (lock_inner true) = m.writer_waiting
assertion m _ = true

pub record System : Type 0 where
  pub lock : RwLock
  pub threads : List Pc

pub data Step (s : System) : System → Type 0 where
  pick :
      (i : ℕ) {p q : Pc} {m : RwLock}
      → get_elem? s.threads i ≡ some p
      → Move s.lock p m q
      → Step s (record { lock = m; threads = set s.threads i q })

-- A new lock, as its members are initialised.
abbrev pub new_lock : RwLock
new_lock = record { mtx = false; readers = 0; writer_waiting = false }

pub data Steps (s : System) : System → Type 0 where
  here : Steps s s
  next : {t u : System} → Steps s t → Step t u → Steps s u

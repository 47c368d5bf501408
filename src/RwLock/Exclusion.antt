-- ===== src/RwLock/Exclusion.antt =====
-- What no interleaving of the threads can bring about.
use lsmkv.Base.{ℕ, ◌≤◌, ◌<◌, ◌≡◌, ◌≢◌, refl, arith, true, false, some, get_elem?}
use native.Mathlib.Decide.{dec_lt}
use lsmkv.RwLock.{System, assertion, Steps, Pc, reading, lock_inner, waiting, x_bit}
use lsmkv.RwLock.Count.{total, total-others, two-total, total-le}
use lsmkv.RwLock.Invariant.{
  reads, writes, reserves, passed, start_system, marks-holders, writes-holders, writes-passed,
  bit-le, Steps-IsCounted, marks, holds_mtx,
}

module _ {n : ℕ} {s : System} (few : n < x_bit) (r : Steps (start_system n) s) where
  open (Steps-IsCounted few r) use {mtx, word, flag, quiet, free, good, most}

  marked_once : total marks s.threads ≤ 1
  marked_once =
      omega (arith, mtx, bit-le s.lock.mtx, total-le marks holds_mtx marks-holders s.threads)

  -- In every state that fewer than 2³¹ threads reach from a new lock by interleaving their single
  -- accesses, while one thread may write, every other thread neither reads nor writes.
  pub mutual_exclusion :
      (i j : ℕ) (p q : Pc)
      → i ≢ j
      → get_elem? s.threads i ≡ some p
      → get_elem? s.threads j ≡ some q
      → writes p ≡ 1
      → (reads q ≡ 0) × (writes q ≡ 0)
  mutual_exclusion i j p q ne e f w =
      let one = total-others writes s.threads i p e in
      let quiet_now : total reads s.threads ≡ 0 = quiet (omega arith) in
      let other = total-others reads s.threads j q f in
      let held = two-total holds_mtx s.threads i j p q ne e f in
      (omega arith, omega (arith, writes-holders p, writes-holders q, bit-le s.lock.mtx, mtx))

  -- In every such state, while a thread is in the wait of `atomic_wait`, no other thread may write,
  -- whether or not others read.
  pub waiting_excludes :
      (i j : ℕ) (q : Pc)
      → i ≢ j
      → get_elem? s.threads i ≡ some waiting
      → get_elem? s.threads j ≡ some q
      → writes q ≡ 0
  waiting_excludes i j q ne e f =
      let both = two-total reserves s.threads i j waiting q ne e f in
      let fresh = total-others passed s.threads j q f in
      let here = total-others reserves s.threads i waiting e in
      elim (dec_lt 0 (total passed s.threads)) [
        | yes some_fresh ↦ absurd (omega (arith, free some_fresh))
        | no none_fresh ↦ omega (arith, writes-passed q, bit-le s.lock.writer_waiting, flag)
      ]

  -- In every such state each thread finds the assertion of the lock at its place true: a reader about
  -- to leave, that `readers_` without the writer's bit is not zero; a writer back from the wait of
  -- `atomic_wait`, with the mutex and before it adds its bit, that `writer_waiting_` is set.
  pub assertions_hold :
      (i : ℕ) (p : Pc) → get_elem? s.threads i ≡ some p → assertion s.lock p ≡ true
  assertions_hold i reading e = ground (
    arith,
    total-others reads s.threads i reading e,
    marked_once,
    word,
    most,
    few,
    (Steps-IsCounted few r).few,
  )
  assertions_hold i (lock_inner true) e =
      ground (arith, total-others reserves s.threads i (lock_inner true) e, flag)
  assertions_hold i (lock_inner false) e = refl
  assertions_hold i p e = ground arith

-- ===== src/File/Buffered.antt =====
-- The buffer keeps the order of the bytes, and loses none unless it says so.
use lsmkv.Base.{
  ℕ, ◌-◌, ◌≤◌, ◌≡◌, refl, sym, ◌∙◌, ap, arith, List, [], ◌∷◌, ◌++◌, length, take, drop, min, ltb,
  ◌==◌, if◌then◌else◌, append_assoc, append-nil, inl, inr, length-append, nil-of_length, ==_iff,
  length-take, take-append-drop, Bool-cases, inl, inr,
}
use lsmkv.Status.{Code, ok, is_ok, is_ok-ok, is_not_ok}
use lsmkv.File.{
  PosixWritableFile, WriteResult, wrote, interrupted, failed, write_unbuffered, flush_buffer,
  append, flush, sync, close, buffer_size, append_rest,
}

-- Every byte that the file has taken and not lost: those on the disk, then those of the buffer.
unfoldable pub contents : PosixWritableFile → List ℕ
contents f = f.disk ++ f.buf

-- What a call leaves of the bytes that it owes: a first part is on the disk, and after a success the
-- rest is in the buffer.
abbrev pub Keeps : Code → PosixWritableFile → List ℕ → Type 0
Keeps status f owed = (lost : List ℕ) × (f.disk ++ (if is_ok status then f.buf else lost) ≡ owed)

rejoin : (n : ℕ) (disk s : List ℕ) → (disk ++ take n s) ++ drop n s ≡ disk ++ s
rejoin n disk s = rw (append_assoc, take-append-drop) refl

-- The loop on a file with an empty buffer.
write_unbuffered_lem :
    (answers : List WriteResult) (s : List ℕ) (f : PosixWritableFile)
    → f.buf ≡ []
    → ((write_unbuffered answers s f).1.buf ≡ [])
      × Keeps (write_unbuffered answers s f).0 (write_unbuffered answers s f).1 (f.disk ++ s)
unfolding write_unbuffered is_ok
write_unbuffered_lem [] [] f e = (e, ([], rw e refl))
write_unbuffered_lem (a ∷ answers) [] f e = (e, ([], rw e refl))
write_unbuffered_lem [] (b ∷ bs) f e = (e, ([], rw e (append-nil _)))
write_unbuffered_lem (wrote n ∷ answers) (b ∷ bs) f e =
    let (kept, (lost, order)) =
      write_unbuffered_lem answers (drop n (b ∷ bs)) (record f { disk = f.disk ++ take n (b ∷ bs) })
        e in
    (kept, (lost, order ∙ rejoin n f.disk (b ∷ bs)))
write_unbuffered_lem (interrupted ∷ answers) (b ∷ bs) f e =
    write_unbuffered_lem answers (b ∷ bs) f e
write_unbuffered_lem (failed ∷ answers) (b ∷ bs) f e = (e, (b ∷ bs, refl))

-- The loop neither reads nor writes the buffer.
write_unbuffered-buf :
    (answers : List WriteResult) (s : List ℕ) (f : PosixWritableFile) (buf : List ℕ)
    → write_unbuffered answers s (record f { buf = buf })
      ≡ ((write_unbuffered answers s f).0, record (write_unbuffered answers s f).1 { buf = buf })
unfolding write_unbuffered
write_unbuffered-buf [] [] f buf = refl
write_unbuffered-buf (a ∷ answers) [] f buf = refl
write_unbuffered-buf [] (b ∷ bs) f buf = refl
write_unbuffered-buf (wrote n ∷ answers) (b ∷ bs) f buf =
    write_unbuffered-buf answers (drop n (b ∷ bs)) (record f { disk = f.disk ++ take n (b ∷ bs) })
      buf
write_unbuffered-buf (interrupted ∷ answers) (b ∷ bs) f buf =
    write_unbuffered-buf answers (b ∷ bs) f buf
write_unbuffered-buf (failed ∷ answers) (b ∷ bs) f buf = refl

flush_buffer_lem :
    (f : PosixWritableFile)
    → ((flush_buffer f).1.buf ≡ []) × Keeps (flush_buffer f).0 (flush_buffer f).1 (contents f)
unfolding flush_buffer contents
flush_buffer_lem f =
    rw (write_unbuffered-buf f.answers f.buf f []) at
      (write_unbuffered_lem f.answers f.buf (record f { buf = [] }) refl)

append_rest_lem :
    (rest : List ℕ) (status : Code) (f : PosixWritableFile) (owed : List ℕ)
    → f.buf ≡ []
    → Keeps status f owed
    → Keeps (append_rest rest status f).0 (append_rest rest status f).1 (owed ++ rest)
unfolding append_rest is_ok
append_rest_lem rest status f owed e (lost, order) = elim (Bool-cases (is_ok status)) [
  | inl good ↦
      let all : f.disk ≡ owed = simp append-nil at (rw (good, e) at order) in
      elim (Bool-cases (ltb (length rest) buffer_size)) [
        | inl small ↦ rw (good, small) (lost, rw all refl)
        | inr large ↦ rw (good, large, sym all) (write_unbuffered_lem f.answers rest f e).1
      ]
  | inr bad ↦
      let part : (f.disk ++ lost) ++ rest ≡ owed ++ rest = ap (λ l. l ++ rest) (rw bad at order) in
      rw bad (lost ++ rest, rw bad (sym (append_assoc f.disk lost rest) ∙ part))
]

append-Keeps :
    (f : PosixWritableFile) (s : List ℕ) → Keeps (append f s).0 (append f s).1 (contents f ++ s)
unfolding append contents is_ok
append-Keeps f s =
    let copied = min (length s) (buffer_size - length f.buf) in
    let rest = drop copied s in
    let filled : PosixWritableFile = record f { buf = f.buf ++ take copied s } in
    let flushed = flush_buffer_lem filled in
    let joined : (f.disk ++ (f.buf ++ take copied s)) ++ rest ≡ (f.disk ++ f.buf) ++ s =
      simp (append_assoc, take-append-drop copied s) refl in
    elim (Bool-cases (length rest == 0)) [
      | inl fits ↦ rw fits (
        [],
        simp append-nil at (rw (nil-of_length rest ((==_iff (length rest) 0).0 fits)) at joined),
      )
      | inr over ↦
          rw (over, sym joined)
            (append_rest_lem rest (flush_buffer filled).0 (flush_buffer filled).1 _ flushed.0
              flushed.1)
    ]

append_rest-buf :
    (rest : List ℕ) (status : Code) (f : PosixWritableFile)
    → f.buf ≡ []
    → length (append_rest rest status f).1.buf ≤ buffer_size
unfolding append_rest is_ok
append_rest-buf rest status f e = elim (Bool-cases (is_ok status)) [
  | inl good ↦ elim (Bool-cases (ltb (length rest) buffer_size)) [
    | inl small ↦ rw (good, small) (ground arith)
    | inr large ↦ rw (good, large, (write_unbuffered_lem f.answers rest f e).0) (omega arith)
  ]
  | inr bad ↦ rw (bad, e) (omega arith)
]

pub append-contents :
    (f : PosixWritableFile) (s : List ℕ)
    → (append f s).0 ≡ ok
    → contents (append f s).1 ≡ contents f ++ s
unfolding contents is_ok
append-contents f s e = let (lost, order) = append-Keeps f s in rw e at order

-- An append to a buffer within its size keeps it so. One that succeeds puts its bytes behind what the
-- file has taken; one that fails leaves on the disk a first part of those bytes, in order. This holds
-- whatever `::write` answers.
pub append_lem :
    (f : PosixWritableFile) (s : List ℕ)
    → length f.buf ≤ buffer_size
    → (length (append f s).1.buf ≤ buffer_size)
      × Keeps (append f s).0 (append f s).1 (contents f ++ s)
unfolding append
append_lem f s h =
    let copied = min (length s) (buffer_size - length f.buf) in
    let filled : PosixWritableFile = record f { buf = f.buf ++ take copied s } in
    let within : length (f.buf ++ take copied s) ≤ buffer_size =
      omega (arith, length-append f.buf (take copied s), length-take copied s) in
    let bounded =
      elim (Bool-cases (length (drop copied s) == 0))
        as (λ _. length (append f s).1.buf ≤ buffer_size) [
          | inl fits ↦ rw fits within
          | inr over ↦ rw over (
              append_rest-buf (drop copied s) (flush_buffer filled).0 (flush_buffer filled).1
                (flush_buffer_lem filled).0)
        ] in
    (bounded, append-Keeps f s)

-- After a flush or a sync that succeeds, everything that the file has taken is on the disk, in order.
pub flush-disk : (f : PosixWritableFile) → (flush f).0 ≡ ok → (flush f).1.disk ≡ contents f
unfolding flush is_ok
flush-disk f e =
    let (none_left, (lost, order)) = flush_buffer_lem f in
    simp append-nil at (rw (e, none_left) at order)

pub flush-contents : (f : PosixWritableFile) → (flush f).0 ≡ ok → contents (flush f).1 ≡ contents f
unfolding flush is_ok contents
flush-contents f e = let (none_left, (lost, order)) = flush_buffer_lem f in rw e at order

-- A sync and a close that succeed leave the bytes that the file has taken as they are.
pub sync-contents : (f : PosixWritableFile) → (sync f).0 ≡ ok → contents (sync f).1 ≡ contents f
unfolding sync flush
sync-contents f e = elim (Bool-cases (is_ok (flush_buffer f).0)) [
  | inl good ↦ rw good (flush-contents f (is_ok-ok (flush_buffer f).0 good))
  | inr bad ↦ absurd (is_not_ok (flush_buffer f).0 bad (rw bad at e))
]

pub close-contents : (f : PosixWritableFile) → (close f).0 ≡ ok → contents (close f).1 ≡ contents f
unfolding close flush contents
close-contents f e = elim (Bool-cases (is_ok (flush_buffer f).0)) [
  | inl good ↦ flush-contents f (is_ok-ok (flush_buffer f).0 good)
  | inr bad ↦ absurd (
      is_not_ok (flush_buffer f).0 bad (elim (Bool-cases (flush_buffer f).1.closes) [
        | inl closed ↦ rw closed at e
        | inr stays ↦ rw (stays, bad) at e
      ]))
]

-- ===== src/File.antt =====
-- src/include/file.h: the writable file with a buffer. What `::write`, `fdatasync` and `close` answer
-- is the system's: each file carries the answers that it will get, in order.
pub mod Buffered
mod Tests
use lsmkv.Base.{
  ℕ, ◌+◌, ◌-◌, ◌^◌, List, [], ◌∷◌, ◌++◌, Bool, true, false, not, ◌&&◌, length, take, drop, min, ltb,
  ◌==◌, if◌then◌else◌,
}
use lsmkv.Status.{Code, ok, io_error, is_ok}

abbrev pub buffer_size : ℕ
buffer_size = 65536

-- An answer of `::write`: a number of bytes that were taken, `EINTR`, or another error. A call for
-- which no answer is left takes every byte.
pub data WriteResult : Type 0 where
  wrote : ℕ → WriteResult
  interrupted failed : WriteResult

-- `buf` holds the first `pos` bytes of the buffer, and `disk` what the file has.
pub record PosixWritableFile : Type 0 where
  pub buf : List ℕ
  pub disk : List ℕ
  pub answers : List WriteResult
  pub syncs : Bool
  pub closes : Bool
  pub is_open : Bool  -- `_fd` is not -1

unfoldable pub new_file : List WriteResult → Bool → Bool → PosixWritableFile
new_file answers syncs closes = record {
  buf = [];
  disk = [];
  answers = answers;
  syncs = syncs;
  closes = closes;
  is_open = true;
}

-- `WriteUnbuffered`: the loop until no byte is left.
unfoldable pub write_unbuffered :
    List WriteResult → List ℕ → PosixWritableFile → Code × PosixWritableFile
write_unbuffered answers [] f = (ok, record f { answers = answers })
write_unbuffered [] (b ∷ bs) f = (ok, record f { disk = f.disk ++ b ∷ bs; answers = [] })
write_unbuffered (wrote n ∷ answers) (b ∷ bs) f =
    write_unbuffered answers (drop n (b ∷ bs)) (record f { disk = f.disk ++ take n (b ∷ bs) })
write_unbuffered (interrupted ∷ answers) (b ∷ bs) f = write_unbuffered answers (b ∷ bs) f
write_unbuffered (failed ∷ answers) (b ∷ bs) f = (io_error, record f { answers = answers })

-- The position goes back to 0 whatever the status.
unfoldable pub flush_buffer : PosixWritableFile → Code × PosixWritableFile
flush_buffer f =
    let (status, g) = write_unbuffered f.answers f.buf f in (status, record g { buf = [] })

-- The bytes that did not fit, after the flush: small writes go to the buffer, large ones straight to
-- the file.
unfoldable pub append_rest : List ℕ → Code → PosixWritableFile → Code × PosixWritableFile
append_rest rest status f =
    if not (is_ok status)
    then (status, f)
    else if ltb (length rest) buffer_size
    then (ok, record f { buf = rest })
    else write_unbuffered f.answers rest f

unfoldable pub append : PosixWritableFile → List ℕ → Code × PosixWritableFile
append f written =
    let copy_size = min (length written) (buffer_size - length f.buf) in
    let rest = drop copy_size written in
    let f = record f { buf = f.buf ++ take copy_size written } in
    let (status, g) = flush_buffer f in
    if length rest == 0 then (ok, f) else append_rest rest status g

unfoldable pub flush : PosixWritableFile → Code × PosixWritableFile
flush f = flush_buffer f

unfoldable pub sync : PosixWritableFile → Code × PosixWritableFile
sync f =
    let (status, g) = flush_buffer f in
    if not (is_ok status) then (status, g) else (if g.syncs then ok else io_error, g)

-- The status of the flush, unless only the close fails.
unfoldable pub close : PosixWritableFile → Code × PosixWritableFile
close f =
    let (status, g) = flush_buffer f in
    (if not g.closes && is_ok status then io_error else status, record g { is_open = false })

-- ===== src/File/Tests.antt =====
-- Appends to a file whose buffer holds all, and one whose writes are cut short.
use lsmkv.Base.{ℕ, ◌≤◌, ◌≡◌, refl, arith, List, [], ◌∷◌, ◌++◌, true, length}
use lsmkv.Status.{io_error}
use lsmkv.File.{
  PosixWritableFile, wrote, interrupted, failed, append, flush_buffer, write_unbuffered, flush,
  buffer_size,
}
use lsmkv.File.Buffered.{contents, Keeps, append_lem}

abbrev three : List ℕ
three = 1 ∷ 2 ∷ 3 ∷ []

abbrev slow : PosixWritableFile
slow = record {
  buf = three;
  disk = 0 ∷ [];
  answers = wrote 1 ∷ interrupted ∷ wrote 1 ∷ failed ∷ [];
  syncs = true;
  closes = true;
  is_open = true;
}

flush_fails :
    ((flush slow).0 ≡ io_error) × ((flush slow).1.disk ≡ 0 ∷ 1 ∷ 2 ∷ []) × ((flush slow).1.buf ≡ [])
unfolding flush flush_buffer write_unbuffered
flush_fails = (refl, refl, refl)

append_lem_example :
    (length (append slow three).1.buf ≤ buffer_size)
    × Keeps (append slow three).0 (append slow three).1 (contents slow ++ three)
append_lem_example = append_lem slow three (omega arith)

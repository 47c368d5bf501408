-- ===== src/Builder/Posix.antt =====
-- The buffered file of src/include/file.h is such a file as the builder relies on.
use lsmkv.File.{PosixWritableFile, append, flush}
use lsmkv.File.Buffered.{contents, append-contents, flush-disk, flush-contents}
use lsmkv.Builder.{WritableFile}
use lsmkv.Builder.Written.{FileLaws}

abbrev pub posix_file : WritableFile PosixWritableFile
posix_file = record { append = append; flush = flush }

abbrev pub posix_laws : FileLaws PosixWritableFile posix_file
posix_laws = record {
  contents = contents;
  disk = λ f. f.disk;
  append-ok = λ f s e. append-contents f s e;
  flush-ok = λ f e. (flush-contents f e, flush-disk f e);
}

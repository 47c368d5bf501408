-- ===== src/Format/RoundTrip.antt =====
-- Handles, value log entries and the footer come back from their bytes.
use lsmkv.Base.{
  ℕ, suc, ◌^◌, ◌≤◌, ◌<◌, ◌≡◌, ◌≢◌, refl, sym, ap, ◌∙◌, arith, List, ◌++◌, append_assoc, some,
  length, drop, length-append, drop-append, ◌==◌, ◌&&◌, if◌then◌else◌,
}
use lsmkv.Coding.{decode_fixed32, decode_fixed64, encode_fixed32, encode_fixed64}
use lsmkv.Coding.RoundTrip.{
  length-encode_fixed, decode_fixed-encode_fixed, decode_fixed-drop, decode_fixed-drop_last,
}
use lsmkv.Status.{ok, corruption}
use lsmkv.Format.{
  BlockEntryInfo, encode_block_info, decode_block_info, VLogEntryInfo, encode_vlog_info,
  decode_vlog_info, Footer, encode_footer, decode_footer, check_magic, magic_lo, magic_hi,
}

abbrev pub FitsInfo : BlockEntryInfo → Type 0
FitsInfo b = (b.offset < 2 ^ 64) × (b.size < 2 ^ 64)

pub length-encode_block_info : (b : BlockEntryInfo) → length (encode_block_info b) ≡ 16
unfolding encode_block_info
length-encode_block_info b = omega (
  arith,
  length-append (encode_fixed64 b.offset) (encode_fixed64 b.size),
  length-encode_fixed 8 b.offset,
  length-encode_fixed 8 b.size,
)

-- A block handle comes back from its bytes, whatever follows them.
pub decode_block_info-encode :
    (b : BlockEntryInfo) (rest : List ℕ)
    → FitsInfo b
    → decode_block_info (encode_block_info b ++ rest) ≡ some b
decode_block_info-encode b rest h =
    long (encode_block_info b ++ rest)
      (omega (arith, length-append (encode_block_info b) rest, length-encode_block_info b))
    ∙ ap some (λ i. record { offset = o i; size = s i })
  where
    long :
        (src : List ℕ)
        → 16 < suc (length src)
        → decode_block_info src
          ≡ some (record { offset = decode_fixed64 src; size = decode_fixed64 (drop 8 src) })
    long src l = unfold decode_block_info in ground arith

    o : decode_fixed64 (encode_block_info b ++ rest) ≡ b.offset
    o =
        unfold encode_block_info in
        rw append_assoc (decode_fixed-encode_fixed 8 b.offset (encode_fixed64 b.size ++ rest) h.0)

    s : decode_fixed64 (drop 8 (encode_block_info b ++ rest)) ≡ b.size
    s =
        unfold encode_block_info in
        rw append_assoc (
          decode_fixed-drop 8 8 b.size (encode_fixed64 b.offset) rest
            (omega (arith, length-encode_fixed 8 b.offset)) h.1)

decode_block_info-drop :
    (off : ℕ) (b : BlockEntryInfo) (pre rest : List ℕ)
    → off ≡ length pre
    → FitsInfo b
    → decode_block_info (drop off (pre ++ (encode_block_info b ++ rest))) ≡ some b
decode_block_info-drop off b pre rest e h =
    ap decode_block_info (drop-append off pre (encode_block_info b ++ rest) e)
    ∙ decode_block_info-encode b rest h

abbrev pub FitsFooter : Footer → Type 0
FitsFooter f = FitsInfo f.metaindex_handle × FitsInfo f.index_handle × FitsInfo f.model_handle

-- The bytes of a footer with any two numbers in the place of the magic number.
abbrev pub footer_with : Footer → ℕ → ℕ → List ℕ
footer_with f lo hi =
    encode_block_info f.metaindex_handle
    ++ encode_block_info f.index_handle
    ++ encode_block_info f.model_handle
    ++ encode_fixed32 lo
    ++ encode_fixed32 hi

check_magic_lem :
    (f : Footer) (input : List ℕ)
    → 8 ≤ length input
    → check_magic f input
      ≡ some (
        if decode_fixed32 input == magic_lo && decode_fixed32 (drop 4 input) == magic_hi
            then ok
            else corruption,
        f,
      )
unfolding check_magic
check_magic_lem f input h = ground arith

-- A footer whose handles fit 64 bits is read whole and never past its end: its handles come back, and the status is `ok`
-- exactly when both halves of the magic number are right.
pub decode_footer-footer_with :
    (f : Footer) (lo hi : ℕ)
    → FitsFooter f
    → lo < 2 ^ 32
    → hi < 2 ^ 32
    → decode_footer (footer_with f lo hi)
      ≡ some (if lo == magic_lo && hi == magic_hi then ok else corruption, f)
unfolding decode_footer
decode_footer-footer_with f lo hi h hl hh =
    let a = encode_block_info f.metaindex_handle in
    let b = encode_block_info f.index_handle in
    let c = encode_block_info f.model_handle in
    let m = encode_fixed32 lo ++ encode_fixed32 hi in
    let la = length-encode_block_info f.metaindex_handle in
    let lb = length-encode_block_info f.index_handle in
    let lc = length-encode_block_info f.model_handle in
    let ll = length-encode_fixed 4 lo in
    let assoc : footer_with f lo hi ≡ a ++ (b ++ (c ++ m)) = simp append_assoc in
    let lab = length-append a b in
    let labc = length-append (a ++ b) c in
    rw
      (
        assoc,
        decode_block_info-encode f.metaindex_handle (b ++ (c ++ m)) h.0,
        decode_block_info-drop 16 f.index_handle a (c ++ m) (sym la) h.1,
        ap (λ l. decode_block_info (drop 32 l)) (sym (append_assoc a b (c ++ m))),
        decode_block_info-drop 32 f.model_handle (a ++ b) m (omega arith) h.2,
        ap (drop 48) (sym (append_assoc a b (c ++ m)) ∙ sym (append_assoc (a ++ b) c m)),
        drop-append 48 (a ++ b ++ c) m (omega arith),
        check_magic_lem f m (
            omega (
              arith,
              length-append (encode_fixed32 lo) (encode_fixed32 hi),
              length-encode_fixed 4 hi,
            )),
        decode_fixed-encode_fixed 4 lo (encode_fixed32 hi) hl,
        decode_fixed-drop_last 4 4 hi (encode_fixed32 lo) (sym ll) hh,
      )
      refl

-- The footer that the table builder writes comes back.
pub decode_footer-encode_footer :
    (f : Footer) → FitsFooter f → decode_footer (encode_footer f) ≡ some (ok, f)
unfolding encode_footer
decode_footer-encode_footer f h =
    decode_footer-footer_with f magic_lo magic_hi h (omega arith) (omega arith)

abbrev pub FitsEntry : VLogEntryInfo → Type 0
FitsEntry v = (v.offset < 2 ^ 64) × (v.file_no < 2 ^ 32) × (v.length < 2 ^ 32)

pub length-encode_vlog_info : (v : VLogEntryInfo) → length (encode_vlog_info v) ≡ 16
unfolding encode_vlog_info
length-encode_vlog_info v = omega (
  arith,
  length-append (encode_fixed64 v.offset ++ encode_fixed32 v.file_no) (encode_fixed32 v.length),
  length-append (encode_fixed64 v.offset) (encode_fixed32 v.file_no),
  length-encode_fixed 8 v.offset,
  length-encode_fixed 4 v.file_no,
  length-encode_fixed 4 v.length,
)

-- A value log entry that fits its fields comes back from its 16 bytes; bytes of any other number are refused and
-- leave the entry as it was.
pub decode_vlog_info_lem :
    (v old : VLogEntryInfo) (src : List ℕ)
    → FitsEntry v
    → (decode_vlog_info old (encode_vlog_info v) ≡ (ok, v))
      × (length src ≢ 16 → decode_vlog_info old src ≡ (corruption, old))
decode_vlog_info_lem v old src h = (
  long (encode_vlog_info v) (length-encode_vlog_info v) ∙ (λ i. (ok, fields i)),
  λ ne. unfold decode_vlog_info in ground arith,
)
  where
    read : List ℕ → VLogEntryInfo
    read src = record {
      offset = decode_fixed64 src;
      file_no = decode_fixed32 (drop 8 src);
      length = decode_fixed32 (drop 12 src);
    }

    long : (src : List ℕ) → length src ≡ 16 → decode_vlog_info old src ≡ (ok, read src)
    long src l = unfold decode_vlog_info in ground arith

    a : List ℕ
    a = encode_fixed64 v.offset

    b : List ℕ
    b = encode_fixed32 v.file_no

    c : List ℕ
    c = encode_fixed32 v.length

    fields : read (encode_vlog_info v) ≡ v
    fields =
        unfold encode_vlog_info in
        rw append_assoc (λ i. record {
          offset = decode_fixed-encode_fixed 8 v.offset (b ++ c) h.0 i;
          file_no =
              decode_fixed-drop 4 8 v.file_no a c (sym (length-encode_fixed 8 v.offset)) h.1 i;
          length =
              (ap (λ l. decode_fixed32 (drop 12 l)) (sym (append_assoc a b c))
                  ∙ decode_fixed-drop_last 4 12 v.length (a ++ b)
                      (omega (
                        arith,
                        length-append a b,
                        length-encode_fixed 8 v.offset,
                        length-encode_fixed 4 v.file_no,
                      ))
                      h.2)
                i;
        })

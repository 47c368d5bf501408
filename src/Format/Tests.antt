-- ===== src/Format/Tests.antt =====
-- The records of a table at concrete inputs.
use lsmkv.Base.{ℕ, ◌≡◌, ◌≢◌, arith, List, [], ◌∷◌, some, length, ◌==◌, ◌&&◌, if◌then◌else◌}
use lsmkv.Status.{ok, corruption}
use lsmkv.Format.{
  VLogEntryInfo, encode_vlog_info, decode_vlog_info, Footer, decode_footer, magic_lo, magic_hi,
}
use lsmkv.Format.RoundTrip.{footer_with, decode_footer-footer_with, decode_vlog_info_lem}

abbrev footer : Footer
footer = record {
  metaindex_handle = record { offset = 100; size = 20 };
  index_handle = record { offset = 120; size = 30 };
  model_handle = record { offset = 150; size = 0 };
}

decode_footer-footer_with_example :
    decode_footer (footer_with footer magic_lo 5)
    ≡ some (if magic_lo == magic_lo && 5 == magic_hi then ok else corruption, footer)
decode_footer-footer_with_example =
    decode_footer-footer_with footer magic_lo 5
      ((omega arith, omega arith), (omega arith, omega arith), (omega arith, omega arith))
      (omega arith) (omega arith)

abbrev location : VLogEntryInfo
location = record { offset = 4096; file_no = 2; length = 33 }

abbrev old_location : VLogEntryInfo
old_location = record { offset = 0; file_no = 0; length = 0 }

abbrev one_byte : List ℕ
one_byte = 1 ∷ []

decode_vlog_info_lem_example :
    (decode_vlog_info old_location (encode_vlog_info location) ≡ (ok, location))
    × (length one_byte ≢ 16 → decode_vlog_info old_location one_byte ≡ (corruption, old_location))
decode_vlog_info_lem_example =
    decode_vlog_info_lem location old_location one_byte (omega arith, omega arith, omega arith)

-- ===== src/Reader/Tests.antt =====
-- Lookups in a block of two versions of a key.
use lsmkv.Base.{ℕ, ◌≡◌, arith, List, [], ◌∷◌, length, All}
use lsmkv.Block.Entries.{Entry, Fits, encode_block}
use lsmkv.Format.{BlockEntryInfo, VLogEntryInfo}
use lsmkv.Reader.{find_in_block, filter_in_index}
use lsmkv.Reader.Search.{lookup_version, find_in_block_lem, lookup_handle, filter_in_index_lem}

abbrev query : List ℕ
query = 97 ∷ 0 ∷ 9 ∷ 0 ∷ 0 ∷ 0 ∷ 0 ∷ 0 ∷ 0 ∷ []

abbrev versions : List Entry
versions =
    record {
      key = 97 ∷ 1 ∷ 7 ∷ 0 ∷ 0 ∷ 0 ∷ 0 ∷ 0 ∷ 0 ∷ [];
      value = 5 ∷ 0 ∷ 0 ∷ 0 ∷ 0 ∷ 0 ∷ 0 ∷ 0 ∷ 1 ∷ 0 ∷ 0 ∷ 0 ∷ 9 ∷ 0 ∷ 0 ∷ 0 ∷ [];
    }
    ∷ record {
      key = 97 ∷ 1 ∷ 2 ∷ 0 ∷ 0 ∷ 0 ∷ 0 ∷ 0 ∷ 0 ∷ [];
      value = 8 ∷ 0 ∷ 0 ∷ 0 ∷ 0 ∷ 0 ∷ 0 ∷ 0 ∷ 1 ∷ 0 ∷ 0 ∷ 0 ∷ 9 ∷ 0 ∷ 0 ∷ 0 ∷ [];
    }
    ∷ []

versions-Fits : All Fits versions
versions-Fits = (omega arith, (omega arith, tt))

abbrev info : VLogEntryInfo
info = record { offset = 0; file_no = 0; length = 0 }

abbrev handle : BlockEntryInfo
handle = record { offset = 0; size = 0 }

find_in_block_lem_example :
    find_in_block (length (encode_block versions)) (encode_block versions) query info
    ≡ lookup_version query versions info
find_in_block_lem_example =
    find_in_block_lem (length (encode_block versions)) versions query info versions-Fits
      (omega arith, (omega arith, tt)) (omega arith) (omega arith)

filter_in_index_lem_example :
    filter_in_index (length (encode_block versions)) (encode_block versions) query handle
    ≡ lookup_handle query versions handle
filter_in_index_lem_example =
    filter_in_index_lem (length (encode_block versions)) versions query handle versions-Fits
      (omega arith)

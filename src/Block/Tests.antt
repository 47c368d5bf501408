-- ===== src/Block/Tests.antt =====
-- A block of two entries, walked over and searched.
use lsmkv.Base.{◌≡◌, refl, arith, List, [], ◌∷◌, ◌++◌, some, length, All}
use lsmkv.Coding.{encode_fixed}
use lsmkv.Comparator.{str, compare_with, compare_str}
use lsmkv.Block.{
  BlockIterator, add, scan_entries, parsed, parser_block, open_block, at_or_after, seek,
}
use lsmkv.Block.Entries.{
  Entry, Fits, block_entry, encode_block, add_lem, parser_block-block_entry,
  scan_entries-encode_block, first_at,
}
use lsmkv.Block.Iterate.{read_all, read_all-seek, drop_until}

abbrev entry_b : Entry
entry_b = record { key = 98 ∷ []; value = 1 ∷ 2 ∷ [] }

abbrev entry_d : Entry
entry_d = record { key = 100 ∷ 100 ∷ []; value = 7 ∷ [] }

abbrev two_entries : List Entry
two_entries = entry_b ∷ entry_d ∷ []

two_entries-Fits : All Fits two_entries
two_entries-Fits = (omega arith, (omega arith, tt))

two_entries-length : length (encode_block two_entries) ≡ 22
unfolding block_entry encode_fixed
two_entries-length = refl

add_lem_example : add (9 ∷ []) entry_b.key entry_b.value ≡ (9 ∷ []) ++ block_entry entry_b
add_lem_example = add_lem (9 ∷ []) entry_b

parser_block-block_entry_example :
    parser_block (block_entry entry_b ++ (5 ∷ [])) ≡ parsed (block_entry entry_b) (5 ∷ [])
parser_block-block_entry_example = parser_block-block_entry entry_b (5 ∷ []) (omega arith)

scan_entries-encode_block_example :
    scan_entries 22 (at_or_after str (99 ∷ [])) 0 (encode_block two_entries)
    ≡ first_at (at_or_after str (99 ∷ [])) 0 two_entries
scan_entries-encode_block_example =
    scan_entries-encode_block (at_or_after str (99 ∷ [])) 22 0 two_entries two_entries-Fits
      (omega (arith, two_entries-length))

read_all-seek_example :
    (it : BlockIterator) × (seek (open_block (encode_block two_entries) str) (99 ∷ []) ≡ some it)
    × (read_all 3 it ≡ some (drop_until (at_or_after str (99 ∷ [])) two_entries))
read_all-seek_example =
    read_all-seek str two_entries (99 ∷ []) two_entries-Fits (omega (arith, two_entries-length))

-- The seek skips the first of the two entries.
drop_until_example : drop_until (at_or_after str (99 ∷ [])) two_entries ≡ entry_d ∷ []
unfolding drop_until compare_with compare_str
drop_until_example = refl

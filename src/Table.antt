-- ===== src/Table.antt =====
-- `TableIterator` (src/include/block_format.h): it walks over the blocks of a table file by the handles
-- in the index block. Reading the file is a parameter: the status and the bytes at an offset.
use lsmkv.Base.{
  ℕ, ◌-◌, List, [], Option, none, some, Bool, true, false, ◌||◌, replicate, if◌then◌else◌,
}
use lsmkv.Comparator.{Comparator}
use lsmkv.Status.{Code, is_ok}
use lsmkv.Block
use lsmkv.Block.{BlockIterator, open_block}
use lsmkv.Format.{
  BlockEntryInfo, decode_block_info, Footer, decode_footer, encoded_length, SstFileMeta,
}

pub record TableIterator : Type 0 where
  pub index_iter : BlockIterator
  pub block_iter : BlockIterator

-- A block iterator that was not opened, or whose file could not be read.
abbrev pub unopened : Comparator → List ℕ → BlockIterator
unopened cmp bytes = record { cur = 0; end = 0; userkey_cmp = cmp; block_buffer = bytes }

unfoldable pub valid : TableIterator → Bool
valid it = Block.valid it.index_iter || Block.valid it.block_iter

unfoldable pub key : TableIterator → List ℕ
key it = Block.key it.block_iter

unfoldable pub value : TableIterator → List ℕ
value it = Block.value it.block_iter

module _ (read : ℕ → ℕ → Code × List ℕ) (cmp : Comparator) where
  -- The constructor of `BlockIterator` from a file.
  unfoldable pub open_at : BlockEntryInfo → BlockIterator
  open_at info =
      let bytes = read info.offset info.size in
      if is_ok bytes.0 then open_block bytes.1 cmp else unopened cmp (replicate info.size 0)

  abbrev pub closed : TableIterator
  closed = record { index_iter = unopened cmp []; block_iter = unopened cmp [] }

  abbrev pub with_footer : Option (Code × Footer) → Option TableIterator
  with_footer none = none
  with_footer (some (status, footer)) =
      if is_ok status
      then some (record { index_iter = open_at footer.index_handle; block_iter = unopened cmp [] })
      else some closed

  -- The constructor; `none` is a failed assertion on the footer.
  unfoldable pub open_table : SstFileMeta → Option TableIterator
  open_table meta =
      let bytes = read (meta.file_size - encoded_length) encoded_length in
      let opened = with_footer (decode_footer bytes.1) in
      if is_ok bytes.0 then opened else some closed

  -- `NextBlock`, whose result no caller looks at; `none` is the assertion of the handle.
  unfoldable pub next_block : TableIterator → Option TableIterator
  next_block it = elim (decode_block_info (Block.value it.index_iter)) [
    | none ↦ none
    | some info ↦ some (record it { block_iter = open_at info })
  ]

  -- The index goes on to its next handle, if it stands at one.
  unfoldable pub advance_index : TableIterator → Option TableIterator
  advance_index it = elim (Block.valid it.index_iter) [
    | false ↦ some it
    | true ↦ elim (Block.next it.index_iter) [
      | none ↦ none
      | some index ↦ some (record it { index_iter = index })
    ]
  ]

  -- The next block is opened, and then the index goes on.
  unfoldable pub load_block : TableIterator → Option TableIterator
  load_block it = elim (next_block it) [ none ↦ none | some it' ↦ advance_index it' ]

  unfoldable pub seek_to_first : TableIterator → Option TableIterator
  seek_to_first it =
      let it' = record it { index_iter = Block.seek_to_first it.index_iter } in
      let loaded = load_block it' in if Block.valid it'.index_iter then loaded else some it'

  -- The seek in the block that the index names.
  abbrev pub seek_block : List ℕ → Option TableIterator → Option TableIterator
  seek_block target none = none
  seek_block target (some it) = elim (Block.seek it.block_iter target) [
    | none ↦ none
    | some block ↦ some (record it { block_iter = block })
  ]

  -- `seek` leaves the index at the block that it opened.
  unfoldable pub seek : TableIterator → List ℕ → Option TableIterator
  seek it target = elim (Block.seek it.index_iter target) [
    | none ↦ none
    | some index ↦
        let it' = record it { index_iter = index; block_iter = Block.reset it.block_iter } in
        let sought = seek_block target (next_block it') in
        if Block.valid index then sought else some it'
  ]

  -- `next`, in a table iterator that is valid.
  unfoldable pub next_loaded : TableIterator → Option TableIterator
  next_loaded it =
      let loaded = load_block (record it { block_iter = Block.reset it.block_iter }) in
      elim (Block.valid it.block_iter) [
        | true ↦ some it
        | false ↦ elim (Block.valid it.index_iter) [ true ↦ loaded | false ↦ some it ]
      ]

  unfoldable pub next : TableIterator → Option TableIterator
  next it = elim (Block.valid it.block_iter) [
    | false ↦ next_loaded it
    | true ↦ elim (Block.next it.block_iter) [
      | none ↦ none
      | some block ↦ next_loaded (record it { block_iter = block })
    ]
  ]

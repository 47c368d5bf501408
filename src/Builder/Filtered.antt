-- ===== src/Builder/Filtered.antt =====
-- A table that is built from entries: no key of them is refused by the filter that it is stored with.
use lsmkv.Base.{
  ℕ, ◌-◌, ◌^◌, ◌<◌, ◌≡◌, refl, sym, ap, ◌∙◌, arith, List, [], ◌∷◌, ◌++◌, true, some, length, drop,
  leb, append_assoc, append-nil, Bool-cases, inl, inr, All,
}
use lsmkv.Keys.{extract_user_key}
use lsmkv.Block.Entries.{Entry}
use lsmkv.Status.{ok, is_ok}
use lsmkv.Format.{Footer, decode_footer, encoded_length}
use lsmkv.BloomFilter.{FilterBlockBuilder, new_filter_block, add_key, flush_filter, key_may_match}
use lsmkv.BloomFilter.Collect.{
  FilterCall, hand_key, flush_keys, keys_of, bytes_of, after_calls, finish_filter_lem,
}
use lsmkv.Builder.{
  WritableFile, TableBuilder, new_builder, bloom_size, add_index_entry, add_entry, add_filter_key,
  add, block_size, flush, flush_filter_block, finish,
}
use lsmkv.Builder.Written.{FileLaws, is_ok-ok, is_not_ok}
use lsmkv.Builder.Layout.{block_at, IsPlaced, flush-failed, flush-IsPlaced}
use lsmkv.Builder.Finished.{filters_step, finish_lem}

after_calls-append :
    (murmur_hash : List ℕ → List ℕ) (xs ys : List FilterCall) (f : FilterBlockBuilder)
    → after_calls murmur_hash (xs ++ ys) f
      ≡ after_calls murmur_hash ys (after_calls murmur_hash xs f)
after_calls-append murmur_hash [] ys f = refl
after_calls-append murmur_hash (hand_key key ∷ xs) ys f =
    after_calls-append murmur_hash xs ys (add_key f key)
after_calls-append murmur_hash (flush_keys ∷ xs) ys f =
    after_calls-append murmur_hash xs ys (flush_filter murmur_hash f)

keys_of-append : (xs ys : List FilterCall) → keys_of (xs ++ ys) ≡ keys_of xs ++ keys_of ys
keys_of-append [] ys = refl
keys_of-append (hand_key key ∷ xs) ys = ap (◌∷◌ key) (keys_of-append xs ys)
keys_of-append (flush_keys ∷ xs) ys = keys_of-append xs ys

abbrev pub user_keys : List Entry → List (List ℕ)
user_keys [] = []
user_keys (e ∷ es) = extract_user_key e.key ∷ user_keys es

module _ {F : Type 0} {io : WritableFile F} (laws : FileLaws F io) (crc32c : List ℕ → ℕ)
    (murmur_hash : List ℕ → List ℕ) where
  -- The footer at the end of a file of that size names a filter in which each of the keys may match.
  abbrev pub Answers : List ℕ → ℕ → List (List ℕ) → Type 0
  Answers bytes size keys =
      (footer : Footer) × (decode_footer (drop (size - encoded_length) bytes) ≡ some (ok, footer))
      × All (λ key. key_may_match murmur_hash key (block_at footer.metaindex_handle bytes) ≡ true)
          keys

  -- Entries that are added one after the other.
  abbrev pub add_entries : TableBuilder F → List Entry → TableBuilder F
  add_entries b [] = b
  add_entries b (e ∷ es) = add_entries (add io crc32c murmur_hash b e.key e.value) es

  -- The builder after a sequence of calls on its filter.
  pub record IsFilled (b : TableBuilder F) (calls : List FilterCall) : Type 0 where
    pub placed : IsPlaced laws b
    pub filter : b.filter_block ≡ some (after_calls murmur_hash calls (new_filter_block bloom_size))

  holding-filter :
      (b : TableBuilder F) (key value : List ℕ)
      → (add_entry (record (add_index_entry b) { last_key = key }) key value).filter_block
        ≡ add_filter_key b.filter_block key
  unfolding add_entry add_index_entry
  holding-filter b key value = elim (Bool-cases b.need_next_index_entry) [
    | inl due ↦ rw due refl
    | inr not_due ↦ rw not_due refl
  ]

  holding-IsPlaced :
      (b : TableBuilder F) (key value : List ℕ)
      → IsPlaced laws b
      → IsPlaced laws (add_entry (record (add_index_entry b) { last_key = key }) key value)
  unfolding add_entry add_index_entry
  holding-IsPlaced b key value at = elim (Bool-cases b.need_next_index_entry) [
    | inl due ↦ rw due at
    | inr not_due ↦ rw not_due at
  ]

  add-failed :
      (b : TableBuilder F) (key value : List ℕ)
      → (add io crc32c murmur_hash b key value).status ≡ ok
      → is_ok b.status ≡ true
  unfolding add
  add-failed b key value e = elim (Bool-cases (is_ok b.status)) [
    | inl good ↦ good
    | inr bad ↦ absurd (is_not_ok b.status bad (rw bad at e))
  ]

  -- An entry hands its user key to the filter, and a full block flushes it.
  add-IsFilled :
      (b : TableBuilder F) (calls : List FilterCall) (key value : List ℕ)
      → IsFilled b calls
      → (add io crc32c murmur_hash b key value).status ≡ ok
      → (more : List FilterCall) × (keys_of more ≡ extract_user_key key ∷ [])
        × IsFilled (add io crc32c murmur_hash b key value) (calls ++ more)
  unfolding add
  add-IsFilled b calls key value filled e =
      let live = add-failed b key value e in
      let held = add_entry (record (add_index_entry b) { last_key = key }) key value in
      let f = after_calls murmur_hash calls (new_filter_block bloom_size) in
      let handed : held.filter_block ≡ some (add_key f (extract_user_key key)) =
        holding-filter b key value ∙ ap (λ o. add_filter_key o key) filled.filter in
      let held_placed : IsPlaced laws held = holding-IsPlaced b key value filled.placed in
      elim (Bool-cases (leb block_size (length held.data_block))) [
        | inl large ↦
            let (placed, kept) =
              flush-IsPlaced laws crc32c murmur_hash held true held_placed
                (rw (live, large) at e) in
            (
              hand_key (extract_user_key key) ∷ flush_keys ∷ [],
              refl,
              rw (live, large)
                  (record {
                    placed = placed;
                    filter =
                        kept
                        ∙ ap (flush_filter_block murmur_hash) handed
                        ∙ ap some (
                            sym (
                              after_calls-append murmur_hash calls _
                                (new_filter_block bloom_size)));
                  }),
            )
        | inr little ↦ (
          hand_key (extract_user_key key) ∷ [],
          refl,
          rw (live, little)
              (record {
                placed = held_placed;
                filter =
                    handed
                    ∙ ap some (
                        sym (after_calls-append murmur_hash calls _ (new_filter_block bloom_size)));
              }),
        )
      ]

  add_entries-failed :
      (b : TableBuilder F) (es : List Entry) → (add_entries b es).status ≡ ok → b.status ≡ ok
  add_entries-failed b [] done = done
  add_entries-failed b (e ∷ es) done = is_ok-ok b.status (
      add-failed b e.key e.value
        (add_entries-failed (add io crc32c murmur_hash b e.key e.value) es done))

  pub add_entries-IsFilled :
      (b : TableBuilder F) (calls : List FilterCall) (es : List Entry)
      → IsFilled b calls
      → (add_entries b es).status ≡ ok
      → (all : List FilterCall) × (keys_of all ≡ keys_of calls ++ user_keys es)
        × IsFilled (add_entries b es) all
  add_entries-IsFilled b calls [] filled done = (calls, sym (append-nil _), filled)
  add_entries-IsFilled b calls (e ∷ es) filled done =
      let next = add io crc32c murmur_hash b e.key e.value in
      let (more, one, further) =
        add-IsFilled b calls e.key e.value filled (add_entries-failed next es done) in
      let (all, keys, last) = add_entries-IsFilled next (calls ++ more) es further done in
      let joined : keys_of (calls ++ more) ++ user_keys es
          ≡ keys_of calls ++ (extract_user_key e.key ∷ user_keys es) =
        ap (λ l. l ++ user_keys es) (keys_of-append calls more ∙ ap (◌++◌ (keys_of calls)) one)
        ∙ append_assoc (keys_of calls) _ (user_keys es) in
      (all, keys ∙ joined, last)

  pub finish-started :
      (b : TableBuilder F) → (finish io crc32c murmur_hash b).status ≡ ok → b.status ≡ ok
  unfolding finish
  finish-started b done =
      let closed : TableBuilder F = record b { closed = true } in
      let (good, step) =
        filters_step laws crc32c murmur_hash (flush io crc32c murmur_hash closed true) done in
      is_ok-ok b.status (flush-failed laws crc32c murmur_hash closed true good)

  -- The same, behind any entries that the filter has.
  pub finish-IsFilled :
      (b : TableBuilder F) (calls : List FilterCall)
      → IsFilled b calls
      → bytes_of (keys_of calls) < 2 ^ 32
      → (finish io crc32c murmur_hash b).status ≡ ok
      → length (laws.contents (finish io crc32c murmur_hash b).file) < 2 ^ 64
      → ((finish io crc32c murmur_hash b).offset
          ≡ length (laws.contents (finish io crc32c murmur_hash b).file))
        × Answers
            (laws.contents (finish io crc32c murmur_hash b).file)
            (finish io crc32c murmur_hash b).offset
            (keys_of calls)
  finish-IsFilled b calls filled few done small =
      let (index, (size, footer, decoded, filter, indexed), entry) =
        finish_lem laws crc32c murmur_hash b _ filled.placed filled.filter done small in
      let matches = finish_filter_lem murmur_hash bloom_size calls (omega arith) few in
      (size, (footer, decoded, rw filter matches))

  -- A builder with a filter, of an empty file, is given entries whose user keys have less than 2³² bytes
  -- in all, and is finished with success in a file of less than 2⁶⁴ bytes, which holds the bytes of every
  -- append that succeeds and keeps them on a flush that succeeds. The last 56 bytes of the file,
  -- by the size that the builder gives, then decode to a footer whose first handle names a filter in
  -- which the user key of every entry may match.
  pub finish-add_entries :
      (file : F) (es : List Entry)
      → laws.contents file ≡ []
      → bytes_of (user_keys es) < 2 ^ 32
      → (finish io crc32c murmur_hash (add_entries (new_builder file true) es)).status ≡ ok
      → length (
          laws.contents
            (finish io crc32c murmur_hash (add_entries (new_builder file true) es)).file)
        < 2 ^ 64
      → (footer : Footer) × (decode_footer (
            drop
              ((finish io crc32c murmur_hash (add_entries (new_builder file true) es)).offset
                - encoded_length)
              (laws.contents
                (finish io crc32c murmur_hash (add_entries (new_builder file true) es)).file))
          ≡ some (ok, footer))
        × All
            (λ key.
              key_may_match murmur_hash key (
                block_at footer.metaindex_handle (
                  laws.contents
                    (finish io crc32c murmur_hash (add_entries (new_builder file true) es)).file))
              ≡ true)
            (user_keys es)
  unfolding new_builder
  finish-add_entries file es empty few done small =
      let b = new_builder file true in
      let built = add_entries b es in
      let start : IsFilled b [] = record { placed = rw empty refl; filter = refl } in
      let good = finish-started built done in
      let (all, keys, filled) = add_entries-IsFilled b [] es start good in
      let (size, answers) = finish-IsFilled built all filled (rw keys few) done small in
      rw keys at answers

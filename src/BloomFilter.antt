-- ===== src/BloomFilter.antt =====
-- utils/bloomfilter.h: the filter over the keys of a table, with one probe for each of the four hashes
-- (`use_double_k` is off), and `FilterBlockBuilder` (src/include/builder.h). The hash function stands
-- in another project's file: it is a parameter, the list of hashes of a key.
pub mod NoFalseNegative
pub mod Collect
mod Tests
use Prim.Native.Nat.{bit_and, bit_or}
use lsmkv.Base.{
  ℕ, ◌+◌, ◌*◌, ◌/◌, ◌%◌, ◌^◌, List, [], ◌∷◌, ◌++◌, map, Bool, true, false, not, ◌&&◌, length, take,
  drop, get_or, set, replicate, ltb, ◌==◌, if◌then◌else◌,
}

-- `array[bitpos / 8] |= 1 << (bitpos % 8)`, of bytes.
unfoldable pub set_bit : List ℕ → ℕ → List ℕ
set_bit array bitpos =
    set array (bitpos / 8) (bit_or (get_or array (bitpos / 8) 0) (2 ^ (bitpos % 8)))

-- `(array[bitpos / 8] & (1 << (bitpos % 8))) != 0`
unfoldable pub has_bit : List ℕ → ℕ → Bool
has_bit array bitpos = not (bit_and (get_or array (bitpos / 8) 0) (2 ^ (bitpos % 8)) == 0)

-- The loop over the hashes of one key.
unfoldable pub add_hashes : ℕ → List ℕ → List ℕ → List ℕ
add_hashes filter_size [] array = array
add_hashes filter_size (h ∷ hash) array =
    add_hashes filter_size hash (set_bit array (h % filter_size))

-- `std::all_of` over the hashes.
unfoldable pub all_bits : ℕ → List ℕ → List ℕ → Bool
all_bits bits [] array = true
all_bits bits (h ∷ hash) array = has_bit array (h % bits) && all_bits bits hash array

module _ (murmur_hash : List ℕ → List ℕ) where
  -- The loop over the keys.
  unfoldable pub add_keys : ℕ → List (List ℕ) → List ℕ → List ℕ
  add_keys filter_size [] array = array
  add_keys filter_size (key ∷ keys) array =
      add_keys filter_size keys (add_hashes filter_size (murmur_hash key) array)

  -- `CreateFilter` of the keys into the string `dst`.
  unfoldable pub create_filter : List (List ℕ) → List ℕ → List ℕ
  create_filter keys dst = add_keys (length dst * 8) keys dst

  unfoldable pub key_may_match : List ℕ → List ℕ → Bool
  key_may_match key bloom_filter =
      if ltb (length bloom_filter) 2
      then false
      else all_bits (length bloom_filter * 8) (murmur_hash key) bloom_filter

-- `FilterBlockBuilder`: the bytes of the keys, where each stands among them, and the filter.
pub record FilterBlockBuilder : Type 0 where
  pub key_buf : List ℕ
  pub keys : List (ℕ × ℕ)
  pub buffer : List ℕ

unfoldable pub new_filter_block : ℕ → FilterBlockBuilder
new_filter_block size = record { key_buf = []; keys = []; buffer = replicate size 0 }

-- The offset and the size of a key are `uint32_t`.
unfoldable pub add_key : FilterBlockBuilder → List ℕ → FilterBlockBuilder
add_key f key = record f {
  key_buf = f.key_buf ++ key;
  keys = f.keys ++ (length f.key_buf % 2 ^ 32, length key % 2 ^ 32) ∷ [];
}

abbrev pub slice_of : List ℕ → ℕ × ℕ → List ℕ
slice_of key_buf (offset, size) = take size (drop offset key_buf)

unfoldable pub flush_filter : (List ℕ → List ℕ) → FilterBlockBuilder → FilterBlockBuilder
flush_filter murmur_hash f = elim f.keys [
  | [] ↦ f
  | first ∷ rest ↦ record {
    key_buf = [];
    keys = [];
    buffer = create_filter murmur_hash (map (slice_of f.key_buf) (first ∷ rest)) f.buffer;
  }
]

-- `Finish` flushes, and gives the filter's bytes beside the builder.
unfoldable pub finish_filter : (List ℕ → List ℕ) → FilterBlockBuilder → FilterBlockBuilder × List ℕ
finish_filter murmur_hash f = let flushed = flush_filter murmur_hash f in (flushed, flushed.buffer)

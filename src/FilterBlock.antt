-- ===== src/FilterBlock.antt =====
-- src/filter_block.rs: the filters of a table's blocks, one for each 2 KiB of block offsets, behind
-- them their offsets, and the reader of such a block.
pub mod Builder
pub mod Reader
pub mod Matches
mod Tests
use leveldb_rs.Base.{
  ℕ, zero, suc, ◌+◌, ◌-◌, ◌*◌, ◌/◌, ◌%◌, ◌^◌, Bool, true, false, not, Option, none, some, List, [],
  ◌∷◌, ◌++◌, length, get_or, leb, ltb, ◌==◌, if◌then◌else◌, slice, checked_sub, assert, ◌>>=◌, ◌>>◌,
}
use leveldb_rs.Coding.{Bytes, IntegerEncoding, encode_fixed, decode_fixed}
use leveldb_rs.Filter.{FilterPolicy}

abbrev pub filter_base_log2 : ℕ
filter_base_log2 = 11

-- A shift of 64 bits or more panics.
unfoldable pub get_filter_index : ℕ → ℕ → Option ℕ
get_filter_index offset base_lg2 = do
  assert (ltb base_lg2 64)
  some (offset / 2 ^ base_lg2 % 2 ^ 32)

pub record FilterBlockBuilder : Type 0 where
  pub filters : Bytes
  pub filter_offsets : List ℕ
  pub key_offsets : List ℕ
  pub keys : Bytes

unfoldable pub new : FilterBlockBuilder
new = record { filters = []; filter_offsets = []; key_offsets = []; keys = [] }

unfoldable pub size_estimate : FilterBlockBuilder → ℕ
size_estimate b = length b.filters + 4 * length b.filter_offsets + 4 + 1

unfoldable pub add_key : FilterBlockBuilder → Bytes → FilterBlockBuilder
add_key b key = record b { key_offsets = b.key_offsets ++ length b.keys ∷ []; keys = b.keys ++ key }

module _ ⦃ie : IntegerEncoding⦄ where
  -- The offsets as u32 in 4 bytes each.
  unfoldable pub encode_offsets : List ℕ → Bytes
  encode_offsets [] = []
  encode_offsets (o ∷ os) = encode_fixed 4 (o % 2 ^ 32) ++ encode_offsets os

  -- What `finish` puts behind the filters.
  unfoldable pub offsets_array : List ℕ → ℕ → Bytes
  offsets_array filter_offsets offsets_offset =
      encode_offsets filter_offsets
      ++ (encode_fixed 4 (offsets_offset % 2 ^ 32) ++ filter_base_log2 ∷ [])

module _ (policy : FilterPolicy) where
  unfoldable pub generate_filter : FilterBlockBuilder → Option FilterBlockBuilder
  generate_filter b = elim (length b.keys == 0) [
    | true ↦ some (record b { filter_offsets = b.filter_offsets ++ length b.filters ∷ [] })
    | false ↦ do
      filter ← policy.create_filter b.keys b.key_offsets
      some (record {
        filters = b.filters ++ filter;
        filter_offsets = b.filter_offsets ++ length b.filters ∷ [];
        key_offsets = [];
        keys = [];
      })
  ]

  -- Every round adds an offset, so `filter_ix` rounds are enough.
  unfoldable pub generate_until : ℕ → ℕ → FilterBlockBuilder → Option FilterBlockBuilder
  generate_until zero filter_ix b = some b
  generate_until (suc fuel) filter_ix b = elim (ltb (length b.filter_offsets % 2 ^ 32) filter_ix) [
    | false ↦ some b
    | true ↦ generate_filter b >>= generate_until fuel filter_ix
  ]

  unfoldable pub start_block : FilterBlockBuilder → ℕ → Option FilterBlockBuilder
  start_block b offset = do
    filter_ix ← get_filter_index offset filter_base_log2
    assert (leb (length b.filter_offsets % 2 ^ 32) filter_ix)
    generate_until filter_ix filter_ix b

  module _ ⦃ie : IntegerEncoding⦄ where
    unfoldable pub finish : FilterBlockBuilder → Option Bytes
    finish b0 = do
      b ← elim (length b0.keys == 0) [ true ↦ some b0 | false ↦ generate_filter b0 ]
      some (b.filters ++ offsets_array b.filter_offsets (length b.filters))

pub record FilterBlockReader : Type 0 where
  pub block : Bytes
  pub offsets_offset : ℕ
  pub filter_base_lg2 : ℕ

module _ ⦃ie : IntegerEncoding⦄ where
  unfoldable pub new_reader : Bytes → Option FilterBlockReader
  new_reader block = do
    assert (leb 5 (length block))
    let fbase = get_or block (length block - 1) 0
    offset ← slice block (length block - 5) (length block - 1)
    some (record { block = block; offsets_offset = decode_fixed offset; filter_base_lg2 = fbase })

  unfoldable pub num : FilterBlockReader → Option ℕ
  num r = do
    n ← checked_sub (length r.block) r.offsets_offset
    m ← checked_sub n 5
    some (m / 4 % 2 ^ 32)

  unfoldable pub offset_of : FilterBlockReader → ℕ → Option ℕ
  offset_of r i = do
    let offset_offset = r.offsets_offset + 4 * i
    bytes ← slice r.block offset_offset (offset_offset + 4)
    some (decode_fixed bytes)

  unfoldable pub key_may_match : FilterPolicy → FilterBlockReader → ℕ → Bytes → Option Bool
  key_may_match policy r blk_offset key = do
    ix ← get_filter_index blk_offset r.filter_base_lg2
    n ← num r
    elim (ltb n ix) [
      | true ↦ some true
      | false ↦ do
        filter_begin ← offset_of r ix
        assert (ltb (ix + 1) (2 ^ 32))
        filter_end ← offset_of r (ix + 1)
        assert (ltb filter_begin filter_end)
        assert (leb filter_end r.offsets_offset)
        filter ← slice r.block filter_begin filter_end
        policy.key_may_match key filter
    ]

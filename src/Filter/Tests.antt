-- ===== src/Filter/Tests.antt =====
-- A Bloom filter over two keys, and the theorem at two internal keys.
use leveldb_rs.Base.{All, arith, length, ◌<◌, ◌≤◌, ◌*◌}
use leveldb_rs.Filter.Matches.{create_filter-matches}
use leveldb_rs.Base.{◌≡◌, refl, true, Option, some, [], ◌∷◌, ◌++◌, slice, ◌>>=◌, Bool}
use leveldb_rs.Coding.{Bytes}
use leveldb_rs.Coding.Leb128.{leb128, from_little_endian}
use leveldb_rs.Filter.{
  bloom_policy, new_unwrapped, offset_data_iterate, concat, offsets_from, create_internal_filter,
  internal_key_may_match, create_filter, key_may_match, add_keys, set_probes, test_probes, set_bit,
  test_bit, rotate, hash_words, hash_rest, bloom_hash,
}
use leveldb_rs.Filter.Pieces.{internal_filter-user_keys, internal_keys, first_parts}

abbrev matches_itself : Option Bool
matches_itself = do
  filter ← create_filter (new_unwrapped 10 6) (97 ∷ 98 ∷ 99 ∷ 100 ∷ 101 ∷ []) (0 ∷ 3 ∷ [])
  key_may_match (100 ∷ 101 ∷ []) filter

matches_itself-eq : matches_itself ≡ some true
unfolding from_little_endian slice offset_data_iterate new_unwrapped create_filter key_may_match
    add_keys set_probes test_probes set_bit test_bit rotate hash_words hash_rest bloom_hash
matches_itself-eq = refl

abbrev tag : Bytes
tag = 1 ∷ 0 ∷ 0 ∷ 0 ∷ 0 ∷ 0 ∷ 0 ∷ 0 ∷ []

internal_filter-user_keys_example :
    (create_internal_filter
        (bloom_policy (new_unwrapped 10 6))
        (concat (internal_keys ((7 ∷ [], tag) ∷ (8 ∷ 9 ∷ [], tag) ∷ [])))
        (offsets_from 0 (internal_keys ((7 ∷ [], tag) ∷ (8 ∷ 9 ∷ [], tag) ∷ [])))
      ≡ (bloom_policy (new_unwrapped 10 6)).create_filter
          (concat (first_parts ((7 ∷ [], tag) ∷ (8 ∷ 9 ∷ [], tag) ∷ [])))
          (offsets_from 0 (first_parts ((7 ∷ [], tag) ∷ (8 ∷ 9 ∷ [], tag) ∷ []))))
    × (internal_key_may_match (bloom_policy (new_unwrapped 10 6)) ((8 ∷ 9 ∷ []) ++ tag) []
        ≡ (bloom_policy (new_unwrapped 10 6)).key_may_match (8 ∷ 9 ∷ []) [])
internal_filter-user_keys_example =
    internal_filter-user_keys (bloom_policy (new_unwrapped 10 6))
      ((7 ∷ [], tag) ∷ (8 ∷ 9 ∷ [], tag) ∷ []) (8 ∷ 9 ∷ []) tag [] (refl, (refl, tt)) refl

create_filter-matches_example :
    (filter : Bytes) × (create_filter
        (record { bits_per_key = 10; k = 6 })
        (concat ((97 ∷ []) ∷ (98 ∷ 99 ∷ []) ∷ []))
        (offsets_from 0 ((97 ∷ []) ∷ (98 ∷ 99 ∷ []) ∷ []))
      ≡ some filter)
    × All (λ key. key_may_match key filter ≡ some true) ((97 ∷ []) ∷ (98 ∷ 99 ∷ []) ∷ [])
    × (0 < length filter)
    × (length filter * 8 ≤ 99)
create_filter-matches_example =
    create_filter-matches (record { bits_per_key = 10; k = 6 }) ((97 ∷ []) ∷ (98 ∷ 99 ∷ []) ∷ [])
      (omega arith) (omega arith)

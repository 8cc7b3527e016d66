-- ===== src/FilterBlock/Tests.antt =====
-- The theorems at a builder with one key.
use leveldb_rs.Base.{inr, ◌≡◌, refl, arith, true, none, some, [], ◌∷◌, All, ◌>>=◌}
use leveldb_rs.Coding.Leb128.{leb128}
use leveldb_rs.Filter.{FilterPolicy, BloomPolicy, bloom_policy}
use leveldb_rs.FilterBlock.{
  FilterBlockBuilder, FilterBlockReader, new, add_key, generate_filter, finish, new_reader,
  key_may_match, get_filter_index,
}
use leveldb_rs.FilterBlock.Builder.{IsBuilt, new-IsBuilt, add_key-IsBuilt, generate_filter-IsBuilt}
use leveldb_rs.FilterBlock.Matches.{key_may_match-finish, key_may_match_panics, key_may_match-added}

-- A policy whose filters are one byte.
abbrev byte_policy : FilterPolicy
byte_policy = record {
  create_filter = λ keys offsets. some (1 ∷ []);
  key_may_match = λ key filter. some true;
}

one_key : IsBuilt (add_key new (5 ∷ [])) [] ((5 ∷ []) ∷ [])
one_key = add_key-IsBuilt new [] [] (5 ∷ []) new-IsBuilt

abbrev one_filter :
    (b : FilterBlockBuilder) × (generate_filter byte_policy (add_key new (5 ∷ [])) ≡ some b)
    × IsBuilt b ((1 ∷ []) ∷ []) []
one_filter =
    generate_filter-IsBuilt byte_policy (add_key new (5 ∷ [])) [] ((5 ∷ []) ∷ []) one_key (1 ∷ [])
      (omega arith) refl

one_block : get_filter_index 100 11 ≡ some 0
unfolding get_filter_index
one_block = refl

two_blocks : get_filter_index 2048 11 ≡ some 1
unfolding get_filter_index
two_blocks = refl

key_may_match-finish_example :
    (r : FilterBlockReader) × ((finish byte_policy one_filter.0 >>= new_reader) ≡ some r)
    × (key_may_match byte_policy r 100 (5 ∷ []) ≡ some true)
key_may_match-finish_example =
    key_may_match-finish byte_policy one_filter.0 [] [] (1 ∷ []) 100 (5 ∷ []) one_filter.2
      (omega arith) (omega arith) one_block (omega arith)

key_may_match_panics_example :
    (r : FilterBlockReader) × ((finish byte_policy one_filter.0 >>= new_reader) ≡ some r)
    × (key_may_match byte_policy r 2048 (5 ∷ []) ≡ none)
key_may_match_panics_example =
    key_may_match_panics byte_policy one_filter.0 ((1 ∷ []) ∷ []) 2048 (5 ∷ []) one_filter.2
      (omega arith) (omega arith) (inr two_blocks)

abbrev few_bits : BloomPolicy
few_bits = record { bits_per_key = 10; k = 6 }

key_may_match-added_example :
    (r : FilterBlockReader) × ((finish (bloom_policy few_bits) (add_key new (5 ∷ []))
        >>= new_reader)
      ≡ some r)
    × All (λ key. key_may_match (bloom_policy few_bits) r 100 key ≡ some true) ((5 ∷ []) ∷ [])
key_may_match-added_example =
    key_may_match-added few_bits (add_key new (5 ∷ [])) [] ((5 ∷ []) ∷ []) 100 one_key (omega arith)
      (omega arith) (omega arith) (omega arith) (omega arith) one_block

-- ===== src/Filter.antt =====
-- src/filter.rs: filter policies, the Bloom filter and the policy over internal keys.
pub mod Pieces
pub mod Bloom
pub mod Matches
mod Tests
use leveldb_rs.Base.{
  ℕ, zero, suc, ◌+◌, ◌-◌, ◌*◌, ◌/◌, ◌%◌, ◌^◌, Bool, true, false, Option, none, some, List, [], ◌∷◌,
  ◌++◌, length, replicate, get_or, set, take, leb, ltb, ◌==◌, if◌then◌else◌, slice, checked_sub,
  assert, ◌>>=◌, ◌>>◌,
}
use leveldb_rs.Coding.{Bytes, IntegerEncoding, decode_fixed}
use Prim.Native.Nat.{bit_and, bit_or, bit_xor}

-- The trait, without its name. A filter is created from keys that lie one behind the other.
pub record FilterPolicy : Type 0 where
  pub create_filter : Bytes → List ℕ → Option Bytes
  pub key_may_match : Bytes → Bytes → Option Bool

-- The pieces that the callback of `offset_data_iterate` gets, in order.
unfoldable pub offset_data_iterate : Bytes → List ℕ → Option (List Bytes)
offset_data_iterate bytes [] = some []
offset_data_iterate bytes (o ∷ []) = do piece ← slice bytes o (length bytes); some (piece ∷ [])
offset_data_iterate bytes (o ∷ o' ∷ os) = do
  piece ← slice bytes o o'
  rest ← offset_data_iterate bytes (o' ∷ os)
  some (piece ∷ rest)

pub no_filter_policy : FilterPolicy
no_filter_policy = record {
  create_filter = λ keys offs. some [];
  key_may_match = λ key filter. some true;
}

abbrev pub bloom_seed : ℕ
bloom_seed = 0xbc9f1d34

pub record BloomPolicy : Type 0 where
  pub bits_per_key : ℕ
  pub k : ℕ

-- The last lines of `new_unwrapped`, from `k`, the product with 0.69 in floating point.
unfoldable pub new_unwrapped : ℕ → ℕ → BloomPolicy
new_unwrapped bits_per_key k = record {
  bits_per_key = bits_per_key;
  k = if ltb k 1 then 1 else if ltb 30 k then 30 else k;
}

abbrev pub hash_m : ℕ
hash_m = 0xc6a4a793

-- The left-over bytes are added at shifts of 0, 8 and 16.
unfoldable pub hash_rest : ℕ → ℕ → Bytes → ℕ
hash_rest h i [] = h
hash_rest h i (b ∷ bs) = hash_rest ((h + b * 2 ^ (8 * i)) % 2 ^ 32) (i + 1) bs

-- `(h >> 17) | (h << 15)`.
unfoldable pub rotate : ℕ → ℕ
rotate h = bit_or (h / 2 ^ 17) (h * 2 ^ 15 % 2 ^ 32)

-- `filter[bitpos / 8] |= 1 << (bitpos % 8)`, with the panic out of range.
unfoldable pub set_bit : Bytes → ℕ → Option Bytes
set_bit filter bitpos =
    if ltb (bitpos / 8) (length filter)
    then some (set filter (bitpos / 8) (bit_or (get_or filter (bitpos / 8) 0) (2 ^ (bitpos % 8))))
    else none

-- `(filter_adj[bitpos / 8] & (1 << (bitpos % 8))) == 0` is answered by false.
unfoldable pub test_bit : Bytes → ℕ → Option Bool
test_bit filter bitpos =
    if ltb (bitpos / 8) (length filter)
    then some
        (if bit_and (get_or filter (bitpos / 8) 0) (2 ^ (bitpos % 8)) == 0 then false else true)
    else none

-- The loops over the `k` probes: `h % bits` panics for no bits.
unfoldable pub set_probes : ℕ → ℕ → ℕ → ℕ → Bytes → Option Bytes
set_probes zero bits delta h filter = some filter
set_probes (suc n) bits delta h filter = do
  assert (ltb 0 bits)
  filter' ← set_bit filter (h % bits)
  set_probes n bits delta ((h + delta) % 2 ^ 32) filter'

unfoldable pub test_probes : ℕ → ℕ → ℕ → ℕ → Bytes → Option Bool
test_probes zero bits delta h filter = some true
test_probes (suc n) bits delta h filter = do
  assert (ltb 0 bits)
  hit ← test_bit filter (h % bits)
  elim hit [ false ↦ some false | true ↦ test_probes n bits delta ((h + delta) % 2 ^ 32) filter ]

module _ ⦃ie : IntegerEncoding⦄ where
  -- The words of 4 bytes, then the rest.
  unfoldable pub hash_words : ℕ → Bytes → ℕ
  hash_words h (a ∷ b ∷ c ∷ d ∷ rest) =
      let w = decode_fixed (a ∷ b ∷ c ∷ d ∷ []) in
      let h1 = (h + w) % 2 ^ 32 in
      let h2 = h1 * hash_m % 2 ^ 32 in hash_words (bit_xor h2 (h2 / 2 ^ 16)) rest
  hash_words h [] = h
  hash_words h rest =
      let h1 = hash_rest h 0 rest in let h2 = h1 * hash_m % 2 ^ 32 in bit_xor h2 (h2 / 2 ^ 24)

  -- The product `limit * m` has 64 bits, enough for a key of 4 GB.
  unfoldable pub bloom_hash : Bytes → ℕ
  bloom_hash key = hash_words (bit_xor bloom_seed (length key * hash_m % 2 ^ 64 % 2 ^ 32)) key

  -- The closure of `create_filter`, over all keys.
  unfoldable pub add_keys : ℕ → ℕ → List Bytes → Bytes → Option Bytes
  add_keys k bits [] filter = some filter
  add_keys k bits (key ∷ keys) filter = do
    filter' ← set_probes k bits (rotate (bloom_hash key)) (bloom_hash key) filter
    add_keys k bits keys filter'

  abbrev pub filter_bytes : ℕ → ℕ
  filter_bytes filter_bits = if ltb filter_bits 64 then 8 else (filter_bits + 7) / 8

  unfoldable pub create_filter : BloomPolicy → Bytes → List ℕ → Option Bytes
  create_filter p keys key_offsets = do
    assert (ltb (length key_offsets * p.bits_per_key + 7) (2 ^ 64))
    let n = filter_bytes (length key_offsets * p.bits_per_key)
    pieces ← offset_data_iterate keys key_offsets
    add_keys p.k (n * 8 % 2 ^ 32) pieces (replicate n 0 ++ (p.k % 256 ∷ []))

  unfoldable pub key_may_match : Bytes → Bytes → Option Bool
  key_may_match key [] = some true
  key_may_match key (f ∷ fs) = do
    let filter = f ∷ fs
    let n = length fs
    let k = get_or filter n 0
    assert (ltb (n % 2 ^ 32 * 8) (2 ^ 32))
    elim (ltb 30 k) [
      | true ↦ some true
      | false ↦
          test_probes k (n % 2 ^ 32 * 8) (rotate (bloom_hash key)) (bloom_hash key) (take n filter)
    ]

  abbrev pub bloom_policy : BloomPolicy → FilterPolicy
  bloom_policy p = record { create_filter = create_filter p; key_may_match = key_may_match }

-- The keys without their last 8 bytes, and where each of them begins.
unfoldable pub user_keys : List Bytes → Option (List Bytes)
user_keys [] = some []
user_keys (key ∷ keys) = do
  n ← checked_sub (length key) 8
  rest ← user_keys keys
  some (take n key ∷ rest)

abbrev pub concat : List Bytes → Bytes
concat [] = []
concat (key ∷ keys) = key ++ concat keys

unfoldable pub offsets_from : ℕ → List Bytes → List ℕ
offsets_from n [] = []
offsets_from n (key ∷ keys) = n ∷ offsets_from (n + length key) keys

-- The capacity of `mod_keys` is computed first, with its underflow.
unfoldable pub create_internal_filter : FilterPolicy → Bytes → List ℕ → Option Bytes
create_internal_filter internal keys key_offsets = do
  capacity ← checked_sub (length keys) (length key_offsets * 8)
  pieces ← offset_data_iterate keys key_offsets
  mod_keys ← user_keys pieces
  internal.create_filter (concat mod_keys) (offsets_from 0 mod_keys)

unfoldable pub internal_key_may_match : FilterPolicy → Bytes → Bytes → Option Bool
internal_key_may_match internal key filter = do
  n ← checked_sub (length key) 8
  internal.key_may_match (take n key) filter

abbrev pub internal_filter_policy : FilterPolicy → FilterPolicy
internal_filter_policy internal = record {
  create_filter = create_internal_filter internal;
  key_may_match = internal_key_may_match internal;
}

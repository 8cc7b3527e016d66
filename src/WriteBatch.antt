-- ===== src/WriteBatch.antt =====
-- src/write_batch.rs: a batch of writes as one byte string: a sequence number of 8 bytes, a count
-- of 4, and the entries [tag: 1, keylen: varint, key, vallen: varint, value].
pub mod Contents
pub mod Iteration
pub mod RoundTrip
pub mod Tests
use leveldb_rs.Base.{
  ℕ, zero, suc, ◌+◌, ◌^◌, Bool, true, false, Option, none, some, List, [], ◌∷◌, ◌++◌, length,
  replicate, get_or, take, drop, leb, ltb, ◌==◌, if◌then◌else◌, slice, slice_from, assert, ◌>>=◌,
  ◌>>◌,
}
use leveldb_rs.Coding.{Bytes, IntegerEncoding, encode_var, decode_var, encode_fixed, decode_fixed}
use leveldb_rs.KeyTypes.{ValueType, type_value, type_deletion, discriminant}

abbrev pub seqnum_offset : ℕ
seqnum_offset = 0

abbrev pub count_offset : ℕ
count_offset = 8

abbrev pub header_size : ℕ
header_size = 12

pub record WriteBatch : Type 0 where
  pub entries : Bytes

pub new : WriteBatch
new = record { entries = replicate header_size 0 }

-- `dst[lo..lo + n]` is overwritten by the `n` bytes of `src`, or the slice panics.
abbrev pub overwrite : Bytes → ℕ → Bytes → Option Bytes
overwrite dst lo src =
    if leb (lo + length src) (length dst)
    then some (take lo dst ++ (src ++ drop (lo + length src) dst))
    else none

pub set_contents : WriteBatch → Bytes → WriteBatch
set_contents b from = record { entries = from }

pub clear : WriteBatch → WriteBatch
clear b = record { entries = [] }

pub byte_size : WriteBatch → ℕ
byte_size b = length b.entries

-- What the iterator answers: an item with the index behind it, its end, or a panic.
pub data Step : Type 0 where
  item : Bytes → Option Bytes → ℕ → Step
  finished : Step
  panicked : Step

-- What a `for` loop over the iterator sees. `stuck` says that the fuel of the model ran out.
pub data Items : Type 0 where
  done : List (Bytes × Option Bytes) → Items
  failed : Items
  stuck : Items

abbrev pub add_item : Bytes → Option Bytes → Items → Items
add_item k v (done l) = done ((k, v) ∷ l)
add_item k v failed = failed
add_item k v stuck = stuck

module _ ⦃ie : IntegerEncoding⦄ where
  pub set_count : WriteBatch → ℕ → Option WriteBatch
  set_count b c = do
    entries ← overwrite b.entries count_offset (encode_fixed 4 c)
    some (record { entries = entries })

  pub count : WriteBatch → Option ℕ
  count b = do bytes ← slice b.entries count_offset (count_offset + 4); some (decode_fixed bytes)

  pub set_sequence : WriteBatch → ℕ → Option WriteBatch
  set_sequence b s = do
    entries ← overwrite b.entries seqnum_offset (encode_fixed 8 s)
    some (record { entries = entries })

  pub sequence : WriteBatch → Option ℕ
  sequence b = do
    bytes ← slice b.entries seqnum_offset (seqnum_offset + 8)
    some (decode_fixed bytes)

  -- `let c = self.count(); self.set_count(c + 1)`, in 32 bits.
  increment : WriteBatch → Option WriteBatch
  unfolding count set_count
  increment b = do c ← count b; assert (ltb (c + 1) (2 ^ 32)); set_count b (c + 1)

  pub put : WriteBatch → Bytes → Bytes → Option WriteBatch
  unfolding increment
  put b k v = increment (record {
    entries =
        b.entries
        ++ (discriminant type_value ∷ encode_var (length k) ++ (k ++ (encode_var (length v) ++ v)));
  })

  pub delete : WriteBatch → Bytes → Option WriteBatch
  unfolding increment
  delete b k =
      increment (record {
        entries = b.entries ++ (discriminant type_deletion ∷ encode_var (length k) ++ k);
      })

  -- A slice that does not fit panics; a length that does not decode ends the iteration.
  next_value : Bytes → Bytes → ℕ → Step
  next_value entries k ix = elim (slice_from entries ix) [
    | none ↦ panicked
    | some rest ↦ elim (decode_var rest) [
      | none ↦ finished
      | some (vlen, m) ↦ elim (slice entries (ix + m) (ix + m + vlen)) [
        | none ↦ panicked
        | some v ↦ item k (some v) (ix + m + vlen)
      ]
    ]
  ]

  -- The entry behind its tag.
  next_entry : Bytes → ℕ → ℕ → Step
  unfolding next_value
  next_entry entries tag ix = elim (slice_from entries ix) [
    | none ↦ panicked
    | some rest ↦ elim (decode_var rest) [
      | none ↦ finished
      | some (klen, l) ↦ elim (slice entries (ix + l) (ix + l + klen)) [
        | none ↦ panicked
        | some k ↦
            if tag == discriminant type_value
            then next_value entries k (ix + l + klen)
            else item k none (ix + l + klen)
      ]
    ]
  ]

  pub next : Bytes → ℕ → Step
  unfolding next_entry
  next entries ix =
      if leb (length entries) ix
      then finished
      else next_entry entries (get_or entries ix 0) (ix + 1)

  pub iterate : ℕ → Bytes → ℕ → Items
  iterate zero entries ix = stuck
  iterate (suc fuel) entries ix = elim (next entries ix) [
    | item k v ix' ↦ add_item k v (iterate fuel entries ix')
    | finished ↦ done []
    | panicked ↦ failed
  ]

  -- Every step takes a byte at least, so the fuel is enough.
  pub iter : WriteBatch → Items
  unfolding iterate
  iter b = iterate (suc (length b.entries)) b.entries header_size

  pub encode : WriteBatch → ℕ → Option Bytes
  unfolding set_sequence
  encode b seq = do b' ← set_sequence b seq; some b'.entries

  -- Over any memtable, as a state `M` and its method `add(seq, type, key, value)`. `seq += 1` is in
  -- 64 bits.
  module _ {M : Type 0} (add : M → ℕ → ValueType → Bytes → Bytes → Option M) where
    pub insert_all : List (Bytes × Option Bytes) → ℕ → M → Option M
    insert_all [] seq mt = some mt
    insert_all ((k, some v) ∷ l) seq mt = do
      mt' ← add mt seq type_value k v
      assert (ltb (seq + 1) (2 ^ 64))
      insert_all l (seq + 1) mt'
    insert_all ((k, none) ∷ l) seq mt = do
      mt' ← add mt seq type_deletion k []
      assert (ltb (seq + 1) (2 ^ 64))
      insert_all l (seq + 1) mt'

    -- The source inserts each item as soon as it is read.
    pub insert_into_memtable : WriteBatch → ℕ → M → Option M
    unfolding iter insert_all
    insert_into_memtable b seq mt = elim (iter b) [
      | done l ↦ insert_all l seq mt
      | failed ↦ none
      | stuck ↦ none
    ]

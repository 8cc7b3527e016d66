-- ===== src/KeyTypes.antt =====
-- src/key_types.rs: the formats of a key. A user key is any byte string; an internal key is a user
-- key and a tag of 8 bytes, (sequence number << 8) | value type; a memtable key is the length of
-- the internal key as a varint, the internal key, and, in the table, the value with its length.
pub mod Tag
pub mod Formats
pub mod Comparison
pub mod Tests
use leveldb_rs.Base.{
  ℕ, zero, suc, ◌+◌, ◌-◌, ◌*◌, ◌/◌, ◌%◌, ◌^◌, Bool, true, false, Option, none, some, List, [], ◌∷◌,
  ◌++◌, length, take, leb, ltb, ◌==◌, if◌then◌else◌, compare, Ordering, assert, ◌>>=◌, ◌>>◌,
  checked_sub, slice, slice_from, fill, position,
}
use leveldb_rs.Coding.{
  Bytes, IntegerEncoding, encode_var, required_space, decode_var, encode_fixed, decode_fixed,
}
use leveldb_rs.Cmp.{Cmp}
use Prim.Native.Nat.{bit_and, bit_or}

pub data ValueType : Type 0 where
  type_deletion type_value : ValueType

-- `t as u8`, `t as u64`.
abbrev pub discriminant : ValueType → ℕ
discriminant type_deletion = 0
discriminant type_value = 1

-- `1 << 56) - 1`.
abbrev pub max_sequence_number : ℕ
max_sequence_number = 2 ^ 56 - 1

abbrev pub u64_space : ℕ
u64_space = 8

-- `s << 8 | t as u64` in 64 bits.
unfoldable pub make_tag : ℕ → ValueType → ℕ
make_tag s t = bit_or (s * 256 % 2 ^ 64) (discriminant t)

unfoldable pub parse_tag : ℕ → ValueType × ℕ
parse_tag tag =
    let seq = tag / 256 in
    let typ = bit_and tag 0xff in
    if typ == 0
    then (type_deletion, seq)
    else if typ == 1
    then (type_value, seq)
    else (type_value, seq)

pub record LookupKey : Type 0 where
  pub key : Bytes
  pub key_offset : ℕ

-- The parts of `parse_memtable_key`'s answer.
pub record MemtableParts : Type 0 where
  pub keylen : ℕ
  pub keyoff : ℕ
  pub tag : ℕ
  pub vallen : ℕ
  pub valoff : ℕ

module _ ⦃ie : IntegerEncoding⦄ where
  unfoldable pub new_full : Bytes → ℕ → ValueType → Option LookupKey
  new_full k s t = do
    let internal_keylen = length k + u64_space
    key ←
        fill (length k + required_space internal_keylen + u64_space)
          (encode_var internal_keylen ++ (k ++ encode_fixed 8 (make_tag s t)))
    some (record { key = key; key_offset = required_space internal_keylen })

  unfoldable pub new : Bytes → ℕ → Option LookupKey
  unfolding new_full
  new k s = new_full k s type_value

  unfoldable pub memtable_key : LookupKey → Bytes
  memtable_key l = l.key

  unfoldable pub user_key : LookupKey → Option Bytes
  user_key l = do end ← checked_sub (length l.key) 8; slice l.key l.key_offset end

  unfoldable pub internal_key : LookupKey → Option Bytes
  internal_key l = slice_from l.key l.key_offset

  -- `assert_eq!(writer.len(), 0)` at the end says that the buffer is filled up.
  unfoldable pub build_memtable_key : Bytes → Bytes → ValueType → ℕ → Option Bytes
  build_memtable_key key value t seq = do
    let keysize = length key + u64_space
    let valsize = length value
    let size = keysize + valsize + required_space keysize + required_space valsize
    let written =
        encode_var keysize
        ++ (key ++ (encode_fixed 8 (make_tag seq t) ++ (encode_var valsize ++ value)))
    buf ← fill size written
    assert (size - length written == 0)
    some buf

  unfoldable pub parse_memtable_key : Bytes → Option MemtableParts
  parse_memtable_key mkey = do
    (keylen, keyoff) ← decode_var mkey
    userlen ← checked_sub keylen 8
    i ← position mkey (keyoff + userlen)
    elim (ltb i (length mkey)) [
      | true ↦ do
        tag ← slice mkey i (i + 8)
        rest ← slice_from mkey (i + 8)
        (vallen, j) ← decode_var rest
        some (record {
          keylen = userlen;
          keyoff = keyoff;
          tag = decode_fixed tag;
          vallen = vallen;
          valoff = i + 8 + j;
        })
      | false ↦ some (record { keylen = userlen; keyoff = keyoff; tag = 0; vallen = 0; valoff = 0 })
    ]

  -- The answer on equal user keys: the larger sequence number comes first.
  abbrev by_sequence : ℕ → ℕ → Ordering
  by_sequence atag btag = compare (parse_tag btag).1 (parse_tag atag).1

  unfoldable pub cmp_memtable_key : Cmp → Bytes → Bytes → Option Ordering
  unfolding parse_tag
  cmp_memtable_key ucmp a b = do
    (alen, aoff) ← decode_var a
    (blen, boff) ← decode_var b
    aend ← checked_sub (aoff + alen) 8
    userkey_a ← slice a aoff aend
    bend ← checked_sub (boff + blen) 8
    userkey_b ← slice b boff bend
    o ← ucmp.cmp userkey_a userkey_b
    elim o [
      | Ordering.lt ↦ some Ordering.lt
      | Ordering.gt ↦ some Ordering.gt
      | Ordering.eq ↦ do
        atag ← slice a aend (aoff + alen)
        btag ← slice b bend (boff + blen)
        some (by_sequence (decode_fixed atag) (decode_fixed btag))
    ]

  unfoldable pub parse_internal_key : Bytes → Option (ValueType × ℕ × Bytes)
  unfolding parse_tag
  parse_internal_key [] = some (type_deletion, 0, [])
  parse_internal_key (x ∷ xs) = do
    let ikey = x ∷ xs
    assert (leb 8 (length ikey))
    tag ← slice_from ikey (length ikey - 8)
    key ← slice ikey 0 (length ikey - 8)
    let (typ, seq) = parse_tag (decode_fixed tag)
    some (typ, seq, key)

  unfoldable pub cmp_internal_key : Cmp → Bytes → Bytes → Option Ordering
  unfolding parse_tag
  cmp_internal_key ucmp a b = do
    aend ← checked_sub (length a) 8
    userkey_a ← slice a 0 aend
    bend ← checked_sub (length b) 8
    userkey_b ← slice b 0 bend
    o ← ucmp.cmp userkey_a userkey_b
    elim o [
      | Ordering.lt ↦ some Ordering.lt
      | Ordering.gt ↦ some Ordering.gt
      | Ordering.eq ↦ do
        atag ← slice_from a aend
        btag ← slice_from b bend
        some (by_sequence (decode_fixed atag) (decode_fixed btag))
    ]

unfoldable pub truncate_to_userkey : Bytes → Option Bytes
truncate_to_userkey ikey = do assert (leb 8 (length ikey)); some (take (length ikey - 8) ikey)

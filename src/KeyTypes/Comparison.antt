-- ===== src/KeyTypes/Comparison.antt =====
-- The comparators of internal keys and of memtable keys, against one order on the parts of a key:
-- user keys ascend, and versions of one user key descend by sequence number.
use leveldb_rs.Base.{
  ℕ, ◌+◌, ◌-◌, ◌^◌, ◌<◌, ◌≡◌, refl, arith, some, [], ◌++◌, length, slice_middle, slice_from_append,
  checked_sub, compare, Ordering,
}
use leveldb_rs.Coding.{Bytes, IsU64, IntegerEncoding, encode_var, required_space}
use leveldb_rs.Cmp.{Cmp, and_then}
use leveldb_rs.Cmp.Order.{IsTotal}
use leveldb_rs.KeyTypes.{ValueType, cmp_internal_key, cmp_memtable_key}
use leveldb_rs.KeyTypes.Formats.{
  tag_bytes, internal_bytes, memtable_bytes, length-internal_bytes, decode-tag_bytes, slice-key,
  slice-tag,
}

-- The order on (user key, sequence number).
abbrev pub key_order : {c : Cmp} → IsTotal c → Bytes × ℕ → Bytes × ℕ → Ordering
key_order o a b = and_then (o.order a.0 b.0) (compare b.1 a.1)

module _ ⦃ie : IntegerEncoding⦄ {c : Cmp} (o : IsTotal c) (k k' : Bytes) (s s' : ℕ)
    (t t' : ValueType) (hs : s < 2 ^ 56) (hs' : s' < 2 ^ 56) where
  pub cmp_internal_key-eq :
      cmp_internal_key c (internal_bytes k s t) (internal_bytes k' s' t')
      ≡ some (key_order o (k, s) (k', s'))
  unfolding cmp_internal_key
  cmp_internal_key-eq = ground (
    arith,
    length-internal_bytes k s t,
    length-internal_bytes k' s' t',
    slice_middle [] k (tag_bytes s t) 0 (length (internal_bytes k s t) - 8) refl
        (omega (arith, length-internal_bytes k s t)),
    slice_middle [] k' (tag_bytes s' t') 0 (length (internal_bytes k' s' t') - 8) refl
        (omega (arith, length-internal_bytes k' s' t')),
    slice_from_append k (tag_bytes s t) (length (internal_bytes k s t) - 8)
        (omega (arith, length-internal_bytes k s t)),
    slice_from_append k' (tag_bytes s' t') (length (internal_bytes k' s' t') - 8)
        (omega (arith, length-internal_bytes k' s' t')),
    o.cmp_order k k',
    decode-tag_bytes s t hs,
    decode-tag_bytes s' t' hs',
  )

  -- Wherever the value is and whatever it holds.
  pub cmp_memtable_key-eq :
      (v v' : Bytes)
      → IsU64 (length k + 8)
      → IsU64 (length k' + 8)
      → cmp_memtable_key c (memtable_bytes k v t s) (memtable_bytes k' v' t' s')
        ≡ some (key_order o (k, s) (k', s'))
  unfolding cmp_memtable_key
  cmp_memtable_key-eq v v' hk hk' =
      let end : checked_sub (required_space (length k + 8) + (length k + 8)) 8
          ≡ some (required_space (length k + 8) + length k) =
        ground arith in
      let end' : checked_sub (required_space (length k' + 8) + (length k' + 8)) 8
          ≡ some (required_space (length k' + 8) + length k') =
        ground arith in
      ground (
        arith,
        end,
        end',
        ie.decode-encode_var (length k + 8) (k ++ (tag_bytes s t ++ (encode_var (length v) ++ v)))
            hk,
        ie.decode-encode_var (length k' + 8)
            (k' ++ (tag_bytes s' t' ++ (encode_var (length v') ++ v'))) hk',
        slice-key k v t s,
        slice-key k' v' t' s',
        slice-tag k v t s,
        slice-tag k' v' t' s',
        o.cmp_order k k',
        decode-tag_bytes s t hs,
        decode-tag_bytes s' t' hs',
      )

-- `key_order` is a total order whenever the user comparator is one.
pub key_order-IsTotal :
    {c : Cmp} (o : IsTotal c) (x y z : Bytes × ℕ)
    → (key_order o x x ≡ Ordering.eq)
      × (key_order o x y ≡ Ordering.eq → x ≡ y)
      × (key_order o x y ≡ Ordering.lt → key_order o y x ≡ Ordering.gt)
      × (key_order o x y ≡ Ordering.gt → key_order o y x ≡ Ordering.lt)
      × (key_order o x y ≡ Ordering.lt
          → key_order o y z ≡ Ordering.lt
          → key_order o x z ≡ Ordering.lt)
key_order-IsTotal o (a, r) (b, s) (d, t) = (
  ground (arith, o.order_refl a),
  ground (arith, o.eq_of_order a b),
  ground (arith, o.eq_of_order a b, o.gt_of_order a b, o.order_refl b),
  ground (arith, o.eq_of_order a b, o.lt_of_order a b, o.order_refl b),
  ground (arith, o.eq_of_order a b, o.eq_of_order b d, o.order_trans a b d, o.order_refl b),
)

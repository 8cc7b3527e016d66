-- ===== src/MemTable/Keys.antt =====
-- The keys of the table, and the order that the wrapped comparator gives them.
use leveldb_rs.KeyTypes
use leveldb_rs.Base.{
  ℕ, ◌+◌, ◌^◌, ◌<◌, ◌≡◌, refl, ap, sym, ◌∙◌, arith, Option, none, some, ◌++◌, length, length-append,
  slice, slice_middle, append_assoc, checked_sub, Ordering,
}
use leveldb_rs.Coding.{Bytes, IsU64, IntegerEncoding, encode_var, required_space}
use leveldb_rs.Cmp.{Cmp}
use leveldb_rs.Cmp.Order.{IsTotal}
use leveldb_rs.KeyTypes.{ValueType, cmp_memtable_key}
use leveldb_rs.KeyTypes.Formats.{tag_bytes, decode-tag_bytes}
use leveldb_rs.KeyTypes.Comparison.{key_order, key_order-IsTotal}
use leveldb_rs.SkipMap.Order.{IsOrder}

module _ ⦃ie : IntegerEncoding⦄ where
  -- A memtable key, with or without a value behind it.
  abbrev pub key_bytes : Bytes → ℕ → ValueType → Bytes → Bytes
  key_bytes k s t rest = encode_var (length k + 8) ++ (k ++ (tag_bytes s t ++ rest))

  pub record IsMemtableKey (b : Bytes) : Type 0 where
    pub user : Bytes
    pub seq : ℕ
    pub type : ValueType
    pub rest : Bytes
    pub bytes : b ≡ key_bytes user seq type rest
    pub seq_fits : seq < 2 ^ 56
    pub user_fits : IsU64 (length user + 8)

  slice_user :
      (k rest : Bytes) (s : ℕ) (t : ValueType)
      → slice
          (key_bytes k s t rest)
          (required_space (length k + 8))
          (required_space (length k + 8) + length k)
        ≡ some k
  slice_user k rest s t =
      slice_middle (encode_var (length k + 8)) k (tag_bytes s t ++ rest)
        (required_space (length k + 8)) (required_space (length k + 8) + length k)
        (sym (ie.length-encode_var (length k + 8))) refl

  slice_tag :
      (k rest : Bytes) (s : ℕ) (t : ValueType)
      → slice
          (key_bytes k s t rest)
          (required_space (length k + 8) + length k)
          (required_space (length k + 8) + (length k + 8))
        ≡ some (tag_bytes s t)
  slice_tag k rest s t =
      let n = required_space (length k + 8) in
      ap (λ l. slice l (n + length k) (n + (length k + 8)))
        (sym (append_assoc (encode_var (length k + 8)) k (tag_bytes s t ++ rest)))
      ∙ slice_middle (encode_var (length k + 8) ++ k) (tag_bytes s t) rest (n + length k)
          (n + (length k + 8))
          (omega (
            arith,
            ie.length-encode_var (length k + 8),
            length-append (encode_var (length k + 8)) k,
          ))
          (omega (arith, ie.length-encode_fixed 8 (KeyTypes.make_tag s t)))

  module _ {c : Cmp} (o : IsTotal c) where
    pub cmp_key_bytes :
        (k k' rest rest' : Bytes) (s s' : ℕ) (t t' : ValueType)
        → s < 2 ^ 56
        → s' < 2 ^ 56
        → IsU64 (length k + 8)
        → IsU64 (length k' + 8)
        → cmp_memtable_key c (key_bytes k s t rest) (key_bytes k' s' t' rest')
          ≡ some (key_order o (k, s) (k', s'))
    unfolding cmp_memtable_key
    cmp_key_bytes k k' rest rest' s s' t t' hs hs' hk hk' =
        let end : checked_sub (required_space (length k + 8) + (length k + 8)) 8
            ≡ some (required_space (length k + 8) + length k) =
          ground arith in
        let end' : checked_sub (required_space (length k' + 8) + (length k' + 8)) 8
            ≡ some (required_space (length k' + 8) + length k') =
          ground arith in
        ground (
          arith,
          end,
          end',
          ie.decode-encode_var (length k + 8) (k ++ (tag_bytes s t ++ rest)) hk,
          ie.decode-encode_var (length k' + 8) (k' ++ (tag_bytes s' t' ++ rest')) hk',
          slice_user k rest s t,
          slice_user k' rest' s' t',
          slice_tag k rest s t,
          slice_tag k' rest' s' t',
          o.cmp_order k k',
          decode-tag_bytes s t hs,
          decode-tag_bytes s' t' hs',
        )

    -- The answer of the comparator, on keys on which it does not panic.
    abbrev pub answer : Option Ordering → Ordering
    answer none = Ordering.eq
    answer (some x) = x

    abbrev pub memtable_order : Bytes → Bytes → Ordering
    memtable_order a b = answer (cmp_memtable_key c a b)

    pub cmp_keys :
        (a b : Bytes) (x : IsMemtableKey a) (y : IsMemtableKey b)
        → cmp_memtable_key c a b ≡ some (key_order o (x.user, x.seq) (y.user, y.seq))
    cmp_keys a b x y =
        ap (λ l. cmp_memtable_key c l b) x.bytes
        ∙ ap (λ l. cmp_memtable_key c (key_bytes x.user x.seq x.type x.rest) l) y.bytes
        ∙ cmp_key_bytes x.user y.user x.rest y.rest x.seq y.seq x.type y.type x.seq_fits y.seq_fits
            x.user_fits y.user_fits

    pub memtable_order-eq :
        (a b : Bytes) (x : IsMemtableKey a) (y : IsMemtableKey b)
        → memtable_order a b ≡ key_order o (x.user, x.seq) (y.user, y.seq)
    memtable_order-eq a b x y = ap answer (cmp_keys a b x y)

    -- The skip list's comparator orders the memtable keys.
    abbrev pub memtable_key-IsOrder : IsOrder (cmp_memtable_key c) IsMemtableKey
    memtable_key-IsOrder = record {
      order = memtable_order;
      cmp_order = λ a b x y. cmp_keys a b x y ∙ ap some (sym (memtable_order-eq a b x y));
      order_refl = λ a x.
          memtable_order-eq a a x x
          ∙ (key_order-IsTotal o (x.user, x.seq) (x.user, x.seq) (x.user, x.seq)).0;
      lt_trans = λ a b d x y z h k.
          memtable_order-eq a d x z
          ∙ (key_order-IsTotal o (x.user, x.seq) (y.user, y.seq) (z.user, z.seq)).4
              (sym (memtable_order-eq a b x y) ∙ h) (sym (memtable_order-eq b d y z) ∙ k);
      lt_eq = λ a b d x y z h k.
          memtable_order-eq a d x z
          ∙ ap (λ p. key_order o (x.user, x.seq) p)
              (sym (
                (key_order-IsTotal o (y.user, y.seq) (z.user, z.seq) (z.user, z.seq)).1
                  (sym (memtable_order-eq b d y z) ∙ k)))
          ∙ sym (memtable_order-eq a b x y)
          ∙ h;
      lt_of_gt = λ a b x y h.
          memtable_order-eq b a y x
          ∙ (key_order-IsTotal o (x.user, x.seq) (y.user, y.seq) (y.user, y.seq)).3
              (sym (memtable_order-eq a b x y) ∙ h);
    }

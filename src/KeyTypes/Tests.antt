-- ===== src/KeyTypes/Tests.antt =====
-- Runs from the source's own tests, and the theorems at concrete inputs.
use leveldb_rs.Base.{
  ℕ, ◌+◌, ◌≡◌, refl, arith, some, none, [], ◌∷◌, ◌++◌, Ordering, ◌>>=◌, slice, fill, slice_from,
}
use leveldb_rs.Coding.{Bytes, encode_var, decode_fixed}
use leveldb_rs.Coding.Leb128.{leb128, groups, little_endian}
use leveldb_rs.Cmp.Order.{default_cmp-IsTotal}
use leveldb_rs.KeyTypes.{
  type_value, type_deletion, LookupKey, MemtableParts, new, new_full, internal_key, make_tag,
  parse_tag, build_memtable_key, parse_memtable_key, memtable_key,
}
use leveldb_rs.KeyTypes.Formats.{parse-build_memtable_key, parse_memtable_key-lookup}
use leveldb_rs.KeyTypes.Comparison.{key_order, key_order-IsTotal}

abbrev abc : Bytes
abc = b'a' ∷ b'b' ∷ b'c' ∷ []

abbrev xyabxy : Bytes
xyabxy = b'x' ∷ b'y' ∷ b'a' ∷ b'b' ∷ b'x' ∷ b'y' ∷ []

xyabxy_internal :
    (new xyabxy 97 >>= internal_key) ≡ some (xyabxy ++ 1 ∷ 97 ∷ 0 ∷ 0 ∷ 0 ∷ 0 ∷ 0 ∷ 0 ∷ [])
unfolding new internal_key groups little_endian fill make_tag slice_from
xyabxy_internal = refl

abc_deleted :
    build_memtable_key abc (b'1' ∷ b'2' ∷ b'3' ∷ []) type_deletion 231
    ≡ some (11 ∷ abc ++ 0 ∷ 231 ∷ 0 ∷ 0 ∷ 0 ∷ 0 ∷ 0 ∷ 0 ∷ 3 ∷ b'1' ∷ b'2' ∷ b'3' ∷ [])
unfolding build_memtable_key groups little_endian fill make_tag
abc_deleted = refl

parse-build_memtable_key_example :
    (buf : Bytes) × (p : MemtableParts) × (build_memtable_key abc (1 ∷ []) type_value 231
      ≡ some buf)
    × (parse_memtable_key buf ≡ some p)
    × (slice buf p.keyoff (p.keyoff + p.keylen) ≡ some abc)
    × (parse_tag p.tag ≡ (type_value, 231))
    × (slice buf p.valoff (p.valoff + p.vallen) ≡ some (1 ∷ []))
parse-build_memtable_key_example =
    parse-build_memtable_key abc (1 ∷ []) type_value 231 (omega arith) (omega arith) (omega arith)

parse_memtable_key-lookup_example :
    (l : LookupKey) × (p : MemtableParts) × (new_full abc 7 type_value ≡ some l)
    × (slice (memtable_key l) p.keyoff (p.keyoff + p.keylen) ≡ some abc)
    × ((slice (memtable_key l) (p.keyoff + p.keylen) (p.keyoff + p.keylen + 8) >>= λ b.
          some (parse_tag (decode_fixed b)))
        ≡ some (type_value, 7))
    × (slice_from (memtable_key l) (p.keyoff + p.keylen + 8) ≡ some [])
    × (parse_memtable_key (memtable_key l) ≡ none)
    × (parse_memtable_key (memtable_key l ++ (encode_var 2 ++ 5 ∷ 6 ∷ [])) ≡ some p)
    × (slice (memtable_key l ++ (encode_var 2 ++ 5 ∷ 6 ∷ [])) p.valoff (p.valoff + p.vallen)
        ≡ some (5 ∷ 6 ∷ []))
parse_memtable_key-lookup_example =
    parse_memtable_key-lookup abc (5 ∷ 6 ∷ []) type_value 7 (omega arith) (omega arith)
      (omega arith)

key_order-IsTotal_example :
    (key_order default_cmp-IsTotal (abc, 2) (abc, 2) ≡ Ordering.eq)
    × (key_order default_cmp-IsTotal (abc, 2) (abc, 1) ≡ Ordering.eq
        → ◌≡◌ {A = Bytes × ℕ} (abc, 2) (abc, 1))
    × (key_order default_cmp-IsTotal (abc, 2) (abc, 1) ≡ Ordering.lt
        → key_order default_cmp-IsTotal (abc, 1) (abc, 2) ≡ Ordering.gt)
    × (key_order default_cmp-IsTotal (abc, 2) (abc, 1) ≡ Ordering.gt
        → key_order default_cmp-IsTotal (abc, 1) (abc, 2) ≡ Ordering.lt)
    × (key_order default_cmp-IsTotal (abc, 2) (abc, 1) ≡ Ordering.lt
        → key_order default_cmp-IsTotal (abc, 1) (xyabxy, 5) ≡ Ordering.lt
        → key_order default_cmp-IsTotal (abc, 2) (xyabxy, 5) ≡ Ordering.lt)
key_order-IsTotal_example = key_order-IsTotal default_cmp-IsTotal (abc, 2) (abc, 1) (xyabxy, 5)

-- ===== src/InternalCmp/Tests.antt =====
-- The theorems at concrete inputs.
use leveldb_rs.Base.{◌≡◌, refl, arith, some, [], ◌∷◌, ◌++◌, Ordering}
use leveldb_rs.Coding.{Bytes}
use leveldb_rs.Coding.Leb128.{leb128}
use leveldb_rs.Cmp.{default_cmp}
use leveldb_rs.KeyTypes.{type_value, cmp_internal_key}
use leveldb_rs.KeyTypes.Formats.{internal_bytes}
use leveldb_rs.InternalCmp.{find_internal_sep}
use leveldb_rs.InternalCmp.Separator.{find_internal_sep_bytes, find_internal_sep_misplaced}

abbrev abc : Bytes
abc = b'a' ∷ b'b' ∷ b'c' ∷ []

abbrev zzz : Bytes
zzz = b'z' ∷ b'z' ∷ b'z' ∷ []

find_internal_sep_bytes_example :
    (sep : Bytes) × (find_internal_sep default_cmp
        (internal_bytes abc 1 type_value)
        (internal_bytes zzz 2 type_value)
      ≡ some sep)
    × (cmp_internal_key default_cmp (internal_bytes abc 1 type_value) sep ≡ some Ordering.lt)
    × (cmp_internal_key default_cmp sep (internal_bytes zzz 2 type_value) ≡ some Ordering.lt)
find_internal_sep_bytes_example =
    find_internal_sep_bytes abc zzz 1 2 type_value type_value (omega arith) (omega arith) refl
      (λ e. cc) (λ e. cc)

find_internal_sep_misplaced_example :
    (sep : Bytes) × (find_internal_sep default_cmp
        (internal_bytes abc 1 type_value)
        (internal_bytes (abc ++ 0 ∷ []) 2 type_value)
      ≡ some sep)
    × (cmp_internal_key default_cmp sep (internal_bytes (abc ++ 0 ∷ []) 2 type_value)
        ≡ some Ordering.gt)
find_internal_sep_misplaced_example =
    find_internal_sep_misplaced abc 1 2 type_value type_value (omega arith) (omega arith) (λ e. cc)

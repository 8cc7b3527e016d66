-- ===== src/Version/Tests.antt =====
-- The theorems at concrete inputs.
use leveldb_rs.Base.{
  ℕ, ◌+◌, ◌-◌, ap, get_or, ◌≡◌, refl, arith, true, false, Option, none, some, List, [], ◌∷◌,
  Ordering, slice, slice_from, ◌==◌, if◌then◌else◌,
}
use leveldb_rs.Coding.{Bytes}
use leveldb_rs.Coding.Leb128.{leb128, little_endian}
use leveldb_rs.Cmp.{default_cmp}
use leveldb_rs.Cmp.Order.{default_cmp-IsTotal}
use leveldb_rs.KeyTypes.{type_value, type_deletion, parse_internal_key, cmp_internal_key}
use leveldb_rs.KeyTypes.Formats.{internal_bytes}
use leveldb_rs.KeyTypes.Comparison.{cmp_internal_key-eq}
use leveldb_rs.VersionEdit.{FileMetaData}
use leveldb_rs.Version.{Version, find_loop, find_file, overlap_in_level, user_part}
use leveldb_rs.Version.Search.{find_file-eq}
use leveldb_rs.Version.Ranges.{HasBounds, user_part-eq}
use leveldb_rs.Version.Disjoint.{overlap_in_level-eq, overlap_in_level_misses}
use leveldb_rs.Version.Get.{
  get, get_overlapping, overlapping_of_level_0, overlapping_from, overlapping_of_level,
  sort_newest_first, insert_by_num,
}
use leveldb_rs.Version.Deletion.{get_hidden_by_deletion, without}
use leveldb_rs.Version.Inputs.{overlapping_inputs}
use leveldb_rs.Iterator.{Row}
use leveldb_rs.Iterator.Rows.{Rows, forward_rows}
use leveldb_rs.Version.Iter.{new_version_iter}
use leveldb_rs.Version.Scan.{Opens, scan, scan-all_rows}
use leveldb_rs.Version.Closure.{Closed, overlapping_inputs-Closed}

abbrev user : ℕ → Bytes
user b = b ∷ []

-- Four files: a to c, d to e, b, and a to c again.
abbrev first : ℕ → ℕ
first f = if f == 1 then b'd' else if f == 2 then b'b' else b'a'

abbrev last : ℕ → ℕ
last f = if f == 1 then b'e' else if f == 2 then b'b' else b'c'

abbrev store : ℕ → FileMetaData
store f = record {
  allowed_seeks = 100;
  num = 10 + f;
  size = 64;
  smallest = internal_bytes (user (first f)) 5 type_value;
  largest = internal_bytes (user (last f)) 5 type_value;
}

abbrev lo : ℕ → Bytes
lo f = user (first f)

abbrev hi : ℕ → Bytes
hi f = user (last f)

bounds : (f : ℕ) → HasBounds (store f) (lo f) (hi f)
bounds f = record {
  lo_seq = 5;
  lo_type = type_value;
  hi_seq = 5;
  hi_type = type_value;
  smallest_eq = refl;
  largest_eq = refl;
  lo_seq_fits = omega arith;
  hi_seq_fits = omega arith;
}

abbrev version : List ℕ → List ℕ → Version
version level_0 level_1 = record {
  files = λ l. if l == 0 then level_0 else if l == 1 then level_1 else [];
  file_to_compact = none;
  file_to_compact_lvl = 0;
  compaction_level = none;
}

find_file-eq_example :
    find_file default_cmp store (0 ∷ 1 ∷ []) (internal_bytes (user b'd') 9 type_value)
    ≡ some (some 1)
find_file-eq_example =
    find_file-eq default_cmp store (internal_bytes (user b'd') 9 type_value) (0 ∷ []) (1 ∷ [])
      (
        cmp_internal_key-eq default_cmp-IsTotal (user b'c') (user b'd') 5 9 type_value type_value
            (omega arith) (omega arith),
        tt,
      )
      (
        (
          Ordering.gt,
          cmp_internal_key-eq default_cmp-IsTotal (user b'e') (user b'd') 5 9 type_value type_value
              (omega arith) (omega arith),
          refl,
        ),
        tt,
      )

overlap_in_level-eq_example :
    overlap_in_level default_cmp store (version (0 ∷ 1 ∷ []) []) 0 (user b'c') (user b'c')
    ≡ some true
overlap_in_level-eq_example =
    overlap_in_level-eq default_cmp-IsTotal store lo hi (version (0 ∷ 1 ∷ []) []) 0 (user b'c')
      (user b'c') (omega arith) (bounds 0, (bounds 1, tt)) (λ e. cc, (refl, tt), (λ e. cc, tt, tt))
      (omega arith)

overlap_in_level_misses_example :
    (overlap_in_level default_cmp store (version (0 ∷ 2 ∷ []) []) 0 (user b'c') (user b'c')
      ≡ some false)
    × (overlap_in_level default_cmp store (version [] (0 ∷ 2 ∷ [])) 1 (user b'c') (user b'c')
        ≡ some true)
overlap_in_level_misses_example =
    overlap_in_level_misses default_cmp-IsTotal store lo hi (version (0 ∷ 2 ∷ []) [])
      (version [] (0 ∷ 2 ∷ [])) 0 2 0 (user b'c') (user b'c') refl refl (omega arith)
      (bounds 0, (bounds 2, tt)) refl refl

abbrev tables : ℕ → Bytes → Option (Bytes × Bytes)
tables n k =
    if n == 10
    then some (internal_bytes (user b'c') 3 type_deletion, [])
    else some (internal_bytes (user b'b') 2 type_value, user 7)

files_of_b :
    get_overlapping default_cmp store
      (version (0 ∷ []) (3 ∷ []))
      (internal_bytes (user b'b') 9 type_value)
    ≡ some ((0 ∷ []) ∷ (3 ∷ []) ∷ [] ∷ [] ∷ [] ∷ [] ∷ [] ∷ [])
unfolding get_overlapping overlapping_of_level_0 overlapping_from overlapping_of_level find_file
    find_loop user_part parse_internal_key cmp_internal_key sort_newest_first insert_by_num
    little_endian slice_from slice
files_of_b = refl

get_hidden_by_deletion_example :
    (get default_cmp store tables
        (version (0 ∷ []) (3 ∷ []))
        (internal_bytes (user b'b') 9 type_value)
      ≡ some none)
    × (get default_cmp store
          (without tables 10)
          (version (0 ∷ []) (3 ∷ []))
          (internal_bytes (user b'b') 9 type_value)
        ≡ some (some (user 7, record { file = none; level = 0 })))
get_hidden_by_deletion_example =
    get_hidden_by_deletion default_cmp-IsTotal store tables (version (0 ∷ []) (3 ∷ [])) (user b'b')
      (user b'c') (user 7) [] 9 3 2 type_value 0 3 ([] ∷ [] ∷ [] ∷ [] ∷ [] ∷ []) files_of_b
      (omega arith) (omega arith) (omega arith) (λ e. omega (arith, ap (λ k. get_or k 0 0) e))
      (λ e. omega (arith, e)) refl refl

overlapping_inputs-Closed_example :
    Closed default_cmp-IsTotal store lo hi (user b'b') (user b'b') (2 ∷ 0 ∷ []) (
      overlapping_inputs default_cmp store
        (version (2 ∷ 0 ∷ []) [])
        0
        (internal_bytes (user b'b') 9 type_value)
        (internal_bytes (user b'b') 9 type_value))
overlapping_inputs-Closed_example =
    overlapping_inputs-Closed default_cmp-IsTotal store lo hi (version (2 ∷ 0 ∷ []) [])
      (internal_bytes (user b'b') 9 type_value) (internal_bytes (user b'b') 9 type_value)
      (user b'b') (user b'b') (bounds 2, (bounds 0, tt))
      (user_part-eq (user b'b') 9 type_value (omega arith))
      (user_part-eq (user b'b') 9 type_value (omega arith))

-- A level of two tables, with two rows and one.
abbrev rows : ℕ → List Row
rows f = if f == 0 then (user b'a', []) ∷ (user b'c', []) ∷ [] else (user b'd', []) ∷ []

abbrev get_table : ℕ → Option Rows
get_table n = some (rows (n - 10), [])

table_0 : Opens forward_rows get_table store rows 0
table_0 = record {
  first = (user b'a', []);
  others = (user b'c', []) ∷ [];
  opened = (rows 0, []);
  started = (rows 0, rows 0);
  rows_eq = refl;
  get_eq = refl;
  advance_eq = refl;
  ahead = refl;
}

table_1 : Opens forward_rows get_table store rows 1
table_1 = record {
  first = (user b'd', []);
  others = [];
  opened = (rows 1, []);
  started = (rows 1, rows 1);
  rows_eq = refl;
  get_eq = refl;
  advance_eq = refl;
  ahead = refl;
}

scan-all_rows_example :
    scan forward_rows get_table store rows 4 (new_version_iter (0 ∷ 1 ∷ []))
    ≡ some ((user b'a', []) ∷ (user b'c', []) ∷ (user b'd', []) ∷ [])
scan-all_rows_example =
    scan-all_rows forward_rows get_table store rows 4 0 (1 ∷ []) (table_0, (table_1, tt))
      (omega arith)

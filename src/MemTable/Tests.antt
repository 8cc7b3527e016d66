-- ===== src/MemTable/Tests.antt =====
-- The theorems at a table of two writes.
use leveldb_rs.Base.{
  ℕ, ◌+◌, ◌<◌, length, length-append, ◌≡◌, ◌≢◌, refl, ap, arith, true, false, none, some, List, [],
  ◌∷◌, ◌++◌, All, Ordering, ◌>>=◌,
}
use leveldb_rs.Coding.{Bytes}
use leveldb_rs.Coding.Leb128.{leb128}
use leveldb_rs.Cmp.{default_cmp}
use leveldb_rs.Cmp.Order.{default_cmp-IsTotal}
use leveldb_rs.KeyTypes.{type_value, type_deletion}
use leveldb_rs.KeyTypes
use leveldb_rs.KeyTypes.Formats.{internal_bytes}
use leveldb_rs.KeyTypes.Comparison.{key_order}
use leveldb_rs.SkipMap.{reset}
use leveldb_rs.MemTable.{MemTable, new, add, get, current, seek}
use leveldb_rs.MemTable.Versions.{Entry, version, visible, report}
use leveldb_rs.MemTable.Get.{EntryFits}
use leveldb_rs.MemTable.Table.{IsTable}
use leveldb_rs.MemTable.Add.{new-IsTable, add-IsTable}
use leveldb_rs.MemTable.Log.{add_all, get-add_all}
use leveldb_rs.MemTable.Scan.{rows, first_row, scan, scan-rows, seek-current}

-- A generator that counts.
abbrev counting : ℕ → ℕ × ℕ
counting n = (n, n + 1)

abbrev written : Entry
written = record { user = 7 ∷ []; seq = 1; type = type_value; value = 70 ∷ [] }

abbrev deleted : Entry
deleted = record { user = 7 ∷ []; seq = 2; type = type_deletion; value = [] }

written_fits : EntryFits written
written_fits = (omega arith, omega arith, omega arith)

deleted_fits : EntryFits deleted
deleted_fits = (omega arith, omega arith, omega arith)

other_versions : version written ≢ version deleted
other_versions h = omega (arith, ap (λ (v : Bytes × ℕ). v.1) h)

-- The deletion is written last: a reader from its sequence number on sees it.
get-add_all_example :
    (mt : MemTable ℕ) × (add_all default_cmp counting 56 8 0 0 (deleted ∷ written ∷ []) ≡ some mt)
    × ((KeyTypes.new (7 ∷ []) 5 >>= λ key. get default_cmp mt key)
        ≡ some (report (visible (7 ∷ []) 5 (deleted ∷ written ∷ []))))
get-add_all_example =
    get-add_all default_cmp-IsTotal counting 56 8 0 0 (deleted ∷ written ∷ []) (7 ∷ []) 5
      (deleted_fits, (written_fits, tt)) ((other_versions, tt), (tt, tt)) (omega arith)
      (omega arith)

sees_deletion : report (visible (7 ∷ []) 5 (deleted ∷ written ∷ [])) ≡ (none, true)
unfolding visible
sees_deletion = refl

sees_value : report (visible (7 ∷ []) 1 (deleted ∷ written ∷ [])) ≡ (some (70 ∷ []), false)
unfolding visible
sees_value = refl

-- A table of one entry.
abbrev one :
    (mt : MemTable ℕ) × (em : List Entry) × (er : List Entry) × ([] ≡ em ++ er)
    × (add counting default_cmp 56 8 (new 0 0) 1 type_value (7 ∷ []) (70 ∷ []) ≡ some mt)
    × IsTable default_cmp-IsTotal mt (em ++ written ∷ er)
one =
    add-IsTable default_cmp-IsTotal counting 56 8 (new 0 0) [] written
      (new-IsTable default_cmp-IsTotal 0 0) written_fits tt

abbrev one_entries : List Entry
one_entries = one.1 ++ written ∷ one.2

one_before : length one_entries < 5
one_before =
    omega (arith, ap length one.3, length-append one.1 one.2, length-append one.1 (written ∷ one.2))

scan-rows_example : scan one.0 5 reset ≡ some (rows one_entries)
scan-rows_example = scan-rows default_cmp-IsTotal one.0 one_entries one.5 5 one_before

seek-current_example :
    (passed : List Entry) × (ahead : List Entry) × (one_entries ≡ passed ++ ahead)
    × All (λ e. key_order default_cmp-IsTotal (version e) (7 ∷ [], 5) ≡ Ordering.lt) passed
    × All (λ e. ¬ (key_order default_cmp-IsTotal (version e) (7 ∷ [], 5) ≡ Ordering.lt)) ahead
    × ((seek default_cmp one.0 (internal_bytes (7 ∷ []) 5 type_value) >>= λ it. current one.0 it)
        ≡ some (first_row ahead))
seek-current_example =
    seek-current default_cmp-IsTotal one.0 one_entries one.5 (7 ∷ []) 5 type_value (omega arith)
      (omega arith)

-- ===== src/Version.antt =====
-- src/version.rs: the tables of each level and what is asked about their key ranges. A handle of a
-- file's metadata is an address, and `meta` the store that versions share. The comparator compares
-- user keys. The score of a compaction, a floating-point number, is left out.
pub mod Search
pub mod Inputs
pub mod Get
pub mod Iter
pub mod Ranges
pub mod Level
pub mod Disjoint
pub mod Deletion
pub mod Widening
pub mod Closure
pub mod Scan
mod Tests
use leveldb_rs.Base.{
  ℕ, zero, suc, ◌+◌, ◌*◌, ◌/◌, ◌^◌, Bool, true, false, not, ◌&&◌, Option, none, some, List, [], ◌∷◌,
  length, ltb, ◌==◌, if◌then◌else◌, Ordering, is_lt, assert, ◌>>=◌, ◌>>◌,
}
use leveldb_rs.Coding.{Bytes, IntegerEncoding}
use leveldb_rs.Cmp.{Cmp}
use leveldb_rs.KeyTypes.{
  max_sequence_number, parse_internal_key, cmp_internal_key, new, internal_key,
}
use leveldb_rs.InternalCmp.{cmp_inner}
use leveldb_rs.SkipMap.{at, is_empty}
use leveldb_rs.VersionEdit.{FileMetaData}

abbrev pub num_levels : ℕ
num_levels = 7

pub record Version : Type 0 where
  pub files : ℕ → List ℕ
  pub file_to_compact : Option ℕ
  pub file_to_compact_lvl : ℕ
  pub compaction_level : Option ℕ

unfoldable pub new_version : Version
new_version = record {
  files = λ l. [];
  file_to_compact = none;
  file_to_compact_lvl = 0;
  compaction_level = none;
}

abbrev pub is_gt : Ordering → Bool
is_gt o = elim o [ Ordering.gt ↦ true | _ ↦ false ]

abbrev pub is_none : {A : Type 0} → Option A → Bool
is_none none = true
is_none (some a) = false

module _ (meta : ℕ → FileMetaData) where
  -- The fold; a sum that does not fit panics.
  unfoldable pub sum_sizes : ℕ → List ℕ → Option ℕ
  sum_sizes a [] = some a
  sum_sizes a (f ∷ fs) = do
    assert (ltb (a + (meta f).size) (2 ^ 64))
    sum_sizes (a + (meta f).size) fs

  unfoldable pub total_size : List ℕ → Option ℕ
  total_size fs = sum_sizes 0 fs

  unfoldable pub num_level_bytes : Version → ℕ → Option ℕ
  num_level_bytes v l = do assert (ltb l num_levels); total_size (v.files l)

unfoldable pub num_level_files : Version → ℕ → Option ℕ
num_level_files v l = do assert (ltb l num_levels); some (length (v.files l))

module _ ⦃ie : IntegerEncoding⦄ where
  -- `parse_internal_key(k).2`.
  unfoldable pub user_part : Bytes → Option Bytes
  user_part k = do (_, _, u) ← parse_internal_key k; some u

  module _ (c : Cmp) (meta : ℕ → FileMetaData) where
    unfoldable pub key_is_after_file : Bytes → ℕ → Option Bool
    key_is_after_file key f = do
      ulargest ← user_part (meta f).largest
      elim (is_empty key) [
        | true ↦ some false
        | false ↦ do o ← cmp_inner c key ulargest; some (is_gt o)
      ]

    unfoldable pub key_is_before_file : Bytes → ℕ → Option Bool
    key_is_before_file key f = do
      usmallest ← user_part (meta f).smallest
      elim (is_empty key) [
        | true ↦ some false
        | false ↦ do o ← cmp_inner c key usmallest; some (is_lt o)
      ]

    -- Every round makes the distance from `left` to `right` smaller.
    unfoldable pub find_loop : ℕ → List ℕ → Bytes → ℕ → ℕ → Option ℕ
    find_loop zero files key left right = none
    find_loop (suc fuel) files key left right = elim (ltb left right) [
      | false ↦ some right
      | true ↦ do
        let mid = (left + right) / 2
        f ← at files mid
        o ← cmp_internal_key c (meta f).largest key
        find_loop fuel files key (if is_lt o then mid + 1 else left)
            (if is_lt o then right else mid)
    ]

    unfoldable pub find_file : List ℕ → Bytes → Option (Option ℕ)
    find_file files key = do
      right ← find_loop (suc (length files)) files key 0 (length files)
      some (if ltb right (length files) then some right else none)

    unfoldable pub some_file_overlaps_range_disjoint : List ℕ → Bytes → Bytes → Option Bool
    some_file_overlaps_range_disjoint files smallest largest = do
      l ← new smallest max_sequence_number
      ikey ← internal_key l
      found ← find_file files ikey
      elim found [
        | none ↦ some false
        | some ix ↦ do f ← at files ix; before ← key_is_before_file largest f; some (not before)
      ]

    unfoldable pub some_file_overlaps_range : List ℕ → Bytes → Bytes → Option Bool
    some_file_overlaps_range [] smallest largest = some false
    some_file_overlaps_range (f ∷ fs) smallest largest = do
      after ← key_is_after_file smallest f
      out ← elim after [ true ↦ some true | false ↦ key_is_before_file largest f ]
      elim out [ false ↦ some true | true ↦ some_file_overlaps_range fs smallest largest ]

    unfoldable pub overlap_in_level : Version → ℕ → Bytes → Bytes → Option Bool
    overlap_in_level v level smallest largest = do
      assert (ltb level num_levels)
      elim (level == 0) [
        | true ↦ some_file_overlaps_range_disjoint (v.files level) smallest largest
        | false ↦ some_file_overlaps_range (v.files level) smallest largest
      ]

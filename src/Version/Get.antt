-- ===== src/Version/Get.antt =====
-- src/version.rs: the look-up in the tables of a version, and the count of seeks. What a table answers
-- to a key is an argument: an entry, or nothing, also for an error.
use leveldb_rs.Base.{
  ℕ, zero, suc, ◌+◌, ◌-◌, Bool, true, false, not, ◌&&◌, Option, none, some, List, [], ◌∷◌, length,
  ltb, leb, ◌==◌, if◌then◌else◌, is_lt, is_eq, ◌>>=◌,
}
use leveldb_rs.Coding.{Bytes, IntegerEncoding}
use leveldb_rs.Cmp.{Cmp}
use leveldb_rs.KeyTypes.{type_deletion, type_value, parse_internal_key}
use leveldb_rs.SkipMap.{at}
use leveldb_rs.VersionEdit.{FileMetaData}
use leveldb_rs.Version.{Version, is_none, is_gt, user_part, find_file}

pub record GetStats : Type 0 where
  pub file : Option ℕ
  pub level : ℕ

module _ (meta : ℕ → FileMetaData) where
  -- `sort_by` is stable: files of one number keep their order.
  unfoldable pub insert_by_num : ℕ → List ℕ → List ℕ
  insert_by_num f [] = f ∷ []
  insert_by_num f (g ∷ gs) =
      let rest = insert_by_num f gs in
      if leb (meta g).num (meta f).num then f ∷ g ∷ gs else g ∷ rest

  unfoldable pub sort_newest_first : List ℕ → List ℕ
  sort_newest_first [] = []
  sort_newest_first (f ∷ fs) = insert_by_num f (sort_newest_first fs)

-- What the loops of `get` do after a file: return, or go on with the statistics.
pub data Step : Type 0 where
  done : Option (Bytes × GetStats) → Step
  going : GetStats → Step

module _ ⦃ie : IntegerEncoding⦄ (c : Cmp) (meta : ℕ → FileMetaData) where
  unfoldable pub overlapping_of_level_0 : Bytes → List ℕ → Option (List ℕ)
  overlapping_of_level_0 ukey [] = some []
  overlapping_of_level_0 ukey (f ∷ fs) = do
    rest ← overlapping_of_level_0 ukey fs
    fsmallest ← user_part (meta f).smallest
    flargest ← user_part (meta f).largest
    lo ← c.cmp ukey fsmallest
    elim (is_lt lo) [
      | true ↦ some rest
      | false ↦ do hi ← c.cmp ukey flargest; some (if is_gt hi then rest else f ∷ rest)
    ]

  unfoldable pub overlapping_of_level : Bytes → Bytes → List ℕ → Option (List ℕ)
  overlapping_of_level ikey ukey files = do
    found ← find_file c meta files ikey
    elim found [
      | none ↦ some []
      | some ix ↦ do
        f ← at files ix
        fsmallest ← user_part (meta f).smallest
        lo ← c.cmp ukey fsmallest
        some (if is_lt lo then [] else f ∷ [])
    ]

  -- Levels from `level` on, `rounds` many.
  unfoldable pub overlapping_from : ℕ → Version → Bytes → Bytes → ℕ → Option (List (List ℕ))
  overlapping_from zero v ikey ukey level = some []
  overlapping_from (suc rounds) v ikey ukey level = do
    files ← overlapping_of_level ikey ukey (v.files level)
    deeper ← overlapping_from rounds v ikey ukey (level + 1)
    some (files ∷ deeper)

  unfoldable pub get_overlapping : Version → Bytes → Option (List (List ℕ))
  get_overlapping v ikey = do
    ukey ← user_part ikey
    files ← overlapping_of_level_0 ukey (v.files 0)
    deeper ← overlapping_from 6 v ikey ukey 1
    some (sort_newest_first meta files ∷ deeper)

  module _ (table_get : ℕ → Bytes → Option (Bytes × Bytes)) where
    -- The entry that a table answered.
    unfoldable pub get_found : Bytes → Bytes → Bytes → GetStats → Option Step
    get_found ukey k v stats = do
      (typ, _, foundkey) ← parse_internal_key k
      elim typ [
        | type_value ↦ do
          o ← c.cmp foundkey ukey
          some (if is_eq o then done (some (v, stats)) else going stats)
        | type_deletion ↦ some (done none)
      ]

    -- The statistics name the file that was read before, the first time that there is one.
    abbrev pub seen : GetStats → Option ℕ → ℕ → GetStats
    seen stats last_read last_read_level =
        if not (is_none last_read) && is_none stats.file
        then record { file = last_read; level = last_read_level }
        else stats

    unfoldable pub get_level : Bytes → Bytes → ℕ → GetStats → Option ℕ → ℕ → List ℕ → Option Step
    get_level ikey ukey level stats last_read last_read_level [] = some (going stats)
    get_level ikey ukey level stats last_read last_read_level (f ∷ fs) = do
      let stats' = seen stats last_read last_read_level
      step ← elim (table_get (meta f).num ikey) [
        | none ↦ some (going stats')
        | some (k, v) ↦ get_found ukey k v stats'
      ]
      elim step [ done r ↦ some (done r) | going s ↦ get_level ikey ukey level s (some f) level fs ]

    unfoldable pub get_levels :
        Bytes → Bytes → ℕ → GetStats → List (List ℕ) → Option (Option (Bytes × GetStats))
    get_levels ikey ukey level stats [] = some none
    get_levels ikey ukey level stats (files ∷ levels) = do
      step ← get_level ikey ukey level stats none 0 files
      elim step [ done r ↦ some r | going s ↦ get_levels ikey ukey (level + 1) s levels ]

    unfoldable pub get : Version → Bytes → Option (Option (Bytes × GetStats))
    get v key = do
      levels ← get_overlapping v key
      ukey ← user_part key
      get_levels key ukey 0 (record { file = none; level = 0 }) levels

-- The answer, the version and the store, of which a file's `allowed_seeks` may be one less.
unfoldable pub update_stats :
    Version → (ℕ → FileMetaData) → GetStats → Bool × Version × (ℕ → FileMetaData)
update_stats v meta stats = elim stats.file [
  | none ↦ (false, v, meta)
  | some f ↦
      if leb (meta f).allowed_seeks 1 && is_none v.file_to_compact
      then (true, record v { file_to_compact = some f; file_to_compact_lvl = stats.level }, meta)
      else if ltb 0 (meta f).allowed_seeks
      then (
        false,
        v,
        λ g.
            if g == f
            then record (meta f) { allowed_seeks = (meta f).allowed_seeks - 1 }
            else meta g,
      )
      else (false, v, meta)
]

-- The first file of all levels, its level, and how many files there are.
unfoldable pub first_and_count : ℕ → GetStats → ℕ → List (List ℕ) → GetStats × ℕ
first_and_count i first count [] = (first, count)
first_and_count i first count ([] ∷ levels) = first_and_count (i + 1) first count levels
first_and_count i first count ((f ∷ fs) ∷ levels) =
    first_and_count (i + 1)
      (if is_none first.file then record { file = some f; level = i } else first)
      (count + length (f ∷ fs)) levels

unfoldable pub record_read_sample :
    ⦃ie : IntegerEncoding⦄
    → Cmp
    → Version
    → (ℕ → FileMetaData)
    → Bytes
    → Option (Bool × Version × (ℕ → FileMetaData))
record_read_sample c v meta key = do
  levels ← get_overlapping c meta v key
  let (first, contained_in) = first_and_count 0 (record { file = none; level = 0 }) 0 levels
  some (if ltb 1 contained_in then update_stats v meta first else (false, v, meta))

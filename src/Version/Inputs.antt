-- ===== src/Version/Inputs.antt =====
-- src/version.rs: the files of a level that a compaction of a range takes in, and what a version
-- decides by them.
use leveldb_rs.Base.{
  ℕ, zero, suc, ◌+◌, ◌*◌, Bool, true, false, Option, none, some, List, [], ◌∷◌, length, ltb, ◌==◌,
  if◌then◌else◌, is_lt, assert, ◌>>=◌, ◌>>◌,
}
use leveldb_rs.Coding.{Bytes, IntegerEncoding}
use leveldb_rs.Cmp.{Cmp}
use leveldb_rs.KeyTypes.{max_sequence_number, new, new_full, internal_key, type_deletion}
use leveldb_rs.SkipMap.{is_empty}
use leveldb_rs.VersionEdit.{FileMetaData}
use leveldb_rs.Version.{Version, num_levels, is_gt, total_size, user_part, overlap_in_level}

-- What a search answers: a wider range to search again, or the files.
pub data Search : Type 0 where
  widen : Bytes → Bytes → List ℕ → Search
  found : List ℕ → Search

abbrev pub keep : ℕ → Search → Search
keep f (widen b e inputs) = widen b e (f ∷ inputs)
keep f (found inputs) = found (f ∷ inputs)

module _ ⦃ie : IntegerEncoding⦄ (c : Cmp) (meta : ℕ → FileMetaData) where
  -- `!bound.is_empty() && cmp(key, bound)` is as asked.
  abbrev pub is_past : (Bytes → Bytes → Option Bool) → Bytes → Bytes → Option Bool
  is_past test key bound = elim (is_empty bound) [ true ↦ some false | false ↦ test key bound ]

  unfoldable pub less : Bytes → Bytes → Option Bool
  less a b = do o ← c.cmp a b; some (is_lt o)

  unfoldable pub greater : Bytes → Bytes → Option Bool
  greater a b = do o ← c.cmp a b; some (is_gt o)

  unfoldable pub do_search : ℕ → Bytes → Bytes → List ℕ → Option Search
  do_search level ubegin uend [] = some (found [])
  do_search level ubegin uend (f ∷ fs) =
      let rest = do_search level ubegin uend fs in
      do
        fsmallest ← user_part (meta f).smallest
        flargest ← user_part (meta f).largest
        before ← is_past less flargest ubegin
        out ← elim before [ true ↦ some true | false ↦ is_past greater fsmallest uend ]
        elim out [
          | true ↦ rest
          | false ↦ elim (level == 0) [
            | false ↦ do s ← rest; some (keep f s)
            | true ↦ do
              begins_before ← is_past less fsmallest ubegin
              elim begins_before [
                | true ↦ some (widen fsmallest uend (f ∷ []))
                | false ↦ do
                  ends_after ← is_past greater flargest uend
                  elim ends_after [
                    | true ↦ some (widen ubegin flargest (f ∷ []))
                    | false ↦ do s ← rest; some (keep f s)
                  ]
              ]
          ]
        ]

  -- A search that widens the range takes in one more bound of a file.
  unfoldable pub search_loop : ℕ → ℕ → List ℕ → Bytes → Bytes → Option (List ℕ)
  search_loop zero level files ubegin uend = none
  search_loop (suc fuel) level files ubegin uend = do
    s ← do_search level ubegin uend files
    elim s [ widen b e inputs ↦ search_loop fuel level files b e | found inputs ↦ some inputs ]

  unfoldable pub overlapping_inputs : Version → ℕ → Bytes → Bytes → Option (List ℕ)
  overlapping_inputs v level begin end = do
    assert (ltb level num_levels)
    ubegin ← user_part begin
    uend ← user_part end
    search_loop (suc (2 * length (v.files level))) level (v.files level) ubegin uend

  abbrev pub max_mem_compact_level : ℕ
  max_mem_compact_level = 2

  -- The test in front of `level += 1`: whether the files of the level after the next are too large.
  unfoldable pub is_too_large : Version → ℕ → Bytes → Bytes → Option Bool
  is_too_large v level start limit = elim (ltb (level + 2) num_levels) [
    | false ↦ some false
    | true ↦ do
      overlaps ← overlapping_inputs v (level + 2) start limit
      size ← total_size meta overlaps
      some (ltb (10 * 2097152) size)
  ]

  -- `rounds` is what `level` lacks to `max_mem_compact_level`.
  unfoldable pub pick_loop : ℕ → Version → Bytes → Bytes → Bytes → Bytes → ℕ → Option ℕ
  pick_loop zero v min max start limit level = some level
  pick_loop (suc rounds) v min max start limit level = do
    overlap ← overlap_in_level c meta v (level + 1) min max
    elim overlap [
      | true ↦ some level
      | false ↦ do
        large ← is_too_large v level start limit
        elim large [
          | true ↦ some level
          | false ↦ pick_loop rounds v min max start limit (level + 1)
        ]
    ]

  unfoldable pub pick_memtable_output_level : Version → Bytes → Bytes → Option ℕ
  pick_memtable_output_level v min max = do
    overlap ← overlap_in_level c meta v 0 min max
    elim overlap [
      | true ↦ some 0
      | false ↦ do
        s ← new min max_sequence_number
        l ← new_full max 0 type_deletion
        start ← internal_key s
        limit ← internal_key l
        pick_loop max_mem_compact_level v min max start limit 0
    ]

  -- The bytes in the level below that the files of a level overlap, and the largest of them.
  unfoldable pub max_overlap : Version → ℕ → ℕ → List ℕ → Option ℕ
  max_overlap v lvl max [] = some max
  max_overlap v lvl max (f ∷ fs) = do
    ols ← overlapping_inputs v (lvl + 1) (meta f).smallest (meta f).largest
    sum ← total_size meta ols
    max_overlap v lvl (if ltb max sum then sum else max) fs

  -- Levels from `lvl` on, `rounds` many.
  unfoldable pub max_overlap_from : ℕ → Version → ℕ → ℕ → Option ℕ
  max_overlap_from zero v lvl max = some max
  max_overlap_from (suc rounds) v lvl max = do
    m ← max_overlap v lvl max (v.files lvl)
    max_overlap_from rounds v (lvl + 1) m

  -- `for lvl in 1..NUM_LEVELS - 1`.
  unfoldable pub max_next_level_overlapping_bytes : Version → Option ℕ
  max_next_level_overlapping_bytes v = max_overlap_from 5 v 1 0

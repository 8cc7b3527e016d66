-- ===== src/Version/Iter.antt =====
-- VersionIter of src/version.rs: the entries of a level's tables, one table after the other. The table
-- cache and the iterators of tables are arguments.
use leveldb_rs.Base.{
  ℕ, zero, suc, ◌+◌, ◌-◌, Bool, true, false, not, Option, none, some, List, [], ◌∷◌, length, ltb,
  leb, ◌==◌, if◌then◌else◌, assert, ◌>>=◌, ◌>>◌,
}
use leveldb_rs.Coding.{Bytes, IntegerEncoding}
use leveldb_rs.Cmp.{Cmp}
use leveldb_rs.Iterator.{LdbIterator}
use leveldb_rs.SkipMap.{at}
use leveldb_rs.VersionEdit.{FileMetaData}
use leveldb_rs.Version.{Version, find_file}

pub record VersionIter (T : Type 0) : Type 0 where
  pub files : List ℕ
  pub current : Option T
  pub current_ix : ℕ

unfoldable pub new_version_iter : {T : Type 0} → List ℕ → VersionIter T
new_version_iter fs = record { files = fs; current = none; current_ix = 0 }

-- `get_table` answers a new iterator of the table of a number, or an error.
module _ {T : Type 0} (table : LdbIterator T) (get_table : ℕ → Option T)
    (meta : ℕ → FileMetaData) where
  unfoldable pub reset : VersionIter T → VersionIter T
  reset it = record it { current = none; current_ix = 0 }

  unfoldable pub valid : VersionIter T → Bool
  valid it = elim it.current [ none ↦ false | some t ↦ table.valid t ]

  unfoldable pub current : VersionIter T → Option (Option (Bytes × Bytes))
  current it = elim it.current [ none ↦ some none | some t ↦ table.current t ]

  -- The new iterator of the table at `current_ix`; the call that follows is the next round.
  unfoldable pub open_table :
      (VersionIter T → Option (Bool × VersionIter T))
      → VersionIter T
      → Option (Bool × VersionIter T)
  open_table again it = do
    f ← at it.files it.current_ix
    elim (get_table (meta f).num) [
      | none ↦ some (false, it)
      | some t ↦ again (record it { current = some t })
    ]

  -- Every call of itself but the first stands at a later table.
  unfoldable pub advance_loop : ℕ → VersionIter T → Option (Bool × VersionIter T)
  advance_loop zero it = none
  advance_loop (suc fuel) it = do
    assert (not (length it.files == 0))
    elim it.current [
      | none ↦ open_table (advance_loop fuel) it
      | some t ↦ do
        (more, t') ← table.advance t
        let it' = record it { current = some t' }
        elim more [
          | true ↦ some (true, it')
          | false ↦ elim (leb (length it.files - 1) it.current_ix) [
            | true ↦ some (false, it')
            | false ↦ open_table (advance_loop fuel) (record it' { current_ix = it.current_ix + 1 })
          ]
        ]
    ]

  unfoldable pub advance : VersionIter T → Option (Bool × VersionIter T)
  advance it = advance_loop (length it.files + 2) it

  unfoldable pub seek :
      ⦃ie : IntegerEncoding⦄ → Cmp → VersionIter T → Bytes → Option (VersionIter T)
  seek c it key = do
    found ← find_file c meta it.files key
    elim found [
      | none ↦ some (reset it)
      | some ix ↦ do
        f ← at it.files ix
        elim (get_table (meta f).num) [
          | none ↦ some (reset it)
          | some t ↦ do
            iter ← table.seek t key
            some (
                if table.valid iter
                then record it { current = some iter; current_ix = ix }
                else reset it)
        ]
    ]

  -- To the last entry of the table before.
  unfoldable pub prev_table : VersionIter T → Option (Bool × VersionIter T)
  prev_table it = do
    f ← at it.files (it.current_ix - 1)
    elim (get_table (meta f).num) [
      | none ↦ some (false, reset it)
      | some t ↦ do
        iter ← table.seek t (meta f).largest
        assert (table.valid iter)
        some (true, record it { current = some iter; current_ix = it.current_ix - 1 })
    ]

  unfoldable pub prev : VersionIter T → Option (Bool × VersionIter T)
  prev it = elim it.current [
    | none ↦ some (false, reset it)
    | some t ↦ do
      (more, t') ← table.prev t
      let it' = record it { current = some t' }
      elim more [
        | true ↦ some (true, it')
        | false ↦ elim (ltb 0 it.current_ix) [
          | true ↦ prev_table it'
          | false ↦ some (false, reset it')
        ]
      ]
  ]

-- The iterators that are merged: of one table of level 0, or of a level.
pub data TableOrLevel (T : Type 0) : Type 0 where
  of_table : T → TableOrLevel T
  of_level : VersionIter T → TableOrLevel T

-- `none` is the error of a table that cannot be opened.
module _ {T : Type 0} (get_table : ℕ → Option T) (meta : ℕ → FileMetaData) where
  unfoldable pub table_iters : List ℕ → List (TableOrLevel T) → Option (List (TableOrLevel T))
  table_iters [] behind = some behind
  table_iters (f ∷ fs) behind = do
    t ← get_table (meta f).num
    iters ← table_iters fs behind
    some (of_table t ∷ iters)

  -- Levels from `l` on, `rounds` many, without those that have no files.
  unfoldable pub level_iters : ℕ → Version → ℕ → List (TableOrLevel T)
  level_iters zero v l = []
  level_iters (suc rounds) v l =
      let rest = level_iters rounds v (l + 1) in
      if length (v.files l) == 0 then rest else of_level (new_version_iter (v.files l)) ∷ rest

  unfoldable pub new_iters : Version → Option (List (TableOrLevel T))
  new_iters v = table_iters (v.files 0) (level_iters 6 v 1)

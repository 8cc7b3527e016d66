-- ===== src/Snapshot/Tests.antt =====
-- The run of the source's own test, and the theorem at a list with two snapshots.
use leveldb_rs.Snapshot.Laws.{empty_after_snapshot, Steps, done, more, dropped, delete_all, handles}
use leveldb_rs.Base.{false}
use leveldb_rs.Snapshot.{empty}
use leveldb_rs.Base.{ℕ, ◌+◌, ◌≤◌, ◌≡◌, refl, List, [], ◌∷◌}
use leveldb_rs.Snapshot.{
  Snapshot, SnapshotList, new, remove, new_snapshot, fold_oldest, oldest, fold_newest, newest,
  delete,
}
use leveldb_rs.Snapshot.Laws.{taken, Reachable, start, after, newest-new_snapshot}

abbrev list_of : List (ℕ × ℕ) → ℕ → SnapshotList
list_of m n = record { map = m; newest_handle = n; oldest_handle = 1 }

abbrev two : SnapshotList
two = list_of ((2, 20) ∷ (1, 10) ∷ []) 2

abbrev three : SnapshotList
three = list_of ((3, 30) ∷ (2, 20) ∷ (1, 10) ∷ []) 3

abbrev newest_taken : Snapshot
newest_taken = record { id = 3; seq = 30 }

oldest_of_three : oldest three ≡ 1
unfolding oldest fold_oldest
oldest_of_three = refl

newest_dropped : newest (delete three 3) ≡ 2
unfolding newest fold_newest delete remove
newest_dropped = refl

two-Reachable : Reachable two
unfolding new new_snapshot remove
two-Reachable =
    after (list_of ((1, 10) ∷ []) 1) two
      (after new (list_of ((1, 10) ∷ []) 1) start (taken _ _ (record { id = 1; seq = 10 }) 10 refl))
      (taken _ _ (record { id = 2; seq = 20 }) 20 refl)

newest-new_snapshot_example :
    (newest two ≤ two.newest_handle)
    × (newest three ≡ newest_taken.id)
    × (newest_taken.id ≡ two.newest_handle + 1)
    × (newest_taken.seq ≡ 30)
unfolding new_snapshot remove
newest-new_snapshot_example = newest-new_snapshot two three newest_taken 30 two-Reachable refl

-- A third snapshot is taken and the first is dropped.
abbrev one_dropped : SnapshotList
one_dropped = list_of ((3, 30) ∷ (2, 20) ∷ []) 3

one_dropped-Steps : Steps three one_dropped
unfolding delete remove
one_dropped-Steps =
    more three one_dropped one_dropped (dropped three one_dropped 1 refl) (done one_dropped)

empty_after_snapshot_example :
    (empty one_dropped ≡ false)
    × ((delete_all (handles one_dropped.map) one_dropped).map ≡ [])
    × (empty (delete_all (handles one_dropped.map) one_dropped) ≡ false)
unfolding new_snapshot remove
empty_after_snapshot_example =
    empty_after_snapshot two three one_dropped newest_taken 30 refl one_dropped-Steps

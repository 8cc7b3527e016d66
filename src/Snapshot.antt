-- ===== src/Snapshot.antt =====
-- src/snapshot.rs: the list of the database's snapshots, a map from handles to sequence numbers that
-- the snapshots share. A `HashMap` is the list of its entries in the order of its iteration.
pub mod Laws
mod Tests
use leveldb_rs.Base.{
  ℕ, ◌+◌, ◌^◌, Bool, Option, none, some, List, [], ◌∷◌, ltb, ◌==◌, if◌then◌else◌, assert, ◌>>=◌,
  ◌>>◌,
}
use leveldb_rs.KeyTypes.{max_sequence_number}

-- The list that `InnerSnapshot.sl` shares is the state that the operations pass on.
pub record Snapshot : Type 0 where
  pub id : ℕ
  pub seq : ℕ

pub record SnapshotList : Type 0 where
  pub map : List (ℕ × ℕ)
  pub newest_handle : ℕ
  pub oldest_handle : ℕ

unfoldable pub new : SnapshotList
new = record { map = []; newest_handle = 0; oldest_handle = 0 }

-- `map.remove(&id)`.
unfoldable pub remove : List (ℕ × ℕ) → ℕ → List (ℕ × ℕ)
remove [] id = []
remove ((k, v) ∷ m) id = let rest = remove m id in if k == id then rest else (k, v) ∷ rest

-- `map.insert(id, seq)`; where the new entry stands in the iteration is not known to a caller.
abbrev pub insert : List (ℕ × ℕ) → ℕ → ℕ → List (ℕ × ℕ)
insert m id seq = (id, seq) ∷ remove m id

-- The handle is a u64; its increment overflows after 2^64 snapshots.
unfoldable pub new_snapshot : SnapshotList → ℕ → Option (SnapshotList × Snapshot)
new_snapshot sl seq = do
  assert (ltb (sl.newest_handle + 1) (2 ^ 64))
  let newest = sl.newest_handle + 1
  some (
    record {
      map = insert sl.map newest seq;
      newest_handle = newest;
      oldest_handle = if sl.oldest_handle == 0 then newest else sl.oldest_handle;
    },
    record { id = newest; seq = seq },
  )

pub sequence : Snapshot → ℕ
sequence s = s.seq

-- The closures name a map's key `seq`: it is the handle.
unfoldable pub fold_oldest : ℕ → List (ℕ × ℕ) → ℕ
fold_oldest s [] = s
fold_oldest s ((k, v) ∷ m) = fold_oldest (if ltb k s then k else s) m

unfoldable pub oldest : SnapshotList → ℕ
oldest sl =
    let o = fold_oldest max_sequence_number sl.map in if o == max_sequence_number then 0 else o

unfoldable pub fold_newest : ℕ → List (ℕ × ℕ) → ℕ
fold_newest s [] = s
fold_newest s ((k, v) ∷ m) = fold_newest (if ltb s k then k else s) m

unfoldable pub newest : SnapshotList → ℕ
newest sl = fold_newest 0 sl.map

unfoldable pub empty : SnapshotList → Bool
empty sl = sl.oldest_handle == 0

-- What dropping the last clone of a snapshot does.
unfoldable pub delete : SnapshotList → ℕ → SnapshotList
delete sl id = record {
  map = remove sl.map id;
  newest_handle = sl.newest_handle;
  oldest_handle = sl.oldest_handle;
}

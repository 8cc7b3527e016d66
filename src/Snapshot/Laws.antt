-- ===== src/Snapshot/Laws.antt =====
-- What new_snapshot, oldest, newest, empty and delete of src/snapshot.rs do to the list.
use mathlib.Core.Path.{subst⁻¹}
use mathlib.Core.Path.{subst}
use leveldb_rs.Base.{ap, ◌∙◌}
use leveldb_rs.Base.{lt→ltb}
use leveldb_rs.Base.{
  ℕ, ◌+◌, ◌≤◌, ◌<◌, Bool, true, sym, ◌≡◌, refl, arith, false, some, List, [], ◌∷◌, ltb, ◌==◌, All,
  if◌then◌else◌, Bool-cases, inl, inr,
}
use leveldb_rs.Snapshot.{
  Snapshot, SnapshotList, new, remove, insert, new_snapshot, fold_oldest, fold_newest, newest,
  empty, delete,
}

-- The handles of a map's entries were given out, the first being 1.
abbrev pub IsHandle : ℕ → ℕ × ℕ → Type 0
IsHandle n e = (0 < e.0) × (e.0 ≤ n)

-- One operation on the shared list.
pub data Step : SnapshotList → SnapshotList → Type 0 where
  taken :
      (sl sl' : SnapshotList) (s : Snapshot) (seq : ℕ)
      → new_snapshot sl seq ≡ some (sl', s)
      → Step sl sl'
  dropped : (sl sl' : SnapshotList) (id : ℕ) → delete sl id ≡ sl' → Step sl sl'

pub data Reachable : SnapshotList → Type 0 where
  start : Reachable new
  after : (sl sl' : SnapshotList) → Reachable sl → Step sl sl' → Reachable sl'

All-weaken : (m : List (ℕ × ℕ)) (n n' : ℕ) → n ≤ n' → All (IsHandle n) m → All (IsHandle n') m
All-weaken [] n n' h p = tt
All-weaken (e ∷ m) n n' h p = ((p.0.0, omega (arith, p.0.1)), All-weaken m n n' h p.1)

All-remove : (m : List (ℕ × ℕ)) (n id : ℕ) → All (IsHandle n) m → All (IsHandle n) (remove m id)
unfolding remove
All-remove [] n id p = tt
All-remove ((k, v) ∷ m) n id p = elim (Bool-cases (k == id)) [
  | inl e ↦ rw e (All-remove m n id p.1)
  | inr e ↦ rw e (p.0, All-remove m n id p.1)
]

-- The handle counts up; the fold starts at 0 and finds the largest handle.
fold_newest-le :
    (m : List (ℕ × ℕ)) (n s : ℕ)
    → s ≤ n
    → All (IsHandle n) m
    → (fold_newest s m ≤ n) × (s ≤ fold_newest s m)
unfolding fold_newest
fold_newest-le [] n s h p = (h, omega arith)
fold_newest-le ((k, v) ∷ m) n s h p = elim (Bool-cases (ltb s k)) [
  | inl e ↦ let ih = fold_newest-le m n k p.0.1 p.1 in ground (arith, e, ih)
  | inr e ↦ let ih = fold_newest-le m n s h p.1 in ground (arith, e, ih)
]

fold_oldest-le : (m : List (ℕ × ℕ)) (s : ℕ) → fold_oldest s m ≤ s
unfolding fold_oldest
fold_oldest-le [] s = omega arith
fold_oldest-le ((k, v) ∷ m) s = elim (Bool-cases (ltb k s)) [
  | inl e ↦ let ih = fold_oldest-le m k in ground (arith, e, ih)
  | inr e ↦ let ih = fold_oldest-le m s in ground (arith, e, ih)
]

-- The list after a snapshot was taken.
pub new_snapshot-inv :
    (sl sl' : SnapshotList) (s : Snapshot) (seq : ℕ)
    → new_snapshot sl seq ≡ some (sl', s)
    → (sl'.map ≡ insert sl.map (sl.newest_handle + 1) seq)
      × (sl'.newest_handle ≡ sl.newest_handle + 1)
      × (s.id ≡ sl.newest_handle + 1)
      × (s.seq ≡ seq)
      × (0 < sl'.oldest_handle)
unfolding new_snapshot
new_snapshot-inv sl sl' s seq h = ground arith

delete-IsHandle :
    (sl : SnapshotList) (id : ℕ)
    → All (IsHandle sl.newest_handle) sl.map
    → All (IsHandle (delete sl id).newest_handle) (delete sl id).map
unfolding delete
delete-IsHandle sl id p = All-remove sl.map sl.newest_handle id p

new_snapshot-IsHandle :
    (sl sl' : SnapshotList) (s : Snapshot) (seq : ℕ)
    → new_snapshot sl seq ≡ some (sl', s)
    → All (IsHandle sl.newest_handle) sl.map
    → All (IsHandle sl'.newest_handle) sl'.map
new_snapshot-IsHandle sl sl' s seq e p =
    let n = sl.newest_handle + 1 in
    let q = new_snapshot-inv sl sl' s seq e in
    let m = All-remove sl.map n n (All-weaken sl.map sl.newest_handle n (omega arith) p) in
    let all : All (IsHandle n) (insert sl.map n seq) = ((omega arith, omega arith), m) in
    subst⁻¹ (λ t. All (IsHandle t) sl'.map) q.1 (subst⁻¹ (λ t. All (IsHandle n) t) q.0 all)

step-IsHandle :
    (sl sl' : SnapshotList)
    → Step sl sl'
    → All (IsHandle sl.newest_handle) sl.map
    → All (IsHandle sl'.newest_handle) sl'.map
step-IsHandle sl sl' (taken _ _ s seq e) p = new_snapshot-IsHandle sl sl' s seq e p
step-IsHandle sl sl' (dropped _ _ id e) p =
    subst (λ t. All (IsHandle t.newest_handle) t.map) e (delete-IsHandle sl id p)

-- In every reachable list all handles were given out.
pub Reachable-IsHandle : (sl : SnapshotList) → Reachable sl → All (IsHandle sl.newest_handle) sl.map
unfolding new
Reachable-IsHandle sl start = tt
Reachable-IsHandle sl (after sl0 _ r step) = step-IsHandle sl0 sl step (Reachable-IsHandle sl0 r)

-- In every reachable list, newest() answers at most the handle given out last; just after a snapshot
-- was taken, it answers that snapshot's handle.
pub newest-new_snapshot :
    (sl sl' : SnapshotList) (s : Snapshot) (seq : ℕ)
    → Reachable sl
    → new_snapshot sl seq ≡ some (sl', s)
    → (newest sl ≤ sl.newest_handle)
      × (newest sl' ≡ s.id)
      × (s.id ≡ sl.newest_handle + 1)
      × (s.seq ≡ seq)
unfolding newest fold_newest
newest-new_snapshot sl sl' s seq r e =
    let p = Reachable-IsHandle sl r in
    let q = new_snapshot-inv sl sl' s seq e in
    let n = sl.newest_handle + 1 in
    let m = All-remove sl.map n n (All-weaken sl.map sl.newest_handle n (omega arith) p) in
    let f = fold_newest-le (remove sl.map n) n n (omega arith) m in
    (
      (fold_newest-le sl.map sl.newest_handle 0 (omega arith) p).0,
      ap (λ t. fold_newest 0 t) q.0
          ∙ ap (λ b. fold_newest (if b then n else 0) (remove sl.map n)) (lt→ltb 0 n (omega arith))
          ∙ omega (arith, f, q.2),
      q.2,
      q.3,
    )

-- Some operations on the shared list.
pub data Steps : SnapshotList → SnapshotList → Type 0 where
  done : (sl : SnapshotList) → Steps sl sl
  more : (sl sl' sl'' : SnapshotList) → Step sl sl' → Steps sl' sl'' → Steps sl sl''

-- Only the first snapshot of all sets the field that empty tests; nothing resets it.
Step-oldest_handle :
    (sl sl' : SnapshotList) → Step sl sl' → 0 < sl.oldest_handle → 0 < sl'.oldest_handle
unfolding delete
Step-oldest_handle sl sl' (taken _ _ s seq e) h = (new_snapshot-inv sl sl' s seq e).4
Step-oldest_handle sl sl' (dropped _ _ id e) h = subst (λ t. 0 < t.oldest_handle) e h

Steps-oldest_handle :
    (sl sl' : SnapshotList) → Steps sl sl' → 0 < sl.oldest_handle → 0 < sl'.oldest_handle
Steps-oldest_handle sl sl' (done _) h = h
Steps-oldest_handle sl sl' (more _ mid _ step steps) h =
    Steps-oldest_handle mid sl' steps (Step-oldest_handle sl mid step h)

oldest_handle-empty : (sl : SnapshotList) → 0 < sl.oldest_handle → empty sl ≡ false
unfolding empty
oldest_handle-empty sl h = ground arith

-- The last clones of snapshots with these handles are dropped, one after the other.
unfoldable pub delete_all : List ℕ → SnapshotList → SnapshotList
delete_all [] sl = sl
delete_all (id ∷ ids) sl = delete_all ids (delete sl id)

unfoldable pub handles : List (ℕ × ℕ) → List ℕ
handles [] = []
handles ((k, v) ∷ m) = k ∷ handles m

delete_all-oldest_handle :
    (ids : List ℕ) (sl : SnapshotList) → (delete_all ids sl).oldest_handle ≡ sl.oldest_handle
unfolding delete_all delete
delete_all-oldest_handle [] sl = refl
delete_all-oldest_handle (id ∷ ids) sl = delete_all-oldest_handle ids (delete sl id)

unfoldable has : List ℕ → ℕ → Bool
has [] k = false
has (id ∷ ids) k = if k == id then true else has ids k

abbrev Has : List ℕ → ℕ × ℕ → Type 0
Has ids e = has ids e.0 ≡ true

Has-remove :
    (m : List (ℕ × ℕ)) (id : ℕ) (ids : List ℕ)
    → All (Has (id ∷ ids)) m
    → All (Has ids) (remove m id)
unfolding remove has
Has-remove [] id ids p = tt
Has-remove ((k, v) ∷ m) id ids p = elim (Bool-cases (k == id)) [
  | inl e ↦ rw e (Has-remove m id ids p.1)
  | inr e ↦ rw e (ap (λ b. if b then true else has ids k) (sym e) ∙ p.0, Has-remove m id ids p.1)
]

Has-more : (m : List (ℕ × ℕ)) (id : ℕ) (ids : List ℕ) → All (Has ids) m → All (Has (id ∷ ids)) m
unfolding has
Has-more [] id ids p = tt
Has-more ((k, v) ∷ m) id ids p = (let q = p.0 in ground arith, Has-more m id ids p.1)

Has-handles : (m : List (ℕ × ℕ)) → All (Has (handles m)) m
unfolding handles has
Has-handles [] = tt
Has-handles ((k, v) ∷ m) = (ground arith, Has-more m k (handles m) (Has-handles m))

no_entry : (m : List (ℕ × ℕ)) → All (Has []) m → m ≡ []
unfolding has
no_entry [] p = refl
no_entry (e ∷ m) p = absurd (let q : false ≡ true = p.0 in cc)

delete_all-map :
    (ids : List ℕ) (sl : SnapshotList) → All (Has ids) sl.map → (delete_all ids sl).map ≡ []
unfolding delete_all delete
delete_all-map [] sl p = no_entry sl.map p
delete_all-map (id ∷ ids) sl p = delete_all-map ids (delete sl id) (Has-remove sl.map id ids p)

-- Once a snapshot was taken, empty() answers false after any steps that follow, and it still does when
-- then the snapshots of all handles in the map are dropped, which leaves no entry in the map.
pub empty_after_snapshot :
    (sl sl1 sl2 : SnapshotList) (s : Snapshot) (seq : ℕ)
    → new_snapshot sl seq ≡ some (sl1, s)
    → Steps sl1 sl2
    → (empty sl2 ≡ false)
      × ((delete_all (handles sl2.map) sl2).map ≡ [])
      × (empty (delete_all (handles sl2.map) sl2) ≡ false)
empty_after_snapshot sl sl1 sl2 s seq e steps =
    let h = Steps-oldest_handle sl1 sl2 steps (new_snapshot-inv sl sl1 s seq e).4 in
    let ids = handles sl2.map in
    (
      oldest_handle-empty sl2 h,
      delete_all-map ids sl2 (Has-handles sl2.map),
      oldest_handle-empty (delete_all ids sl2)
          (subst⁻¹ (λ n. 0 < n) (delete_all-oldest_handle ids sl2) h),
    )

-- ===== src/MergingIter.antt =====
-- src/merging_iter.rs: several iterators as one, in the order of their keys. The iterators are values
-- of one type with the operations of LdbIterator; `rounds` bounds the entries of one.
pub mod Smallest
pub mod Forward
pub mod Start
mod Tests
use leveldb_rs.Base.{
  ℕ, zero, suc, ◌+◌, Bool, true, false, not, Option, none, some, List, [], ◌∷◌, length, set, ◌==◌,
  if◌then◌else◌, Ordering, is_eq, is_lt, ◌>>=◌,
}
use leveldb_rs.Coding.{Bytes}
use leveldb_rs.Cmp.{Cmp}
use leveldb_rs.Iterator.{LdbIterator, Direction, forward, reverse}
use leveldb_rs.SkipMap.{at}
use leveldb_rs.Version.{is_gt}

pub record MergingIter (T : Type 0) : Type 0 where
  pub iters : List T
  pub current : Option ℕ
  pub direction : Direction

-- Which end `find` looks for.
pub data Sl : Type 0 where
  smallest largest : Sl

unfoldable pub new : {T : Type 0} → List T → MergingIter T
new iters = record { iters = iters; current = none; direction = forward }

-- `for i in 0..self.iters.len()`, on every iterator, or on all but one.
unfoldable pub each : {T : Type 0} → (T → Option T) → List T → Option (List T)
each f [] = some []
each f (t ∷ ts) = do t' ← f t; ts' ← each f ts; some (t' ∷ ts')

unfoldable pub each_other : {T : Type 0} → (T → Option T) → ℕ → List T → Option (List T)
each_other f ix [] = some []
each_other f zero (t ∷ ts) = do ts' ← each f ts; some (t ∷ ts')
each_other f (suc ix) (t ∷ ts) = do t' ← f t; ts' ← each_other f ix ts; some (t' ∷ ts')

abbrev pub is_ord : Sl → Ordering → Bool
is_ord smallest o = is_lt o
is_ord largest o = is_gt o

module _ {T : Type 0} (iter : LdbIterator T) (c : Cmp) where
  -- `next_ix` and the iterator there, against those from `i` on.
  unfoldable pub find_loop : Sl → ℕ → T → ℕ → List T → Option ℕ
  find_loop sl next_ix next i [] = some next_ix
  find_loop sl next_ix next i (t ∷ ts) = do
    here ← iter.current t
    best ← iter.current next
    better ← elim here [
      | none ↦ some false
      | some (k, v) ↦ elim best [
        | none ↦ some true
        | some (k', v') ↦ do o ← c.cmp k k'; some (is_ord sl o)
      ]
    ]
    find_loop sl (if better then i else next_ix) (if better then t else next) (i + 1) ts

  unfoldable pub find : Sl → MergingIter T → Option (MergingIter T)
  find sl m = elim m.iters [
    | [] ↦ some m
    | t ∷ ts ↦ do ix ← find_loop sl 0 t 1 ts; some (record m { current = some ix })
  ]

  unfoldable pub init_one : T → Option T
  init_one t = do
    (_, t') ← iter.advance (iter.reset t)
    some (if iter.valid t' then t' else iter.reset t')

  unfoldable pub init : MergingIter T → Option (MergingIter T)
  init m = do ts ← each init_one m.iters; find smallest (record m { iters = ts })

  unfoldable pub valid : MergingIter T → Option Bool
  valid m = elim m.current [
    | none ↦ some false
    | some ix ↦ do t ← at m.iters ix; some (iter.valid t)
  ]

  unfoldable pub current : MergingIter T → Option (Option (Bytes × Bytes))
  current m = elim m.current [ none ↦ some none | some ix ↦ do t ← at m.iters ix; iter.current t ]

  -- `while self.iters[i].advance() {}`.
  unfoldable pub exhaust : ℕ → T → Option T
  exhaust zero t = none
  exhaust (suc fuel) t = do
    (more, t') ← iter.advance t
    elim more [ false ↦ some t' | true ↦ exhaust fuel t' ]

  -- To the first entry behind `key`, or to the last one before it.
  unfoldable pub to_after : Bytes → T → Option T
  to_after key t = do
    t' ← iter.seek t key
    here ← iter.current t'
    elim here [
      | none ↦ some t'
      | some (k, v) ↦ do
        o ← c.cmp k key
        elim (is_eq o) [ false ↦ some t' | true ↦ do (_, t'') ← iter.advance t'; some t'' ]
    ]

  -- The other iterators to one side of the current entry; nothing changes if there is none.
  unfoldable pub turn : Direction → (Bytes → T → Option T) → MergingIter T → Option (MergingIter T)
  turn d move m = do
    here ← current m
    elim here [
      | none ↦ some m
      | some (key, v) ↦ elim m.current [
        | none ↦ some m
        | some ix ↦ do
          ts ← each_other (move key) ix m.iters
          some (record m { iters = ts; direction = d })
      ]
    ]

  -- The current iterator goes on; if it is at its end it is reset, and so passed over from here on.
  unfoldable pub step_current : ℕ → MergingIter T → Option (MergingIter T)
  step_current ix m = do
    t ← at m.iters ix
    (more, t') ← iter.advance t
    some (record m { iters = set m.iters ix (if more then t' else iter.reset t') })

  unfoldable pub seek : MergingIter T → Bytes → Option (MergingIter T)
  seek m key = do ts ← each (λ t. iter.seek t key) m.iters; find smallest (record m { iters = ts })

  unfoldable pub reset : MergingIter T → Option (MergingIter T)
  reset m = do
    ts ← each (λ t. some (iter.reset t)) m.iters
    some (record m { iters = ts; current = none })

  module _ (rounds : ℕ) where
    unfoldable pub to_before : Bytes → T → Option T
    to_before key t = do
      t' ← iter.seek t key
      elim (iter.valid t') [
        | true ↦ do (_, t'') ← iter.prev t'; some t''
        | false ↦ exhaust (suc rounds) t'
      ]

    unfoldable pub update_direction : Direction → MergingIter T → Option (MergingIter T)
    update_direction forward m = elim m.direction [
      | forward ↦ some m
      | reverse ↦ turn forward to_after m
    ]
    update_direction reverse m = elim m.direction [
      | reverse ↦ some m
      | forward ↦ turn reverse to_before m
    ]

    unfoldable pub advance : MergingIter T → Option (Bool × MergingIter T)
    advance m = do
      m' ← elim m.current [
        | none ↦ init m
        | some ix ↦ do
          turned ← update_direction forward m
          stepped ← step_current ix turned
          find smallest stepped
      ]
      v ← valid m'
      some (v, m')

    unfoldable pub prev_from : ℕ → MergingIter T → Option (Bool × MergingIter T)
    prev_from ix m = do
      turned ← update_direction reverse m
      t ← at turned.iters ix
      (_, t') ← iter.prev t
      m' ← find largest (record turned { iters = set turned.iters ix t' })
      v ← valid m'
      some (v, m')

    unfoldable pub prev : MergingIter T → Option (Bool × MergingIter T)
    prev m = elim m.current [
      | none ↦ some (false, m)
      | some ix ↦ do
        t ← at m.iters ix
        elim (iter.valid t) [ true ↦ prev_from ix m | false ↦ some (false, m) ]
    ]

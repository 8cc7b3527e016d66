-- ===== src/MergingIter/Start.antt =====
-- The first advance of src/merging_iter.rs, which puts every iterator at its first row.
use leveldb_rs.Base.{ℕ, ◌≡◌, refl, Bool, true, false, none, some, List, [], ◌∷◌, ◌>>=◌}
use leveldb_rs.Cmp.{Cmp}
use leveldb_rs.Cmp.Order.{IsTotal}
use leveldb_rs.Iterator.{LdbIterator, forward, Row, IsForward}
use leveldb_rs.MergingIter.{
  MergingIter, smallest, new, each, init_one, init, find, valid, current, advance,
}
use leveldb_rs.MergingIter.Smallest.{Stand}
use leveldb_rs.MergingIter.Forward.{is_more, head, Shows, find-Shows, valid-Shows, current-Shows}

-- What a client relies on: `Holds t rows` says that the iterator, once it is reset, moves over `rows`.
pub record IsFresh {T : Type 0} (iter : LdbIterator T) (Ahead Holds : T → List Row → Type 0)
    : Type 0 where
  pub start_more :
      (t : T) (e : Row) (es : List Row)
      → Holds t (e ∷ es)
      → (t' : T) × (iter.advance (iter.reset t) ≡ some (true, t')) × Ahead t' (e ∷ es)
  pub start_end :
      (t : T)
      → Holds t []
      → (t' : T) × (iter.advance (iter.reset t) ≡ some (false, t'))
        × (iter.valid t' ≡ false)
        × Ahead (iter.reset t') []

module _ {c : Cmp} (o : IsTotal c) {T : Type 0} {iter : LdbIterator T}
    {Ahead Holds : T → List Row → Type 0} (fwd : IsForward iter Ahead)
    (fresh : IsFresh iter Ahead Holds) where
  abbrev pub Hold : List T → List (List Row) → Type 0
  Hold [] [] = Unit {0}
  Hold [] (l ∷ ls) = ⊥
  Hold (t ∷ ts) [] = ⊥
  Hold (t ∷ ts) (l ∷ ls) = Holds t l × Hold ts ls

  init_one-Ahead :
      (t : T) (l : List Row) → Holds t l → (t' : T) × (init_one iter c t ≡ some t') × Ahead t' l
  unfolding init_one
  init_one-Ahead t [] h =
      let (t', q, v, a) = fresh.start_end t h in (iter.reset t', rw (init_one, q, ◌>>=◌, v) refl, a)
  init_one-Ahead t (e ∷ es) h =
      let (t', q, a) = fresh.start_more t e es h in
      (t', rw (init_one, q, ◌>>=◌, fwd.valid_more t' e es a) refl, a)

  each-Stand :
      (ts : List T) (ls : List (List Row))
      → Hold ts ls
      → (ts' : List T) × (each (init_one iter c) ts ≡ some ts') × Stand o fwd ts' ls
  unfolding each
  each-Stand [] [] h = ([], refl, tt)
  each-Stand [] (l ∷ ls) h = absurd h
  each-Stand (t ∷ ts) [] h = absurd h
  each-Stand (t ∷ ts) (l ∷ ls) h =
      let (t', q, a) = init_one-Ahead t l h.0 in
      let (ts', q', a') = each-Stand ts ls h.1 in
      (t' ∷ ts', rw (each, q, ◌>>=◌, q', ◌>>=◌) refl, (a, a'))

  advance-first :
      (rounds : ℕ) (ts ts' : List T) (m : MergingIter T) (b : Bool)
      → each (init_one iter c) ts ≡ some ts'
      → find iter c smallest (record { iters = ts'; current = none; direction = forward }) ≡ some m
      → valid iter c m ≡ some b
      → advance iter c rounds (new ts) ≡ some (b, m)
  unfolding advance init new
  advance-first rounds ts ts' m b q f v = rw (advance, init, new, q, ◌>>=◌, f, ◌>>=◌, v, ◌>>=◌) refl

  -- Let a new merging iterator have iterators, one at least, that hold the rows `ls`. The first advance
  -- does not panic and shows a row whose key is not behind that of any other; its answer is whether there
  -- is one.
  pub advance-new :
      (rounds : ℕ) (ts : List T) (l : List Row) (ls : List (List Row))
      → Hold ts (l ∷ ls)
      → (m : MergingIter T) × (s : Shows o fwd m (l ∷ ls)) × (advance iter c rounds (new ts)
          ≡ some (is_more s.rows, m))
        × (current iter c m ≡ some (head s.rows))
  advance-new rounds ts l ls h =
      let (ts', q, a) = each-Stand ts (l ∷ ls) h in
      let (m, f, s) =
        find-Shows o fwd (record { iters = ts'; current = none; direction = forward }) (l ∷ ls) 0 l
          a refl refl in
      (
        m,
        s,
        advance-first rounds ts ts' m (is_more s.rows) q f (valid-Shows o fwd m (l ∷ ls) s),
        current-Shows o fwd m (l ∷ ls) s,
      )

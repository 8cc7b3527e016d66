-- ===== src/MergingIter/Forward.antt =====
-- advance of src/merging_iter.rs, as long as the iterator moves forward.
use leveldb_rs.Base.{
  ℕ, zero, suc, ◌≡◌, refl, ap, sym, ◌∙◌, arith, Bool, true, false, Option, none, some, List, [],
  ◌∷◌, All, set, ◌>>=◌, inl, inr,
}
use mathlib.Core.Path.{subst}
use mathlib.Core.Option.{some-injective}
use leveldb_rs.Cmp.{Cmp}
use leveldb_rs.Cmp.Order.{IsTotal}
use leveldb_rs.Iterator.{LdbIterator, forward, Row, IsForward}
use leveldb_rs.SkipMap.{at}
use leveldb_rs.MergingIter.{
  MergingIter, smallest, find, valid, current, update_direction, step_current, advance,
}
use leveldb_rs.MergingIter.Smallest.{Leads, Leads-refl, Stand, find_loop-Best}

abbrev pub head : List Row → Option Row
head [] = none
head (e ∷ es) = some e

abbrev pub is_more : List Row → Bool
is_more [] = false
is_more (e ∷ es) = true

module _ {c : Cmp} (o : IsTotal c) {T : Type 0} {iter : LdbIterator T}
    {Ahead : T → List Row → Type 0} (fwd : IsForward iter Ahead) where
  Stand-at :
      (ts : List T) (ls : List (List Row)) (ix : ℕ) (l : List Row)
      → Stand o fwd ts ls
      → at ls ix ≡ some l
      → (t : T) × (at ts ix ≡ some t) × Ahead t l
  Stand-at [] [] ix l h e = cc
  Stand-at [] (l' ∷ ls) ix l h e = absurd h
  Stand-at (t ∷ ts) [] ix l h e = absurd h
  Stand-at (t ∷ ts) (l' ∷ ls) zero l h e = (t, refl, subst (Ahead t) (some-injective l' l e) h.0)
  Stand-at (t ∷ ts) (l' ∷ ls) (suc ix) l h e = Stand-at ts ls ix l h.1 e

  Stand-set :
      (ts : List T) (ls : List (List Row)) (ix : ℕ) (t : T) (l : List Row)
      → Stand o fwd ts ls
      → Ahead t l
      → Stand o fwd (set ts ix t) (set ls ix l)
  Stand-set [] [] ix t l h a = tt
  Stand-set [] (l' ∷ ls) ix t l h a = absurd h
  Stand-set (t' ∷ ts) [] ix t l h a = absurd h
  Stand-set (t' ∷ ts) (l' ∷ ls) zero t l h a = (a, h.1)
  Stand-set (t' ∷ ts) (l' ∷ ls) (suc ix) t l h a = (h.0, Stand-set ts ls ix t l h.1 a)

  -- The iterators stand at `ls`, and the current one is one whose rows lead all.
  pub record Shows (m : MergingIter T) (ls : List (List Row)) : Type 0 where
    pub stand : Stand o fwd m.iters ls
    pub is_forward : m.direction ≡ forward
    pub ix : ℕ
    pub rows : List Row
    pub current_ix : m.current ≡ some ix
    pub rows_at : at ls ix ≡ some rows
    pub lead : All (Leads o rows) ls

  -- It is valid as long as there are rows, and shows their first.
  pub valid-Shows :
      (m : MergingIter T) (ls : List (List Row)) (s : Shows m ls)
      → valid iter c m ≡ some (is_more s.rows)
  unfolding valid
  valid-Shows m ls s =
      let (t, q, a) = Stand-at m.iters ls s.ix s.rows s.stand s.rows_at in
      rw (valid, s.current_ix, q, ◌>>=◌) (ap some (valid_of t s.rows a))
    where
      valid_of : (t : T) (l : List Row) → Ahead t l → iter.valid t ≡ is_more l
      valid_of t [] a = fwd.valid_end t a
      valid_of t (e ∷ es) a = fwd.valid_more t e es a

  pub current-Shows :
      (m : MergingIter T) (ls : List (List Row)) (s : Shows m ls)
      → current iter c m ≡ some (head s.rows)
  unfolding current
  current-Shows m ls s =
      let (t, q, a) = Stand-at m.iters ls s.ix s.rows s.stand s.rows_at in
      rw (current, s.current_ix, q, ◌>>=◌) (current_of t s.rows a)
    where
      current_of : (t : T) (l : List Row) → Ahead t l → iter.current t ≡ some (head l)
      current_of t [] a = fwd.current_end t a
      current_of t (e ∷ es) a = fwd.current_more t e es a

  find-Shows-of :
      (m : MergingIter T) (its : List T) (l : List Row) (ls : List (List Row))
      → m.iters ≡ its
      → Stand o fwd its (l ∷ ls)
      → m.direction ≡ forward
      → (m' : MergingIter T) × (find iter c smallest m ≡ some m') × Shows m' (l ∷ ls)
  unfolding find
  find-Shows-of m [] l ls q h d = absurd h
  find-Shows-of m (t ∷ ts) l ls q h d =
      let (r, e, best) = find_loop-Best o fwd ts ls 0 1 t l h.0 h.1 in
      let m' = record m { current = some r } in
      let found : find iter c smallest m ≡ some m' =
        rw (find, q, e, ◌>>=◌) (λ i. some (record m' { iters = q i })) in
      let stand : Stand o fwd m'.iters (l ∷ ls) = subst (λ x. Stand o fwd x (l ∷ ls)) (sym q) h in
      (
        m',
        found,
        elim best [
          | inl (z, a) ↦ record {
            stand = stand;
            is_forward = d;
            ix = 0;
            rows = l;
            current_ix = ap some z;
            rows_at = refl;
            lead = (Leads-refl o l, a);
          }
          | inr (j, l', z, k, b, a) ↦ record {
            stand = stand;
            is_forward = d;
            ix = suc j;
            rows = l';
            current_ix = ap some (omega (arith, z));
            rows_at = k;
            lead = (b, a);
          }
        ],
      )

  pub find-Shows :
      (m : MergingIter T) (ls : List (List Row)) (ix : ℕ) (l : List Row)
      → Stand o fwd m.iters ls
      → at ls ix ≡ some l
      → m.direction ≡ forward
      → (m' : MergingIter T) × (find iter c smallest m ≡ some m') × Shows m' ls
  find-Shows m [] ix l h k d = cc
  find-Shows m (l' ∷ ls) ix l h k d = find-Shows-of m m.iters l' ls refl h d

  at-set :
      (ls : List (List Row)) (ix : ℕ) (l l' : List Row)
      → at ls ix ≡ some l
      → at (set ls ix l') ix ≡ some l'
  at-set [] ix l l' h = cc
  at-set (x ∷ ls) zero l l' h = refl
  at-set (x ∷ ls) (suc ix) l l' h = at-set ls ix l l' h

  step_current-Stand :
      (m : MergingIter T) (ls : List (List Row)) (ix : ℕ) (e : Row) (es : List Row)
      → Stand o fwd m.iters ls
      → at ls ix ≡ some (e ∷ es)
      → (ts : List T) × (step_current iter c ix m ≡ some (record m { iters = ts }))
        × Stand o fwd ts (set ls ix es)
  unfolding step_current
  step_current-Stand m ls ix e [] h k =
      let (t, q, a) = Stand-at m.iters ls ix (e ∷ []) h k in
      let (t', z, a') = fwd.advance_end t e a in
      (
        set m.iters ix (iter.reset t'),
        rw (step_current, q, ◌>>=◌, z, ◌>>=◌) refl,
        Stand-set m.iters ls ix (iter.reset t') [] h a',
      )
  step_current-Stand m ls ix e (e' ∷ es) h k =
      let (t, q, a) = Stand-at m.iters ls ix (e ∷ e' ∷ es) h k in
      let (t', z, a') = fwd.advance_more t e e' es a in
      (
        set m.iters ix t',
        rw (step_current, q, ◌>>=◌, z, ◌>>=◌) refl,
        Stand-set m.iters ls ix t' (e' ∷ es) h a',
      )

  advance-steps :
      (rounds : ℕ) (m m' : MergingIter T) (ix : ℕ) (ts : List T) (b : Bool)
      → m.current ≡ some ix
      → m.direction ≡ forward
      → step_current iter c ix m ≡ some (record m { iters = ts })
      → find iter c smallest (record m { iters = ts }) ≡ some m'
      → valid iter c m' ≡ some b
      → advance iter c rounds m ≡ some (b, m')
  unfolding advance update_direction
  advance-steps rounds m m' ix ts b cur d z f v =
      let turned : update_direction iter c rounds forward m ≡ some m =
        rw (update_direction, d) (λ i. some (record m { direction = d i })) in
      rw (advance, cur, turned, ◌>>=◌, z, ◌>>=◌, f, ◌>>=◌, v, ◌>>=◌) refl

  -- Let a merging iterator that moves forward show the first of some rows, with iterators that stand at
  -- `ls`. Then advance does not panic, takes that row and no other away, and shows a row of the rest whose
  -- key is not behind that of any other; its answer is whether there is one.
  pub advance-Shows :
      (rounds : ℕ) (m : MergingIter T) (ls : List (List Row)) (s : Shows m ls) (e : Row)
      (es : List Row)
      → s.rows ≡ e ∷ es
      → (m' : MergingIter T) × (s' : Shows m' (set ls s.ix es)) × (advance iter c rounds m
          ≡ some (is_more s'.rows, m'))
        × (current iter c m' ≡ some (head s'.rows))
  advance-Shows rounds m ls s e es q =
      let k : at ls s.ix ≡ some (e ∷ es) = s.rows_at ∙ ap some q in
      let (ts, z, h) = step_current-Stand m ls s.ix e es s.stand k in
      let (m', f, s') =
        find-Shows (record m { iters = ts }) (set ls s.ix es) s.ix es h
          (at-set ls s.ix (e ∷ es) es k) s.is_forward in
      (
        m',
        s',
        advance-steps rounds m m' s.ix ts (is_more s'.rows) s.current_ix s.is_forward z f
            (valid-Shows m' (set ls s.ix es) s'),
        current-Shows m' (set ls s.ix es) s',
      )

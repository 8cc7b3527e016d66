-- ===== src/MergingIter/Smallest.antt =====
-- find of src/merging_iter.rs: the iterator with the smallest key.
use leveldb_rs.Base.{
  ℕ, suc, ◌+◌, ◌≡◌, ◌≢◌, refl, ap, ◌∙◌, arith, some, List, [], ◌∷◌, All, Bool-cases, Ordering-cases,
  Ordering, is_lt, ◌>>=◌, ◌⊎◌, inl, inr,
}
use leveldb_rs.Coding.{Bytes}
use leveldb_rs.Cmp.{Cmp}
use leveldb_rs.Cmp.Order.{IsTotal}
use leveldb_rs.Iterator.{LdbIterator, Row, IsForward}
use leveldb_rs.SkipMap.{at}
use leveldb_rs.MergingIter.{smallest, find_loop}

module _ {c : Cmp} (o : IsTotal c) where
  -- The first list's head is not behind the second's; an empty list is behind all.
  abbrev pub Leads : List Row → List Row → Type 0
  Leads [] [] = Unit {0}
  Leads [] (x ∷ xs) = ⊥
  Leads (e ∷ es) [] = Unit {0}
  Leads (e ∷ es) (x ∷ xs) = o.order x.0 e.0 ≢ Ordering.lt

  pub Leads-refl : (l : List Row) → Leads l l
  Leads-refl [] = tt
  Leads-refl (e ∷ es) = λ h. absurd (ground (arith, h, o.order_refl e.0))

  not_lt_trans :
      (x y z : Bytes)
      → o.order y x ≢ Ordering.lt
      → o.order z y ≢ Ordering.lt
      → o.order z x ≢ Ordering.lt
  not_lt_trans x y z h k q = elim (Ordering-cases (o.order y z)) [
    | inl e ↦ h (o.order_trans y z x e q)
    | inr (inl e) ↦ h (ap (λ w. o.order w x) (o.eq_of_order y z e) ∙ q)
    | inr (inr e) ↦ k (o.lt_of_order y z e)
  ]

  Leads-trans : (l m n : List Row) → Leads l m → Leads m n → Leads l n
  Leads-trans [] [] n h k = k
  Leads-trans [] (y ∷ ys) n h k = absurd h
  Leads-trans (x ∷ xs) [] [] h k = tt
  Leads-trans (x ∷ xs) [] (z ∷ zs) h k = absurd k
  Leads-trans (x ∷ xs) (y ∷ ys) [] h k = tt
  Leads-trans (x ∷ xs) (y ∷ ys) (z ∷ zs) h k = not_lt_trans x.0 y.0 z.0 h k

  module _ {T : Type 0} {iter : LdbIterator T} {Ahead : T → List Row → Type 0}
      (fwd : IsForward iter Ahead) where
    -- The iterators stand at these rows.
    abbrev pub Stand : List T → List (List Row) → Type 0
    Stand [] [] = Unit {0}
    Stand [] (l ∷ ls) = ⊥
    Stand (t ∷ ts) [] = ⊥
    Stand (t ∷ ts) (l ∷ ls) = Ahead t l × Stand ts ls

    -- One round compares the iterator at `i` with the best one so far.
    find_loop-round :
        (nix i : ℕ) (next t : T) (ts : List T) (ln l : List Row)
        → Ahead next ln
        → Ahead t l
        → ((find_loop iter c smallest nix next i (t ∷ ts)
              ≡ find_loop iter c smallest i t (i + 1) ts)
            × Leads l ln)
          ⊎ ((find_loop iter c smallest nix next i (t ∷ ts)
                ≡ find_loop iter c smallest nix next (i + 1) ts)
              × Leads ln l)
    unfolding find_loop
    find_loop-round nix i next t ts [] [] hn h =
        inr (rw (find_loop, fwd.current_end t h, fwd.current_end next hn, ◌>>=◌) refl, tt)
    find_loop-round nix i next t ts (e ∷ es) [] hn h =
        inr (rw (find_loop, fwd.current_end t h, fwd.current_more next e es hn, ◌>>=◌) refl, tt)
    find_loop-round nix i next t ts [] (x ∷ xs) hn h =
        inl (rw (find_loop, fwd.current_more t x xs h, fwd.current_end next hn, ◌>>=◌) refl, tt)
    find_loop-round nix i next t ts (e ∷ es) (x ∷ xs) hn h =
        elim (Bool-cases (is_lt (o.order x.0 e.0))) [
          | inl q ↦
              let lt : o.order x.0 e.0 ≡ Ordering.lt = ground (arith, q) in
              inl (
                rw
                    (
                      find_loop,
                      fwd.current_more t x xs h,
                      fwd.current_more next e es hn,
                      ◌>>=◌,
                      o.cmp_order x.0 e.0,
                      ◌>>=◌,
                      q,
                    )
                    refl,
                λ z. absurd (ground (arith, z, o.gt_of_order x.0 e.0 lt)),
              )
          | inr q ↦ inr (
            rw
                (
                  find_loop,
                  fwd.current_more t x xs h,
                  fwd.current_more next e es hn,
                  ◌>>=◌,
                  o.cmp_order x.0 e.0,
                  ◌>>=◌,
                  q,
                )
                refl,
            λ z. absurd (ground (arith, z, q)),
          )
        ]

    -- The answer is `nix`, or an index of the rest, and its rows lead all.
    abbrev pub Best : List (List Row) → List Row → ℕ → ℕ → ℕ → Type 0
    Best ls ln nix i r =
        ((r ≡ nix) × All (Leads ln) ls)
        ⊎ ((j : ℕ) × (l : List Row) × (r ≡ i + j)
            × (at ls j ≡ some l)
            × Leads l ln
            × All (Leads l) ls)

    pub find_loop-Best :
        (ts : List T) (ls : List (List Row)) (nix i : ℕ) (next : T) (ln : List Row)
        → Ahead next ln
        → Stand ts ls
        → (r : ℕ) × (find_loop iter c smallest nix next i ts ≡ some r) × Best ls ln nix i r
    unfolding find_loop
    find_loop-Best [] [] nix i next ln hn h = (nix, refl, inl (refl, tt))
    find_loop-Best [] (l ∷ ls) nix i next ln hn h = absurd h
    find_loop-Best (t ∷ ts) [] nix i next ln hn h = absurd h
    find_loop-Best (t ∷ ts) (l ∷ ls) nix i next ln hn h =
        elim (find_loop-round nix i next t ts ln l hn h.0) [
          | inl (q, b) ↦
              let (r, e, best) = find_loop-Best ts ls i (i + 1) t l h.0 h.1 in
              (
                r,
                q ∙ e,
                elim best [
                  | inl (z, a) ↦ inr (0, l, omega (arith, z), refl, b, (Leads-refl l, a))
                  | inr (j, l', z, k, b', a) ↦
                      inr (suc j, l', omega (arith, z), k, Leads-trans l' l ln b' b, (b', a))
                ],
              )
          | inr (q, b) ↦
              let (r, e, best) = find_loop-Best ts ls nix (i + 1) next ln hn h.1 in
              (
                r,
                q ∙ e,
                elim best [
                  | inl (z, a) ↦ inl (z, (b, a))
                  | inr (j, l', z, k, b', a) ↦
                      inr (suc j, l', omega (arith, z), k, b', (Leads-trans l' ln l b' b, a))
                ],
              )
        ]

-- ===== src/Version/Level.antt =====
-- src/version.rs: the files of a level whose ranges ascend, and where a range of keys cuts them.
use leveldb_rs.Base.{
  ℕ, ◌≡◌, ◌≢◌, refl, ap, sym, ◌∙◌, arith, Bool, true, false, not, ◌||◌, some, List, [], ◌∷◌, ◌++◌,
  All, length, Bool-cases, Ordering-cases, Ordering, is_lt, inl, inr,
}
use leveldb_rs.Coding.{Bytes, IntegerEncoding}
use leveldb_rs.Cmp.{Cmp}
use leveldb_rs.Cmp.Order.{IsTotal}
use leveldb_rs.SkipMap.{at}
use leveldb_rs.VersionEdit.{FileMetaData}
use leveldb_rs.Version.{is_gt}
use leveldb_rs.Version.Ranges.{any, is_after, is_before, overlaps}

pub at-middle :
    {A : Type 0} (xs : List A) (y : A) (ys : List A) → at (xs ++ y ∷ ys) (length xs) ≡ some y
at-middle [] y ys = refl
at-middle (x ∷ xs) y ys = at-middle xs y ys

any-none : {A : Type 0} (p : A → Bool) (xs : List A) → All (λ a. p a ≡ false) xs → any p xs ≡ false
any-none p [] h = refl
any-none p (x ∷ xs) h = ground (arith, h.0, any-none p xs h.1)

pub any-skip :
    {A : Type 0} (p : A → Bool) (xs ys : List A)
    → All (λ a. p a ≡ false) xs
    → any p (xs ++ ys) ≡ any p ys
any-skip p [] ys h = refl
any-skip p (x ∷ xs) ys h = ground (arith, h.0, any-skip p xs ys h.1)

module _ ⦃ie : IntegerEncoding⦄ {c : Cmp} (o : IsTotal c) (meta : ℕ → FileMetaData)
    (lo hi : ℕ → Bytes) where
  -- Files whose ranges of user keys ascend and share no key.
  abbrev pub IsLevel : List ℕ → Type 0
  IsLevel [] = Unit {0}
  IsLevel (f ∷ fs) =
      (o.order (lo f) (hi f) ≢ Ordering.gt)
      × All (λ g. o.order (hi f) (lo g) ≡ Ordering.lt) fs
      × IsLevel fs

  lt_not_gt :
      (x y z : Bytes)
      → o.order x y ≡ Ordering.lt
      → o.order y z ≢ Ordering.gt
      → o.order x z ≡ Ordering.lt
  lt_not_gt x y z h n = elim (Ordering-cases (o.order y z)) [
    | inl e ↦ o.order_trans x y z h e
    | inr (inl e) ↦ ap (λ w. o.order x w) (sym (o.eq_of_order y z e)) ∙ h
    | inr (inr e) ↦ absurd (n e)
  ]

  not_gt_lt :
      (x y z : Bytes)
      → o.order x y ≢ Ordering.gt
      → o.order y z ≡ Ordering.lt
      → o.order x z ≡ Ordering.lt
  not_gt_lt x y z n h = elim (Ordering-cases (o.order x y)) [
    | inl e ↦ o.order_trans x y z e h
    | inr (inl e) ↦ ap (λ w. o.order w z) (o.eq_of_order x y e) ∙ h
    | inr (inr e) ↦ absurd (n e)
  ]

  -- What does not end before `a` has only files behind it that do not either.
  not_before-later :
      (a : Bytes) (f : ℕ) (fs : List ℕ)
      → o.order (hi f) a ≢ Ordering.lt
      → All (λ g. o.order (hi f) (lo g) ≡ Ordering.lt) fs
      → IsLevel fs
      → All (λ g. o.order (hi g) a ≢ Ordering.lt) fs
  not_before-later a f [] n h l = tt
  not_before-later a f (g ∷ fs) n h l = (
    λ e. n (o.order_trans (hi f) (hi g) a (lt_not_gt (hi f) (lo g) (hi g) h.0 l.0) e),
    not_before-later a f fs n h.1 l.2,
  )

  pub IsLevel-cut :
      (a : Bytes) (fs : List ℕ)
      → IsLevel fs
      → (xs : List ℕ) × (ys : List ℕ) × (fs ≡ xs ++ ys)
        × IsLevel ys
        × All (λ f. o.order (hi f) a ≡ Ordering.lt) xs
        × All (λ f. o.order (hi f) a ≢ Ordering.lt) ys
  IsLevel-cut a [] l = ([], [], refl, tt, tt, tt)
  IsLevel-cut a (f ∷ fs) l = elim (Ordering-cases (o.order (hi f) a)) [
    | inl e ↦
        let (xs, ys, q, m, b, n) = IsLevel-cut a fs l.2 in
        (f ∷ xs, ys, ap (λ t. f ∷ t) q, m, (e, b), n)
    | inr ne ↦
        let n : o.order (hi f) a ≢ Ordering.lt = λ e. elim ne [ inl q ↦ cc | inr q ↦ cc ] in
        ([], f ∷ fs, refl, l, tt, (n, not_before-later a f fs n l.1 l.2))
  ]

  before-next :
      (b : Bytes) (f g : ℕ)
      → is_before o meta lo hi b f ≡ true
      → o.order (lo f) (hi f) ≢ Ordering.gt
      → o.order (hi f) (lo g) ≡ Ordering.lt
      → is_before o meta lo hi b g ≡ true
  before-next [] f g e n h = e
  before-next (y ∷ ys) f g e n h =
      let below : o.order (y ∷ ys) (lo f) ≡ Ordering.lt = ground (arith, e) in
      ap is_lt (o.order_trans (y ∷ ys) (lo f) (lo g) below (not_gt_lt (lo f) (hi f) (lo g) n h))

  -- A range that ends before a file ends before all behind it.
  before-later :
      (b : Bytes) (f : ℕ) (fs : List ℕ) (a : Bytes)
      → is_before o meta lo hi b f ≡ true
      → IsLevel (f ∷ fs)
      → All (λ g. overlaps o meta lo hi a b g ≡ false) fs
  before-later b f [] a e l = tt
  before-later b f (g ∷ fs) a e l =
      let next : is_before o meta lo hi b g ≡ true = before-next b f g e l.0 l.1.0 in
      (ground (arith, next), before-later b g fs a next l.2)

  -- The first file behind the cut decides.
  pub first_decides :
      (x : ℕ) (w b : Bytes) (f : ℕ) (fs : List ℕ)
      → o.order (hi f) (x ∷ w) ≢ Ordering.lt
      → IsLevel (f ∷ fs)
      → any (overlaps o meta lo hi (x ∷ w) b) (f ∷ fs) ≡ not (is_before o meta lo hi b f)
  first_decides x w b f fs n l =
      let a = x ∷ w in
      let stays : is_after o meta lo hi a f ≡ false = elim (Ordering-cases (o.order a (hi f))) [
        | inl q ↦ ap is_gt q
        | inr (inl q) ↦ ap is_gt q
        | inr (inr q) ↦ absurd (n (o.lt_of_order a (hi f) q))
      ] in
      elim (Bool-cases (is_before o meta lo hi b f)) [
        | inr e ↦ rw (any, stays, e, ◌||◌) refl
        | inl e ↦
            let later : any (overlaps o meta lo hi a b) fs ≡ false =
              any-none (overlaps o meta lo hi a b) fs (before-later b f fs a e l) in
            rw (any, stays, e, ◌||◌) later
      ]

  pub skips_ended :
      (x : ℕ) (w b : Bytes) (fs : List ℕ)
      → All (λ f. o.order (hi f) (x ∷ w) ≡ Ordering.lt) fs
      → All (λ f. overlaps o meta lo hi (x ∷ w) b f ≡ false) fs
  skips_ended x w b [] h = tt
  skips_ended x w b (f ∷ fs) h =
      (ground (arith, o.gt_of_order (hi f) (x ∷ w) h.0), skips_ended x w b fs h.1)

-- ===== src/Version/Widening.antt =====
-- overlapping_inputs of src/version.rs: one search over the files of level 0, which widens its range or
-- takes in the files that touch it.
use leveldb_rs.Base.{
  ℕ, ◌≡◌, refl, ap, sym, ◌∙◌, arith, Bool, true, false, not, ◌||◌, Option, none, some, List, [],
  ◌∷◌, ◌++◌, All, Bool-cases, is_lt, ◌>>=◌, ◌⊎◌, inl, inr, if◌then◌else◌,
}
use mathlib.Core.Path.{subst}
use leveldb_rs.Coding.{Bytes, IntegerEncoding}
use leveldb_rs.Cmp.{Cmp}
use leveldb_rs.Cmp.Order.{IsTotal}
use leveldb_rs.SkipMap.{is_empty}
use leveldb_rs.VersionEdit.{FileMetaData}
use leveldb_rs.Version.{is_gt}
use leveldb_rs.Version.Inputs.{Search, widen, found, keep, is_past, less, greater, do_search}
use leveldb_rs.Version.Ranges.{HasRange, user_part-smallest, user_part-largest}

abbrev pub filter : {A : Type 0} → (A → Bool) → List A → List A
filter p [] = []
filter p (x ∷ xs) = if p x then x ∷ filter p xs else filter p xs

bind_some : {A : Type 0} (r : Option A) → (r >>= λ s. some s) ≡ r
bind_some none = refl
bind_some (some s) = refl

module _ ⦃ie : IntegerEncoding⦄ {c : Cmp} (o : IsTotal c) (meta : ℕ → FileMetaData)
    (lo hi : ℕ → Bytes) where
  abbrev pub is_less : Bytes → Bytes → Bool
  is_less x b = if is_empty b then false else is_lt (o.order x b)

  abbrev pub is_greater : Bytes → Bytes → Bool
  is_greater x e = if is_empty e then false else is_gt (o.order x e)

  -- A file has keys from `b` to `e`, an empty bound being none.
  abbrev pub touches : Bytes → Bytes → ℕ → Bool
  touches b e f = not (is_less (hi f) b || is_greater (lo f) e)

  -- A file has keys outside of the range on neither side.
  abbrev pub within : Bytes → Bytes → ℕ → Bool
  within b e f = not (is_less (lo f) b || is_greater (hi f) e)

  past_less : (x b : Bytes) → is_past c meta (less c meta) x b ≡ some (is_less x b)
  unfolding less
  past_less x [] = refl
  past_less x (y ∷ ys) = rw (less, o.cmp_order x (y ∷ ys), ◌>>=◌) refl

  past_greater : (x e : Bytes) → is_past c meta (greater c meta) x e ≡ some (is_greater x e)
  unfolding greater
  past_greater x [] = refl
  past_greater x (y ∷ ys) = rw (greater, o.cmp_order x (y ∷ ys), ◌>>=◌) refl

  -- A search of level 0 takes in the files that touch the range, all within it, or widens the range to
  -- one bound of a file.
  abbrev pub Searched : Bytes → Bytes → List ℕ → Type 0
  Searched b e fs =
      ((do_search c meta 0 b e fs ≡ some (found (filter (touches b e) fs)))
        × All (λ f. within b e f ≡ true) (filter (touches b e) fs))
      ⊎ ((inputs : List ℕ) × (xs : List ℕ) × (f : ℕ) × (ys : List ℕ) × (fs ≡ xs ++ f ∷ ys)
          × (((do_search c meta 0 b e fs ≡ some (widen (lo f) e inputs))
                × (is_less (lo f) b ≡ true))
              ⊎ ((do_search c meta 0 b e fs ≡ some (widen b (hi f) inputs))
                  × (is_greater (hi f) e ≡ true))))

  module _ (b e : Bytes) (f : ℕ) (fs : List ℕ) (h : HasRange o meta lo hi f) where
    step-skips : touches b e f ≡ false → do_search c meta 0 b e (f ∷ fs) ≡ do_search c meta 0 b e fs
    unfolding do_search
    step-skips t = elim (Bool-cases (is_less (hi f) b)) [
      | inl q ↦
          rw
            (
              do_search,
              user_part-smallest h,
              ◌>>=◌,
              user_part-largest h,
              ◌>>=◌,
              past_less (hi f) b,
              q,
            )
            refl
      | inr q ↦
          let g : is_greater (lo f) e ≡ true = ground (arith, t, q) in
          rw
            (
              do_search,
              user_part-smallest h,
              ◌>>=◌,
              user_part-largest h,
              ◌>>=◌,
              past_less (hi f) b,
              q,
              past_greater (lo f) e,
              g,
            )
            refl
    ]

    step-begins :
        touches b e f ≡ true
        → is_less (lo f) b ≡ true
        → do_search c meta 0 b e (f ∷ fs) ≡ some (widen (lo f) e (f ∷ []))
    unfolding do_search
    step-begins t l =
        let q : is_less (hi f) b ≡ false = ground (arith, t) in
        let g : is_greater (lo f) e ≡ false = ground (arith, t) in
        rw
          (
            do_search,
            user_part-smallest h,
            ◌>>=◌,
            user_part-largest h,
            ◌>>=◌,
            past_less (hi f) b,
            q,
            past_greater (lo f) e,
            g,
            ◌>>=◌,
            past_less (lo f) b,
            l,
          )
          refl

    step-ends :
        touches b e f ≡ true
        → is_less (lo f) b ≡ false
        → is_greater (hi f) e ≡ true
        → do_search c meta 0 b e (f ∷ fs) ≡ some (widen b (hi f) (f ∷ []))
    unfolding do_search
    step-ends t l r =
        let q : is_less (hi f) b ≡ false = ground (arith, t) in
        let g : is_greater (lo f) e ≡ false = ground (arith, t) in
        rw
          (
            do_search,
            user_part-smallest h,
            ◌>>=◌,
            user_part-largest h,
            ◌>>=◌,
            past_less (hi f) b,
            q,
            past_greater (lo f) e,
            g,
            ◌>>=◌,
            past_less (lo f) b,
            l,
            ◌>>=◌,
            past_greater (hi f) e,
            r,
          )
          refl

    step-keeps :
        touches b e f ≡ true
        → is_less (lo f) b ≡ false
        → is_greater (hi f) e ≡ false
        → do_search c meta 0 b e (f ∷ fs) ≡ (do_search c meta 0 b e fs >>= λ s. some (keep f s))
    unfolding do_search
    step-keeps t l r =
        let q : is_less (hi f) b ≡ false = ground (arith, t) in
        let g : is_greater (lo f) e ≡ false = ground (arith, t) in
        rw
          (
            do_search,
            user_part-smallest h,
            ◌>>=◌,
            user_part-largest h,
            ◌>>=◌,
            past_less (hi f) b,
            q,
            past_greater (lo f) e,
            g,
            ◌>>=◌,
            past_less (lo f) b,
            l,
            ◌>>=◌,
            past_greater (hi f) e,
            r,
          )
          refl

  -- One more file in front, where the search goes on to the rest: `ext` is what it makes of the answer.
  further :
      (b e : Bytes) (f : ℕ) (fs : List ℕ) (ext : Search → Search)
      → (do_search c meta 0 b e (f ∷ fs) ≡ (do_search c meta 0 b e fs >>= λ s. some (ext s)))
      → ((l : List ℕ) → (r : List ℕ) × ((x y : Bytes) → ext (widen x y l) ≡ widen x y r))
      → ext (found (filter (touches b e) fs)) ≡ found (filter (touches b e) (f ∷ fs))
      → (All (λ g. within b e g ≡ true) (filter (touches b e) fs)
          → All (λ g. within b e g ≡ true) (filter (touches b e) (f ∷ fs)))
      → Searched b e fs
      → Searched b e (f ∷ fs)
  further b e f fs ext step wid fnd all (inl (q, a)) =
      inl (step ∙ ap (λ r. r >>= λ s. some (ext s)) q ∙ ap some fnd, all a)
  further b e f fs ext step wid fnd all (inr (inputs, xs, g, ys, q, alt)) =
      let (r, ew) = wid inputs in
      let on = λ (x y : Bytes) (z : do_search c meta 0 b e fs ≡ some (widen x y inputs)).
        step ∙ ap (λ r. r >>= λ s. some (ext s)) z ∙ ap some (ew x y) in
      inr (
        r,
        f ∷ xs,
        g,
        ys,
        ap (λ t. f ∷ t) q,
        elim alt [ inl (z, l) ↦ inl (on (lo g) e z, l) | inr (z, l) ↦ inr (on b (hi g) z, l) ],
      )

  pub do_search-Searched :
      (b e : Bytes) (fs : List ℕ) → All (HasRange o meta lo hi) fs → Searched b e fs
  unfolding do_search
  do_search-Searched b e [] h = inl (refl, tt)
  do_search-Searched b e (f ∷ fs) h =
      let ih = do_search-Searched b e fs h.1 in
      elim (Bool-cases (touches b e f)) [
        | inr t ↦
            let skip : filter (touches b e) (f ∷ fs) ≡ filter (touches b e) fs =
              rw (filter, t) refl in
            further b e f fs (λ s. s) (step-skips b e f fs h.0 t ∙ sym (bind_some _))
              (λ l. (l, λ x y. refl)) (ap found (sym skip))
              (λ a. subst (λ l. All (λ g. within b e g ≡ true) l) (sym skip) a) ih
        | inl t ↦ elim (Bool-cases (is_less (lo f) b)) [
          | inl l ↦ inr (f ∷ [], [], f, fs, refl, inl (step-begins b e f fs h.0 t l, l))
          | inr l ↦ elim (Bool-cases (is_greater (hi f) e)) [
            | inl r ↦ inr (f ∷ [], [], f, fs, refl, inr (step-ends b e f fs h.0 t l r, r))
            | inr r ↦
                let kept : filter (touches b e) (f ∷ fs) ≡ f ∷ filter (touches b e) fs =
                  rw (filter, t) refl in
                let inside : within b e f ≡ true = ground (arith, l, r) in
                further b e f fs (keep f) (step-keeps b e f fs h.0 t l r)
                  (λ i. (f ∷ i, λ x y. refl)) (ap found (sym kept))
                  (λ a. subst (λ l. All (λ g. within b e g ≡ true) l) (sym kept) (inside, a)) ih
          ]
        ]
      ]

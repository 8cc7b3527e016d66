-- ===== src/Version/Closure.antt =====
-- overlapping_inputs of src/version.rs: the search of level 0 ends, with a range that no file leaves.
use leveldb_rs.Base.{
  ℕ, zero, suc, ◌+◌, ◌*◌, ◌≤◌, ◌<◌, ◌≡◌, refl, ap, sym, ◌∙◌, arith, Bool, true, false, Option, some,
  List, [], ◌∷◌, ◌++◌, All, length, Bool-cases, Ordering, is_lt, ◌>>=◌, inl, inr, if◌then◌else◌,
}
use mathlib.Core.Path.{subst}
use leveldb_rs.Coding.{Bytes, IntegerEncoding}
use leveldb_rs.Cmp.{Cmp}
use leveldb_rs.Cmp.Order.{IsTotal}
use leveldb_rs.VersionEdit.{FileMetaData}
use leveldb_rs.Version.{Version, is_gt, user_part}
use leveldb_rs.Version.Inputs.{search_loop, overlapping_inputs}
use leveldb_rs.Version.Widening.{filter, is_less, is_greater, touches, within, do_search-Searched}
use leveldb_rs.Version.Ranges.{HasRange}

abbrev count : {A : Type 0} → (A → Bool) → List A → ℕ
count p [] = 0
count p (x ∷ xs) = (if p x then 1 else 0) + count p xs

module _ {A : Type 0} (p q : A → Bool) (h : (a : A) → p a ≡ true → q a ≡ true) where
  count-le : (xs : List A) → count p xs ≤ count q xs
  count-le [] = omega arith
  count-le (x ∷ xs) = elim (Bool-cases (p x)) [
    | inl e ↦ ground (arith, e, h x e, count-le xs)
    | inr e ↦ ground (arith, e, count-le xs)
  ]

  count-lt :
      (xs : List A) (a : A) (ys : List A)
      → p a ≡ false
      → q a ≡ true
      → count p (xs ++ a ∷ ys) < count q (xs ++ a ∷ ys)
  count-lt [] a ys np qa = ground (arith, np, qa, count-le ys)
  count-lt (x ∷ xs) a ys np qa = elim (Bool-cases (p x)) [
    | inl e ↦ ground (arith, e, h x e, count-lt xs a ys np qa)
    | inr e ↦ ground (arith, e, count-lt xs a ys np qa)
  ]

count-length : {A : Type 0} (p : A → Bool) (xs : List A) → count p xs ≤ length xs
count-length p [] = omega arith
count-length p (x ∷ xs) = ground (arith, count-length p xs)

module _ ⦃ie : IntegerEncoding⦄ {c : Cmp} (o : IsTotal c) (meta : ℕ → FileMetaData)
    (lo hi : ℕ → Bytes) where
  less_trans :
      (x y b : Bytes)
      → is_less o meta lo hi x y ≡ true
      → is_less o meta lo hi y b ≡ true
      → is_less o meta lo hi x b ≡ true
  less_trans x [] b h k = cc
  less_trans x (y ∷ ys) [] h k = cc
  less_trans x (y ∷ ys) (z ∷ zs) h k =
      ap is_lt (o.order_trans x (y ∷ ys) (z ∷ zs) (ground (arith, h)) (ground (arith, k)))

  greater_trans :
      (x y e : Bytes)
      → is_greater o meta lo hi x y ≡ true
      → is_greater o meta lo hi y e ≡ true
      → is_greater o meta lo hi x e ≡ true
  greater_trans x [] e h k = cc
  greater_trans x (y ∷ ys) [] h k = cc
  greater_trans x (y ∷ ys) (z ∷ zs) h k =
      let below : o.order (y ∷ ys) x ≡ Ordering.lt = o.lt_of_order x (y ∷ ys) (ground (arith, h)) in
      let below' : o.order (z ∷ zs) (y ∷ ys) ≡ Ordering.lt =
        o.lt_of_order (y ∷ ys) (z ∷ zs) (ground (arith, k)) in
      ap is_gt (o.gt_of_order (z ∷ zs) x (o.order_trans (z ∷ zs) (y ∷ ys) x below' below))

  less_refl : (x : Bytes) → is_less o meta lo hi x x ≡ false
  less_refl [] = refl
  less_refl (y ∷ ys) = ap is_lt (o.order_refl (y ∷ ys))

  greater_refl : (x : Bytes) → is_greater o meta lo hi x x ≡ false
  greater_refl [] = refl
  greater_refl (y ∷ ys) = ap is_gt (o.order_refl (y ∷ ys))

  -- How many bounds of files lie outside of a range.
  abbrev outside : Bytes → Bytes → List ℕ → ℕ
  outside b e fs =
      count (λ f. is_less o meta lo hi (lo f) b) fs
      + count (λ f. is_greater o meta lo hi (hi f) e) fs

  Widens : Bytes → Bytes → Bytes → Bytes → Type 0
  Widens b e b' e' =
      (f : ℕ) → touches o meta lo hi b e f ≡ true → touches o meta lo hi b' e' f ≡ true

  Widens-down : (b e : Bytes) (g : ℕ) → is_less o meta lo hi (lo g) b ≡ true → Widens b e (lo g) e
  unfolding Widens
  Widens-down b e g l f t = elim (Bool-cases (is_less o meta lo hi (hi f) (lo g))) [
    | inl q ↦ absurd (ground (arith, t, less_trans (hi f) (lo g) b q l))
    | inr q ↦ ground (arith, t, q)
  ]

  Widens-up : (b e : Bytes) (g : ℕ) → is_greater o meta lo hi (hi g) e ≡ true → Widens b e b (hi g)
  unfolding Widens
  Widens-up b e g l f t = elim (Bool-cases (is_greater o meta lo hi (lo f) (hi g))) [
    | inl q ↦ absurd (ground (arith, t, greater_trans (lo f) (hi g) e q l))
    | inr q ↦ ground (arith, t, q)
  ]

  outside_down :
      (b e : Bytes) (xs : List ℕ) (g : ℕ) (ys : List ℕ)
      → is_less o meta lo hi (lo g) b ≡ true
      → outside (lo g) e (xs ++ g ∷ ys) < outside b e (xs ++ g ∷ ys)
  outside_down b e xs g ys l =
      let fewer =
        count-lt (λ f. is_less o meta lo hi (lo f) (lo g)) (λ f. is_less o meta lo hi (lo f) b)
          (λ f q. less_trans (lo f) (lo g) b q l) xs g ys (less_refl (lo g)) l in
      omega (arith, fewer)

  outside_up :
      (b e : Bytes) (xs : List ℕ) (g : ℕ) (ys : List ℕ)
      → is_greater o meta lo hi (hi g) e ≡ true
      → outside b (hi g) (xs ++ g ∷ ys) < outside b e (xs ++ g ∷ ys)
  outside_up b e xs g ys l =
      let fewer =
        count-lt (λ f. is_greater o meta lo hi (hi f) (hi g))
          (λ f. is_greater o meta lo hi (hi f) e) (λ f q. greater_trans (hi f) (hi g) e q l) xs g ys
          (greater_refl (hi g)) l in
      omega (arith, fewer)

  -- The files that a search answers: those that touch a range as wide at least, all within o meta lo hi it.
  Reaches : Bytes → Bytes → List ℕ → Option (List ℕ) → Type 0
  Reaches b e fs answer =
      (b' : Bytes) × (e' : Bytes) × (answer ≡ some (filter (touches o meta lo hi b' e') fs))
      × All (λ f. within o meta lo hi b' e' f ≡ true) (filter (touches o meta lo hi b' e') fs)
      × Widens b e b' e'

  search_loop-Reaches :
      (fuel : ℕ) (b e : Bytes) (fs : List ℕ)
      → All (HasRange o meta lo hi) fs
      → outside b e fs < fuel
      → Reaches b e fs (search_loop c meta fuel 0 fs b e)
  unfolding search_loop Reaches Widens
  search_loop-Reaches zero b e fs h n = absurd (omega (arith, n))
  search_loop-Reaches (suc fuel) b e fs h n = elim (do_search-Searched o meta lo hi b e fs h) [
    | inl (q, a) ↦ (b, e, rw (search_loop, q, ◌>>=◌) refl, a, λ f t. t)
    | inr (inputs, xs, g, ys, at_g, alt) ↦ elim alt [
      | inl (q, l) ↦
          let less_left : outside (lo g) e fs < outside b e fs =
            subst (λ t. outside (lo g) e t < outside b e t) (sym at_g)
              (outside_down b e xs g ys l) in
          let (b', e', r, a, w) =
            search_loop-Reaches fuel (lo g) e fs h (omega (arith, n, less_left)) in
          (b', e', rw (search_loop, q, ◌>>=◌) r, a, λ f t. w f (Widens-down b e g l f t))
      | inr (q, l) ↦
          let less_left : outside b (hi g) fs < outside b e fs =
            subst (λ t. outside b (hi g) t < outside b e t) (sym at_g) (outside_up b e xs g ys l) in
          let (b', e', r, a, w) =
            search_loop-Reaches fuel b (hi g) fs h (omega (arith, n, less_left)) in
          (b', e', rw (search_loop, q, ◌>>=◌) r, a, λ f t. w f (Widens-up b e g l f t))
    ]
  ]

  all_touch :
      (b e b' e' : Bytes) (fs : List ℕ)
      → Widens b e b' e'
      → All (λ f. touches o meta lo hi b' e' f ≡ true) (filter (touches o meta lo hi b e) fs)
  unfolding Widens
  all_touch b e b' e' [] w = tt
  all_touch b e b' e' (f ∷ fs) w = elim (Bool-cases (touches o meta lo hi b e f)) [
    | inl t ↦ rw t (w f t, all_touch b e b' e' fs w)
    | inr t ↦ rw t (all_touch b e b' e' fs w)
  ]

  -- The answer is the files that touch some range. Every file that touches o meta lo hi the range from `b` to `e`
  -- touches o meta lo hi that one, and every file that touches o meta lo hi that one lies within o meta lo hi it.
  pub Closed : Bytes → Bytes → List ℕ → Option (List ℕ) → Type 0
  Closed b e fs answer =
      (b' : Bytes) × (e' : Bytes) × (answer ≡ some (filter (touches o meta lo hi b' e') fs))
      × All (λ f. touches o meta lo hi b' e' f ≡ true) (filter (touches o meta lo hi b e) fs)
      × All (λ f. within o meta lo hi b' e' f ≡ true) (filter (touches o meta lo hi b' e') fs)

  -- Let the files of level 0 have bounds. The search that begins with a range ends, however the files
  -- overlap, and answers the files that touch some range: every file that touches o meta lo hi the range asked for
  -- touches o meta lo hi that one, and every file that touches o meta lo hi that one lies within o meta lo hi it; an empty bound is none.
  pub overlapping_inputs-Closed :
      (v : Version) (begin end b e : Bytes)
      → All (HasRange o meta lo hi) (v.files 0)
      → user_part begin ≡ some b
      → user_part end ≡ some e
      → Closed b e (v.files 0) (overlapping_inputs c meta v 0 begin end)
  unfolding overlapping_inputs Closed Reaches
  overlapping_inputs-Closed v begin end b e h hb he =
      let fs = v.files 0 in
      let n = suc (2 * length fs) in
      let run : overlapping_inputs c meta v 0 begin end ≡ search_loop c meta n 0 fs b e =
        rw (overlapping_inputs, hb, ◌>>=◌, he) refl in
      let enough : outside b e fs < n = omega (
        arith,
        count-length (λ f. is_less o meta lo hi (lo f) b) fs,
        count-length (λ f. is_greater o meta lo hi (hi f) e) fs,
      ) in
      let (b', e', r, a, w) = search_loop-Reaches n b e fs h enough in
      (b', e', run ∙ r, all_touch b e b' e' fs w, a)

-- ===== src/Version/Search.antt =====
-- find_file of src/version.rs: the binary search over the tables of a level.
use leveldb_rs.Base.{
  ℕ, zero, suc, ◌+◌, ◌/◌, ◌≤◌, ◌<◌, ◌≡◌, refl, ap, arith, true, false, none, some, List, [], ◌∷◌,
  ◌++◌, All, length, length-append, ltb, Bool-cases, ◌==◌, if◌then◌else◌, Ordering, is_lt, ◌>>=◌,
  ◌⊎◌, inl, inr,
}
use leveldb_rs.Coding.{Bytes, IntegerEncoding}
use leveldb_rs.Cmp.{Cmp}
use leveldb_rs.KeyTypes.{cmp_internal_key}
use leveldb_rs.SkipMap.{at}
use leveldb_rs.VersionEdit.{FileMetaData}
use leveldb_rs.Version.{find_loop, find_file}

module _ {A : Type 0} (P Q : A → Type 0) where
  -- In two halves, an element before the cut is of the first.
  pub at-split :
      (xs ys : List A) (i : ℕ)
      → All P xs
      → All Q ys
      → i < length xs + length ys
      → (a : A) × (at (xs ++ ys) i ≡ some a) × (((i < length xs) × P a) ⊎ ((length xs ≤ i) × Q a))
  at-split [] [] i p q h = absurd (omega (arith, h))
  at-split [] (y ∷ ys) zero p q h = (y, refl, inr (omega arith, q.0))
  at-split [] (y ∷ ys) (suc i) p q h =
      let (a, e, s) = at-split [] ys i tt q.1 (omega (arith, h)) in
      (a, e, elim s [ inl t ↦ absurd (omega (arith, t.0)) | inr t ↦ inr (omega arith, t.1) ])
  at-split (x ∷ xs) ys zero p q h = (x, refl, inl (omega arith, p.0))
  at-split (x ∷ xs) ys (suc i) p q h =
      let (a, e, s) = at-split xs ys i p.1 q (omega (arith, h)) in
      (
        a,
        e,
        elim s [ inl t ↦ inl (omega (arith, t.0), t.1) | inr t ↦ inr (omega (arith, t.0), t.1) ],
      )

module _ ⦃ie : IntegerEncoding⦄ (c : Cmp) (meta : ℕ → FileMetaData) (key : Bytes) where
  -- The file's largest key compares as less than the key sought, or as something else.
  abbrev pub EndsBelow : ℕ → Type 0
  EndsBelow f = cmp_internal_key c (meta f).largest key ≡ some Ordering.lt

  abbrev pub EndsNotBelow : ℕ → Type 0
  EndsNotBelow f =
      (o : Ordering) × (cmp_internal_key c (meta f).largest key ≡ some o) × (is_lt o ≡ false)

  -- One round halves what is between `left` and `right`, and the cut stays between them.
  pub find_loop-cut :
      (fuel : ℕ) (below rest : List ℕ) (left right : ℕ)
      → All EndsBelow below
      → All EndsNotBelow rest
      → left ≤ length below
      → length below ≤ right
      → right ≤ length below + length rest
      → right < left + fuel
      → find_loop c meta fuel (below ++ rest) key left right ≡ some (length below)
  unfolding find_loop
  find_loop-cut zero below rest left right b r l h s f = absurd (omega (arith, l, h, f))
  find_loop-cut (suc fuel) below rest left right b r l h s f = elim (Bool-cases (ltb left right)) [
    | inr e ↦
        let same : right ≡ length below = ground (arith, e, l, h) in
        rw (find_loop, e) (ap some same)
    | inl e ↦
        let mid = (left + right) / 2 in
        let lt : left < right = ground (arith, e) in
        let (file, q, side) =
          at-split EndsBelow EndsNotBelow below rest mid b r (omega (arith, lt, s)) in
        elim side [
          | inl (i, p) ↦
              rw (find_loop, e, q, ◌>>=◌, p)
                (find_loop-cut fuel below rest (mid + 1) right b r (omega (arith, i)) h s
                  (omega (arith, f, lt)))
          | inr (i, np) ↦
              rw (find_loop, e, q, ◌>>=◌, np.1, ◌>>=◌, np.2)
                (find_loop-cut fuel below rest left mid b r l i (omega (arith, s, lt))
                  (omega (arith, f, lt)))
        ]
  ]

  -- Let the files of a level be those whose largest keys are below the key, and behind them others whose
  -- largest keys are not. Then the binary search ends and answers the index of the first of the others,
  -- or none if there are none.
  pub find_file-eq :
      (below rest : List ℕ)
      → All EndsBelow below
      → All EndsNotBelow rest
      → find_file c meta (below ++ rest) key
        ≡ some (if length rest == 0 then none else some (length below))
  unfolding find_file
  find_file-eq below rest b r =
      let n = length (below ++ rest) in
      let len : n ≡ length below + length rest = length-append below rest in
      let loop : find_loop c meta (suc n) (below ++ rest) key 0 n ≡ some (length below) =
        find_loop-cut (suc n) below rest 0 n b r (omega arith) (omega (arith, len))
          (omega (arith, len)) (omega arith) in
      elim (Bool-cases (length rest == 0)) [
        | inl z ↦
            let past : ltb (length below) n ≡ false = ground (arith, len, z) in
            rw (find_file, loop, ◌>>=◌, past, z) refl
        | inr z ↦
            let inside : ltb (length below) n ≡ true = ground (arith, len, z) in
            rw (find_file, loop, ◌>>=◌, inside, z) refl
      ]

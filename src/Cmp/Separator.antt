-- ===== src/Cmp/Separator.antt =====
-- What `find_shortest_sep` and `find_short_succ` promise the table builder: a string between two
-- keys, and one behind a key.
use leveldb_rs.Base.{
  ℕ, zero, suc, ◌+◌, ◌≤◌, ◌<◌, ◌≡◌, ◌≢◌, refl, ap, sym, arith, inl, inr, false, none, some, [], ◌∷◌,
  ◌++◌, length, All, take, drop, get_or, set, Ordering, Bool-cases, Option-cases, take-append-drop,
  ◌∙◌, some_of_ne_none,
}
use leveldb_rs.Coding.{Bytes, IsByte}
use leveldb_rs.Cmp.{
  cmp_bytes, bytes_eq, common_prefix, find_gap, last_below_ff, lengthen, find_shortest_sep,
  find_short_succ,
}
use leveldb_rs.Cmp.Order.{cmp_bytes_refl, bytes_eq_iff, cmp_bytes_append, cmp_bytes_extend}

-- Behind the shared front the two rests compare as the whole strings do.
cmp_bytes-drop :
    (a b : Bytes)
    → cmp_bytes (drop (common_prefix a b) a) (drop (common_prefix a b) b) ≡ cmp_bytes a b
unfolding common_prefix
cmp_bytes-drop [] b = refl
cmp_bytes-drop (x ∷ xs) [] = refl
cmp_bytes-drop (x ∷ xs) (y ∷ ys) = ground (arith, cmp_bytes-drop xs ys)

take-common_prefix : (a b : Bytes) → take (common_prefix a b) a ≡ take (common_prefix a b) b
unfolding common_prefix
take-common_prefix [] [] = refl
take-common_prefix [] (y ∷ ys) = refl
take-common_prefix (x ∷ xs) [] = refl
take-common_prefix (x ∷ xs) (y ∷ ys) = ground (arith, take-common_prefix xs ys)

find_gap_above : (a b s : Bytes) → find_gap a b ≡ some s → cmp_bytes a s ≡ Ordering.lt
unfolding find_gap
find_gap_above [] b s e = cc
find_gap_above (x ∷ xs) [] s e = cc
find_gap_above (x ∷ xs) (y ∷ ys) s e = elim (Option-cases (find_gap xs ys)) [
  | inl f ↦ ground arith
  | inr (r, f) ↦ ground (arith, find_gap_above xs ys r f)
]

-- A gap lies strictly between the two rests.
find_gap_between :
    (a b s : Bytes)
    → cmp_bytes a b ≡ Ordering.lt
    → find_gap a b ≡ some s
    → (cmp_bytes a s ≡ Ordering.lt) × (cmp_bytes s b ≡ Ordering.lt)
unfolding find_gap
find_gap_between [] b s h e = cc
find_gap_between (x ∷ xs) [] s h e = cc
find_gap_between (x ∷ xs) (y ∷ ys) s h e = elim (Option-cases (find_gap xs ys)) [
  | inl f ↦ ground arith
  | inr (r, f) ↦ ground (arith, find_gap_above xs ys r f, find_gap_between xs ys r)
]

last_below_ff-le : (sep : Bytes) (i : ℕ) → last_below_ff sep i ≤ i
unfolding last_below_ff
last_below_ff-le sep zero = omega arith
last_below_ff-le sep (suc i) = ground (arith, last_below_ff-le sep i)

cmp_bytes-set :
    (a : Bytes) (i : ℕ) → i < length a → cmp_bytes a (set a i (get_or a i 0 + 1)) ≡ Ordering.lt
cmp_bytes-set [] i h = absurd (omega arith)
cmp_bytes-set (x ∷ xs) zero h = ground arith
cmp_bytes-set (x ∷ xs) (suc i) h = ground (arith, cmp_bytes-set xs i)

-- Between `a` and its first extension, by a 0, there is nothing.
cmp_bytes_append_zero :
    (a b : Bytes)
    → cmp_bytes a b ≡ Ordering.lt
    → b ≢ a ++ 0 ∷ []
    → cmp_bytes (a ++ 0 ∷ []) b ≡ Ordering.lt
cmp_bytes_append_zero [] [] h n = cc
cmp_bytes_append_zero [] (zero ∷ []) h n = absurd (n refl)
cmp_bytes_append_zero [] (zero ∷ y ∷ ys) h n = refl
cmp_bytes_append_zero [] (suc y ∷ ys) h n = ground arith
cmp_bytes_append_zero (x ∷ xs) [] h n = cc
cmp_bytes_append_zero (x ∷ xs) (y ∷ ys) h n =
    ground (arith, cmp_bytes_append_zero xs ys, λ (m : x ≡ y) (e : ys ≡ xs ++ 0 ∷ []). n (cc))

-- Where no gap is found, `lengthen` still gives a string between the two.
lengthen_between :
    (a b s : Bytes)
    → cmp_bytes a b ≡ Ordering.lt
    → b ≢ a ++ 0 ∷ []
    → lengthen a b ≡ some s
    → (cmp_bytes a s ≡ Ordering.lt) × (cmp_bytes s b ≡ Ordering.lt)
unfolding lengthen
lengthen_between [] b s h n e = cc
lengthen_between (x ∷ xs) b s h n e = ground (
  arith,
  cmp_bytes-set (x ∷ xs) (last_below_ff (x ∷ xs) (length xs)),
  last_below_ff-le (x ∷ xs) (length xs),
  cmp_bytes_append_zero (x ∷ xs) b h n,
  cmp_bytes_extend (x ∷ xs) 0 [],
)

lengthen-ne-none : (a b : Bytes) → a ≢ [] → lengthen a b ≢ none
unfolding lengthen
lengthen-ne-none [] b n = absurd (n refl)
lengthen-ne-none (x ∷ xs) b n = ground arith

-- Cutting the shared front off and putting it back.
gap_between :
    (a b s : Bytes)
    → cmp_bytes a b ≡ Ordering.lt
    → find_gap (drop (common_prefix a b) a) (drop (common_prefix a b) b) ≡ some s
    → (cmp_bytes a (take (common_prefix a b) a ++ s) ≡ Ordering.lt)
      × (cmp_bytes (take (common_prefix a b) a ++ s) b ≡ Ordering.lt)
gap_between a b s h e =
    let d = common_prefix a b in
    let p = take d a in
    let (above, below) = find_gap_between (drop d a) (drop d b) s (cmp_bytes-drop a b ∙ h) e in
    (
      ap (λ t. cmp_bytes t (p ++ s)) (sym (take-append-drop d a))
          ∙ cmp_bytes_append p (drop d a) s
          ∙ above,
      ap (λ t. cmp_bytes (p ++ s) t)
            (sym (ap (λ t. t ++ drop d b) (take-common_prefix a b) ∙ take-append-drop d b))
          ∙ cmp_bytes_append p s (drop d b)
          ∙ below,
    )

bytes_eq-of_lt : (a b : Bytes) → cmp_bytes a b ≡ Ordering.lt → bytes_eq a b ≡ false
bytes_eq-of_lt a b h = elim (Bool-cases (bytes_eq a b)) [
  | inl e ↦ cc ((bytes_eq_iff a b).0 e, cmp_bytes_refl a, h)
  | inr e ↦ e
]

-- For a < b, `find_shortest_sep` does not panic and answers a string s with a < s < b, provided
-- that `a` is not empty and that `b` is not `a` with a single 0 byte behind it.
pub find_shortest_sep_between :
    (a b : Bytes)
    → cmp_bytes a b ≡ Ordering.lt
    → a ≢ []
    → b ≢ a ++ 0 ∷ []
    → (s : Bytes) × (find_shortest_sep a b ≡ some s)
      × (cmp_bytes a s ≡ Ordering.lt)
      × (cmp_bytes s b ≡ Ordering.lt)
unfolding find_shortest_sep
find_shortest_sep_between a b h n m =
    elim (Option-cases (find_gap (drop (common_prefix a b) a) (drop (common_prefix a b) b))) [
      | inl e ↦
          let (s, l) = some_of_ne_none (lengthen a b) (lengthen-ne-none a b n) in
          let (above, below) = lengthen_between a b s h m l in
          (s, rw (bytes_eq-of_lt a b h, e) l, above, below)
      | inr (r, e) ↦
          let (above, below) = gap_between a b r h e in
          (take (common_prefix a b) a ++ r, rw (bytes_eq-of_lt a b h, e, below), above, below)
    ]

find_gap-prefix :
    (a r : Bytes)
    → find_gap (drop (common_prefix a (a ++ r)) a) (drop (common_prefix a (a ++ r)) (a ++ r)) ≡ none
unfolding find_gap common_prefix
find_gap-prefix [] r = refl
find_gap-prefix (x ∷ xs) r = ground (arith, find_gap-prefix xs r)

cmp_bytes-set_append :
    (a r : Bytes) (i : ℕ)
    → i < length a
    → cmp_bytes (set a i (get_or a i 0 + 1)) (a ++ r) ≡ Ordering.gt
cmp_bytes-set_append [] r i h = absurd (omega arith)
cmp_bytes-set_append (x ∷ xs) r zero h = ground arith
cmp_bytes-set_append (x ∷ xs) r (suc i) h = ground (arith, cmp_bytes-set_append xs r i)

lengthen-append_zero : (a : Bytes) → a ≢ [] → lengthen a (a ++ 0 ∷ []) ≡ some (a ++ 0 ∷ [])
unfolding lengthen
lengthen-append_zero [] n = absurd (n refl)
lengthen-append_zero (x ∷ xs) n = ground (
  arith,
  cmp_bytes-set_append (x ∷ xs) (0 ∷ []) (last_below_ff (x ∷ xs) (length xs)),
  last_below_ff-le (x ∷ xs) (length xs),
)

-- The excluded case: for every non-empty `a`, the separator of `a` and of `a` with a 0 byte behind
-- it is that second string itself, so it does not lie below it.
pub find_shortest_sep_successor :
    (a : Bytes) → a ≢ [] → find_shortest_sep a (a ++ 0 ∷ []) ≡ some (a ++ 0 ∷ [])
unfolding find_shortest_sep
find_shortest_sep_successor a n =
    rw (bytes_eq-of_lt a (a ++ 0 ∷ []) (cmp_bytes_extend a 0 []), find_gap-prefix a (0 ∷ []))
      (lengthen-append_zero a n)

-- The other excluded case: the separator of the empty string and of any other panics.
pub find_shortest_sep_empty : (y : ℕ) (ys : Bytes) → find_shortest_sep [] (y ∷ ys) ≡ none
unfolding find_shortest_sep
find_shortest_sep_empty y ys = refl

-- On equal strings the separator is the string.
pub find_shortest_sep_same : (a : Bytes) → find_shortest_sep a a ≡ some a
unfolding find_shortest_sep
find_shortest_sep_same a = rw ((bytes_eq_iff a a).1 refl)

-- `find_short_succ` answers bytes that come behind `a` and that are at most one byte longer.
pub find_short_succ_above :
    (a : Bytes)
    → All IsByte a
    → (cmp_bytes a (find_short_succ a) ≡ Ordering.lt)
      × All IsByte (find_short_succ a)
      × (length (find_short_succ a) ≤ length a + 1)
unfolding find_short_succ
find_short_succ_above [] h = (refl, omega arith, omega arith)
find_short_succ_above (x ∷ xs) h = ground (arith, find_short_succ_above xs h.1)

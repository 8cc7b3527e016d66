-- ===== src/MemTable/Shift.antt =====
-- shift_left of src/memtable.rs drops the front of a vector by swaps.
use leveldb_rs.Base.{
  ℕ, zero, suc, ◌+◌, ◌-◌, ◌≤◌, ◌≡◌, refl, ap, sym, ◌∙◌, arith, [], ◌∷◌, ◌++◌, append-nil,
  append_assoc, length, length-append, length-take, length-drop, take, drop, take-append-drop,
  take_append, get_or, set,
}
use leveldb_rs.Coding.{Bytes}
use leveldb_rs.MemTable.{shift_from, shift_left}

get_or-append :
    (xs : Bytes) (y : ℕ) (ys : Bytes) (i : ℕ) → i ≡ length xs → get_or (xs ++ y ∷ ys) i 0 ≡ y
get_or-append [] y ys zero h = refl
get_or-append [] y ys (suc i) h = absurd (omega arith)
get_or-append (x ∷ xs) y ys zero h = absurd (omega arith)
get_or-append (x ∷ xs) y ys (suc i) h = get_or-append xs y ys i (omega arith)

set-append :
    (xs : Bytes) (y v : ℕ) (ys : Bytes) (i : ℕ)
    → i ≡ length xs
    → set (xs ++ y ∷ ys) i v ≡ xs ++ v ∷ ys
set-append [] y v ys zero h = refl
set-append [] y v ys (suc i) h = absurd (omega arith)
set-append (x ∷ xs) y v ys zero h = absurd (omega arith)
set-append (x ∷ xs) y v ys (suc i) h = ap (λ l. x ∷ l) (set-append xs y v ys i (omega arith))

-- A round exchanges the first byte behind the gap with the gap's first.
swap_round :
    (a : Bytes) (b : ℕ) (bs : Bytes) (c : ℕ) (cs : Bytes) (i mid : ℕ)
    → mid ≡ suc (length bs)
    → i ≡ length a + mid
    → (s : Bytes) → s ≡ a ++ b ∷ (bs ++ c ∷ cs)
    → set (set s i (get_or s (i - mid) 0)) (i - mid) (get_or s i 0)
      ≡ (a ++ c ∷ []) ++ ((bs ++ b ∷ []) ++ cs)
swap_round a b bs c cs i mid hm hi s e =
    let e' : s ≡ (a ++ b ∷ bs) ++ c ∷ cs = e ∙ sym (append_assoc a (b ∷ bs) (c ∷ cs)) in
    let n : i ≡ length (a ++ b ∷ bs) = omega (arith, length-append a (b ∷ bs)) in
    let at_gap : get_or s (i - mid) 0 ≡ b =
      ap (λ l. get_or l (i - mid) 0) e ∙ get_or-append a b (bs ++ c ∷ cs) (i - mid) (omega arith) in
    let at_end : get_or s i 0 ≡ c =
      ap (λ l. get_or l i 0) e' ∙ get_or-append (a ++ b ∷ bs) c cs i n in
    ap (λ v. set (set s i v) (i - mid) (get_or s i 0)) at_gap
    ∙ ap (λ v. set (set s i b) (i - mid) v) at_end
    ∙ ap (λ l. set (set l i b) (i - mid) c) e'
    ∙ ap (λ l. set l (i - mid) c)
        (set-append (a ++ b ∷ bs) c b cs i n ∙ append_assoc a (b ∷ bs) (b ∷ cs))
    ∙ set-append a b c (bs ++ b ∷ cs) (i - mid) (omega arith)
    ∙ simp (append_assoc)

-- The rounds move all that stands behind the gap to the front.
shift_from-moves :
    (cs a : Bytes) (b : ℕ) (bs : Bytes) (i mid : ℕ) (s : Bytes)
    → mid ≡ suc (length bs)
    → i ≡ length a + mid
    → s ≡ a ++ b ∷ (bs ++ cs)
    → (gap : Bytes) × (shift_from (length cs) i mid s ≡ (a ++ cs) ++ gap)
unfolding shift_from
shift_from-moves [] a b bs i mid s hm hi e =
    (b ∷ bs, e ∙ ap (λ l. a ++ b ∷ l) (append-nil bs) ∙ ap (λ l. l ++ b ∷ bs) (sym (append-nil a)))
shift_from-moves (c ∷ cs) a b [] i mid s hm hi e =
    let q = swap_round a b [] c cs i mid hm hi s e in
    let (gap, r) =
      shift_from-moves cs (a ++ c ∷ []) b [] (i + 1) mid _ hm
        (omega (arith, length-append a (c ∷ []))) q in
    (gap, r ∙ ap (λ l. l ++ gap) (append_assoc a (c ∷ []) cs))
shift_from-moves (c ∷ cs) a b (b' ∷ bs) i mid s hm hi e =
    let q = swap_round a b (b' ∷ bs) c cs i mid hm hi s e in
    let (gap, r) =
      shift_from-moves cs (a ++ c ∷ []) b' (bs ++ b ∷ []) (i + 1) mid _
        (omega (arith, length-append bs (b ∷ []))) (omega (arith, length-append a (c ∷ []))) q in
    (gap, r ∙ ap (λ l. l ++ gap) (append_assoc a (c ∷ []) cs))

-- Nothing moves when nothing is dropped.
set-get_or : (s : Bytes) (i : ℕ) → set s i (get_or s i 0) ≡ s
set-get_or [] i = refl
set-get_or (x ∷ xs) zero = refl
set-get_or (x ∷ xs) (suc i) = ap (λ l. x ∷ l) (set-get_or xs i)

shift_from-zero : (n i : ℕ) (s : Bytes) → shift_from n i 0 s ≡ s
unfolding shift_from
shift_from-zero zero i s = refl
shift_from-zero (suc n) i s =
    let z : i - 0 ≡ i = omega arith in
    shift_from-zero n (i + 1) _
    ∙ ap (λ j. set (set s i (get_or s j 0)) j (get_or s i 0)) z
    ∙ ap (λ l. set l i (get_or s i 0)) (set-get_or s i)
    ∙ set-get_or s i

-- Up to the vector's length, shift_left by an offset leaves what stands from the offset on.
pub shift_left-drop : (s : Bytes) (mid : ℕ) → mid ≤ length s → shift_left s mid ≡ drop mid s
unfolding shift_left
shift_left-drop s zero h =
    ap (take (length s - 0)) (shift_from-zero (length s - 0) 0 s)
    ∙ ap (take (length s - 0)) (sym (append-nil s))
    ∙ take_append (length s - 0) s [] (omega arith)
shift_left-drop [] (suc mid) h = absurd (omega arith)
shift_left-drop (x ∷ s) (suc mid) h =
    let n : length (drop mid s) ≡ length s - mid = length-drop mid s in
    let e : x ∷ s ≡ x ∷ (take mid s ++ drop mid s) =
      ap (λ l. x ∷ l) (sym (take-append-drop mid s)) in
    let (gap, q) =
      shift_from-moves (drop mid s) [] x (take mid s) (suc mid) (suc mid) (x ∷ s)
        (omega (arith, length-take mid s)) (omega arith) e in
    let z : length (x ∷ s) - suc mid ≡ length (drop mid s) = omega arith in
    ap (λ k. take k (shift_from k (suc mid) (suc mid) (x ∷ s))) z
    ∙ ap (take (length (drop mid s))) q
    ∙ take_append (length (drop mid s)) (drop mid s) gap refl

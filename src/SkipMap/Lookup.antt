-- ===== src/SkipMap/Lookup.antt =====
-- get_greater_or_equal and get_next_smaller of src/skipmap.rs find what a scan of the nodes finds.
use leveldb_rs.Base.{append_assoc}
use leveldb_rs.Base.{
  ℕ, zero, suc, ◌+◌, ◌<◌, ◌≡◌, refl, ap, sym, ◌∙◌, arith, false, Option, none, some, List, [], ◌∷◌,
  ◌++◌, All, length, length-append, Ordering, Ordering-cases, Option-cases, inl, inr, ◌⊎◌, ◌>>=◌,
  ◌==◌, if◌then◌else◌,
}
use leveldb_rs.Coding.{Bytes}
use leveldb_rs.SkipMap.{
  SkipMap, skip_at, head, below, SearchEnd, returned, stopped, ge_loop, fuel_for,
  get_greater_or_equal, get_next_smaller,
}
use leveldb_rs.SkipMap.Links.{Linked, Short, none-Short, find_node}
use leveldb_rs.SkipMap.Order.{
  IsOrder, IsSorted, HasKey, IsBelow, NotBelow, HasNodes, All-left, All-right, All-middle,
}
use leveldb_rs.SkipMap.Search.{
  first, last_or, last_or-append, Ahead, round, bottom_empty, compare_next, next-HasKey, tail_of,
  smaller_loop-eq,
}
use mathlib.Core.Path.{subst}

-- What the loop of get_greater_or_equal answers, with `m` below the key and `r` not below it ahead.
abbrev GeEnd : ℕ → List ℕ → List ℕ → SearchEnd → Type 0
GeEnd current m r (returned n) = first r ≡ some n
GeEnd current m r (stopped c) = (r ≡ []) × (c ≡ last_or current m)

abbrev GeAnswers : ℕ → List ℕ → List ℕ → Option SearchEnd → Type 0
GeAnswers current m r x = (e : SearchEnd) × (x ≡ some e) × GeEnd current m r e

abbrev pub last : List ℕ → Option ℕ
last [] = none
last (a ∷ t) = some (last_or a t)

last-eq : (m : List ℕ) → 0 < last_or head m → last m ≡ some (last_or head m)
last-eq [] h = absurd (omega arith)
last-eq (a ∷ t) h = refl

append-nil_inv : (m r : List ℕ) → m ++ r ≡ [] → (m ≡ []) × (r ≡ [])
append-nil_inv [] r h = (refl, h)
append-nil_inv (x ∷ m) r h = cc

module _ {R : Type 0} (sm : SkipMap R) {cmp : Bytes → Bytes → Option Ordering}
    {IsKey : Bytes → Type 0} (o : IsOrder cmp IsKey) (key : Bytes) where
  -- The first node of `r` that equals the key stands first in `r`.
  equal_first :
      (c1 c2 : List ℕ) (n : ℕ)
      → IsKey key
      → All (HasKey o sm.node) (c1 ++ n ∷ c2)
      → IsSorted o sm.node (c1 ++ n ∷ c2)
      → All (NotBelow o sm.node key) (c1 ++ n ∷ c2)
      → o.order (sm.node n).key key ≡ Ordering.eq
      → first (c1 ++ n ∷ c2) ≡ some n
  equal_first [] c2 n hk hv hs hr e = refl
  equal_first (x ∷ c1) c2 n hk hv hs hr e = absurd (
      hr.0 (
        o.lt_eq (sm.node x).key (sm.node n).key key hv.0
          (All-middle (HasKey o sm.node) c1 n c2 hv.1) hk
          (All-middle (λ b. o.order (sm.node x).key (sm.node b).key ≡ Ordering.lt) c1 n c2 hs.0) e))

  IsSorted-right : (m r : List ℕ) → IsSorted o sm.node (m ++ r) → IsSorted o sm.node r
  IsSorted-right [] r h = h
  IsSorted-right (x ∷ m) r h = IsSorted-right m r h.1

  module _ (r : List ℕ) (hk : IsKey key) (hr : All (NotBelow o sm.node key) r)
      (hv : All (HasKey o sm.node) r) (hb : All (λ a. ¬ (skip_at sm.node a 0 ≡ none)) r)
      (hs : IsSorted o sm.node r) where
    -- The end of a round whose link leads nowhere.
    none_ends :
        (current level : ℕ) (m : List ℕ) {go : ℕ → Option SearchEnd}
        → All (λ a. ¬ (skip_at sm.node a 0 ≡ none)) (m ++ r)
        → Short (λ a. skip_at sm.node a level) (m ++ r)
        → ((l : ℕ) → level ≡ suc l → GeAnswers current m r (go l))
        → GeAnswers current m r (below level (some (stopped current)) go)
    none_ends current zero m h s g =
        let (em, er) = append-nil_inv m r (bottom_empty sm o key r (m ++ r) h s) in
        (stopped current, refl, (er, ap (last_or current) (sym em)))
    none_ends current (suc l) m h s g = g l refl

    -- The end of a round whose link leads past the key.
    greater_ends :
        (current level n : ℕ) (m : List ℕ) {go : ℕ → Option SearchEnd}
        → Linked (λ a. skip_at sm.node a level) (some n) r
        → ((l : ℕ) → level ≡ suc l → GeAnswers current m r (go l))
        → GeAnswers current m r
            (if level == 0 then some (returned n) else below level (some (stopped current)) go)
    greater_ends current zero n m k g =
        let (c1, c2, er, hc) = find_node (λ a. skip_at sm.node a 0) r n k in
        let ec : c1 ≡ [] =
          bottom_empty sm o key r c1
            (All-left (λ a. ¬ (skip_at sm.node a 0 ≡ none)) c1 (n ∷ c2)
              (subst (λ l. All (λ a. ¬ (skip_at sm.node a 0 ≡ none)) l) er hb))
            hc in
        (returned n, refl, ap first er ∙ ap (λ l. first (l ++ n ∷ c2)) ec)
    greater_ends current (suc l) n m k g =
        let f : (suc l == 0) ≡ false = ground arith in rw f (g l refl)

    GeAnswers-move :
        (current n : ℕ) (m m1 m2 : List ℕ) (x : Option SearchEnd)
        → m ≡ m1 ++ n ∷ m2
        → GeAnswers n m2 r x
        → GeAnswers current m r x
    GeAnswers-move current n m m1 m2 x em (returned n', e, h) = (returned n', e, h)
    GeAnswers-move current n m m1 m2 x em (stopped c, e, h) =
        (stopped c, e, (h.0, h.1 ∙ sym (ap (last_or current) em ∙ last_or-append current n m1 m2)))

    ge_loop-answers :
        (fuel level current : ℕ) (m : List ℕ)
        → length m + level < fuel
        → All (IsBelow o sm.node key) m
        → All (HasKey o sm.node) m
        → All (λ a. ¬ (skip_at sm.node a 0 ≡ none)) (m ++ r)
        → Ahead sm o key r current level (m ++ r)
        → GeAnswers current m r (ge_loop cmp sm key fuel current level)
    unfolding ge_loop
    ge_loop-answers zero level current m f hm hmv hmb h = absurd (omega arith)
    ge_loop-answers (suc fuel) level current m f hm hmv hmb h =
        let (p, e, k) = h level (omega arith) in
        elim (Option-cases p) [
          | inl ep ↦
              let e' : skip_at sm.node current level ≡ some none = e ∙ ap some ep in
              rw (ge_loop, e', ◌>>=◌)
                (none_ends current level m hmb
                  (none-Short (λ a. skip_at sm.node a level) (m ++ r)
                    (subst (λ t. Linked (λ a. skip_at sm.node a level) t (m ++ r)) ep k))
                  (λ (l : ℕ) (el : level ≡ suc l).
                    ge_loop-answers fuel l current m (omega arith) hm hmv hmb
                      (λ i hi. h i (omega arith))))
          | inr (n, ep) ↦
              let e' : skip_at sm.node current level ≡ some (some n) = e ∙ ap some ep in
              let step = round sm o key r current level n m hm hr h e' in
              let c =
                compare_next sm o key r hk hr hv hb n
                  (next-HasKey sm o key r hk hr hv hb current level n m hmv step) in
              elim step [
                | inl (m1, m2, em, h', b) ↦
                    rw (ge_loop, e', ◌>>=◌, c, ◌>>=◌, b)
                      (GeAnswers-move current n m m1 m2 _ em (
                        ge_loop-answers fuel level n m2
                          (omega (arith, ap length em, length-append m1 (n ∷ m2)))
                          (tail_of sm o key r hk hr hv hb (IsBelow o sm.node key) m1 n m2 em hm)
                          (tail_of sm o key r hk hr hv hb (HasKey o sm.node) m1 n m2 em hmv)
                          ((All-right (λ a. ¬ (skip_at sm.node a 0 ≡ none)) m1 (n ∷ (m2 ++ r))
                            (subst (λ l. All (λ a. ¬ (skip_at sm.node a 0 ≡ none)) l)
                              (ap (λ l. l ++ r) em ∙ append_assoc m1 (n ∷ m2) r) hmb)).1)
                          h'))
                | inr (s, k', b) ↦ elim (Ordering-cases (o.order (sm.node n).key key)) [
                  | inl z ↦ absurd (b z)
                  | inr (inl z) ↦
                      rw (ge_loop, e', ◌>>=◌, c, ◌>>=◌, z)
                        (let (c1, c2, er, hc) = find_node (λ a. skip_at sm.node a level) r n k' in
                          (
                            returned n,
                            refl,
                            ap first er
                                ∙ equal_first c1 c2 n hk
                                    (subst (λ l. All (HasKey o sm.node) l) er hv)
                                    (subst (λ l. IsSorted o sm.node l) er hs)
                                    (subst (λ l. All (NotBelow o sm.node key) l) er hr) z,
                          ))
                  | inr (inr z) ↦
                      rw (ge_loop, e', ◌>>=◌, c, ◌>>=◌, z)
                        (greater_ends current level n m k' (λ (l : ℕ) (el : level ≡ suc l).
                          ge_loop-answers fuel l current m (omega arith) hm hmv hmb
                            (λ i hi. h i (omega arith))))
                ]
              ]
        ]

  module _ (l m r : List ℕ) (hn : HasNodes sm l) (hs : IsSorted o sm.node l)
      (hv : All (HasKey o sm.node) l) (hk : IsKey key) (el : l ≡ m ++ r)
      (hm : All (IsBelow o sm.node key) m) (hr : All (NotBelow o sm.node key) r) where
    -- The searches start at the head, with all nodes ahead.
    start : Ahead sm o key r head 11 (m ++ r)
    start i hi =
        let (p, e, k) = hn.levels i (omega arith) in
        (p, e, subst (λ t. Linked (λ a. skip_at sm.node a i) p t) el k)

    start_fuel : length m + 11 < fuel_for sm
    start_fuel = omega (arith, hn.len_nodes, ap length el, length-append m r)

    valid_all : All (HasKey o sm.node) (m ++ r)
    valid_all = subst (λ t. All (HasKey o sm.node) t) el hv

    bottom_all : All (λ a. ¬ (skip_at sm.node a 0 ≡ none)) (m ++ r)
    bottom_all = subst (λ t. All (λ a. ¬ (skip_at sm.node a 0 ≡ none)) t) el hn.bottom

    -- The node that `last_or` names, unless it is the head.
    last_cases : (P : ℕ → Type 0) (a : ℕ) (t : List ℕ) → All P t → (t ≡ []) ⊎ P (last_or a t)
    last_cases P a [] h = inl refl
    last_cases P a (b ∷ t) h = elim (last_cases P b t h.1) [
      | inl e ↦ inr (subst (λ x. P (last_or b x)) (sym e) h.0)
      | inr q ↦ inr q
    ]

    last_facts :
        (m ≡ [])
        ⊎ ((0 < last_or head m) × (cmp (sm.node (last_or head m)).key key ≡ some Ordering.lt))
    last_facts =
        elim (last_cases (λ a. 0 < a) head m
          (positive m (
            All-left (λ a. (0 < a) × (a < sm.fresh)) m r
              (subst (λ t. All (λ a. (0 < a) × (a < sm.fresh)) t) el hn.addresses)))) [
                | inl e ↦ inl e
                | inr q ↦
                    elim (last_cases (HasKey o sm.node) head m
                      (All-left (HasKey o sm.node) m r valid_all)) [
                        | inl e ↦ inl e
                        | inr v ↦ elim (last_cases (IsBelow o sm.node key) head m hm) [
                          | inl e ↦ inl e
                          | inr b ↦
                              inr
                                (q, o.cmp_order (sm.node (last_or head m)).key key v hk ∙ ap some b)
                        ]
                      ]
              ]
      where
        positive : (t : List ℕ) → All (λ a. (0 < a) × (a < sm.fresh)) t → All (λ a. 0 < a) t
        positive [] h = tt
        positive (x ∷ t) h = (h.0.0, positive t h.1)

    -- Let the comparator order the keys of the nodes and the key that is asked for, let the map have the
    -- nodes `l`, linked on every level, with keys that ascend, and let the key split them into those
    -- below it and the rest. Then get_greater_or_equal ends and answers the first node of the rest, or
    -- nothing if all are below.
    pub get_greater_or_equal-eq : get_greater_or_equal cmp sm key ≡ some (first r)
    unfolding get_greater_or_equal
    get_greater_or_equal-eq =
        let (e, q, h) =
          ge_loop-answers r hk hr (All-right (HasKey o sm.node) m r valid_all)
            (All-right (λ a. ¬ (skip_at sm.node a 0 ≡ none)) m r bottom_all)
            (IsSorted-right m r (subst (λ t. IsSorted o sm.node t) el hs)) (fuel_for sm) 11 head m
            start_fuel hm (All-left (HasKey o sm.node) m r valid_all) bottom_all start in
        ge_finish e q h
      where
        ge_finish :
            (e : SearchEnd)
            → ge_loop cmp sm key (fuel_for sm) head 11 ≡ some e
            → GeEnd head m r e
            → get_greater_or_equal cmp sm key ≡ some (first r)
        ge_finish (returned n) q h = rw (get_greater_or_equal, q, ◌>>=◌) (ap some (sym h))
        ge_finish (stopped c) q h = elim last_facts [
          | inl e ↦
              let z : c ≡ 0 = h.1 ∙ ap (last_or head) e in
              rw (get_greater_or_equal, q, ◌>>=◌, z) (ap (λ t. some (first t)) (sym h.0))
          | inr (pos, lt) ↦
              let z : (c == 0) ≡ false = ground (arith, h.1, pos) in
              let c' : cmp (sm.node c).key key ≡ some Ordering.lt =
                ap (λ x. cmp (sm.node x).key key) h.1 ∙ lt in
              rw (get_greater_or_equal, q, ◌>>=◌, z, c', ◌>>=◌) (ap (λ t. some (first t)) (sym h.0))
        ]

    -- Let the comparator order the keys of the nodes and the key that is asked for, let the map have the
    -- nodes `l`, linked on every level, with keys that ascend, and let the key split them into those
    -- below it and the rest. Then get_next_smaller ends and answers the last node below the key, or
    -- nothing if none is.
    pub get_next_smaller-eq : get_next_smaller cmp sm key ≡ some (last m)
    unfolding get_next_smaller
    get_next_smaller-eq =
        let q =
          smaller_loop-eq sm o key r hk hr (All-right (HasKey o sm.node) m r valid_all)
            (All-right (λ a. ¬ (skip_at sm.node a 0 ≡ none)) m r bottom_all) (fuel_for sm) 11 head m
            start_fuel hm (All-left (HasKey o sm.node) m r valid_all)
            (All-left (λ a. ¬ (skip_at sm.node a 0 ≡ none)) m r bottom_all) start in
        elim last_facts [
          | inl e ↦
              let q' = q ∙ ap (λ t. some (last_or head t)) e in
              rw (get_next_smaller, q', ◌>>=◌) (ap (λ t. some (last t)) (sym e))
          | inr (pos, lt) ↦
              let z : (last_or head m == 0) ≡ false = ground (arith, pos) in
              rw (get_next_smaller, q, ◌>>=◌, z, lt, ◌>>=◌) (ap some (sym (last-eq m pos)))
        ]

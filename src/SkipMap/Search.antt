-- ===== src/SkipMap/Search.antt =====
-- The searches of src/skipmap.rs, against the list of the map's nodes.
use leveldb_rs.Base.{append_assoc}
use leveldb_rs.Base.{
  ℕ, zero, suc, ◌+◌, ◌≤◌, ◌<◌, ◌≡◌, refl, ap, sym, ◌∙◌, arith, Option, none, some, List, [], ◌∷◌,
  ◌++◌, All, length, length-append, Ordering, Ordering-cases, Option-cases, inl, inr, ◌⊎◌, ◌>>=◌,
}
use leveldb_rs.Coding.{Bytes}
use leveldb_rs.SkipMap.{SkipMap, skip_at, below, smaller_loop}
use leveldb_rs.SkipMap.Links.{
  Linked, Short, at-below, Linked-behind, none-Short, find_link, find_node,
}
use leveldb_rs.SkipMap.Order.{IsOrder, HasKey, IsBelow, NotBelow, All-left, All-right, All-middle}
use mathlib.Core.Path.{subst}

abbrev pub first : List ℕ → Option ℕ
first [] = none
first (a ∷ l) = some a

abbrev pub last_or : ℕ → List ℕ → ℕ
last_or a [] = a
last_or a (b ∷ l) = last_or b l

pub last_or-append : (a n : ℕ) (xs ys : List ℕ) → last_or a (xs ++ n ∷ ys) ≡ last_or n ys
last_or-append a n [] ys = refl
last_or-append a n (x ∷ xs) ys = last_or-append x n xs ys

-- A round of a search that stands at `current`, on `level`, with the nodes `m` below the key and
-- `r` not below it ahead.
module _ {R : Type 0} (sm : SkipMap R) {cmp : Bytes → Bytes → Option Ordering}
    {IsKey : Bytes → Type 0} (o : IsOrder cmp IsKey) (key : Bytes) (r : List ℕ) where
  abbrev pub link_at : ℕ → ℕ → Option (Option ℕ)
  link_at i a = skip_at sm.node a i

  -- On every level from `level` down the links behind `current` visit the nodes ahead.
  abbrev pub Ahead : ℕ → ℕ → List ℕ → Type 0
  Ahead current level l =
      (i : ℕ) → i ≤ level → (p : Option ℕ) × (link_at i current ≡ some p) × Linked (link_at i) p l

  abbrev pub Moves : ℕ → ℕ → List ℕ → ℕ → Type 0
  Moves current level m n =
      (m1 : List ℕ) × (m2 : List ℕ) × (m ≡ m1 ++ n ∷ m2)
      × Ahead n level (m2 ++ r)
      × IsBelow o sm.node key n

  abbrev pub Descends : ℕ → ℕ → List ℕ → ℕ → Type 0
  Descends current level m n =
      Short (link_at level) m × Linked (link_at level) (some n) r × NotBelow o sm.node key n

  Ahead-move :
      (current level n : ℕ) (m1 m2 : List ℕ) (q : Option ℕ)
      → Ahead current level ((m1 ++ n ∷ m2) ++ r)
      → link_at level n ≡ some q
      → Ahead n level (m2 ++ r)
  Ahead-move current level n m1 m2 q h t i hi =
      let (p, e, k) = h i hi in
      let (q', t') = at-below (sm.node n).skips level i q hi t in
      (
        q',
        t',
        Linked-behind (link_at i) m1 (m2 ++ r) n p q' t'
            (subst (λ l. Linked (link_at i) p l) (append_assoc m1 (n ∷ m2) r) k),
      )

  pub round :
      (current level n : ℕ) (m : List ℕ)
      → All (IsBelow o sm.node key) m
      → All (NotBelow o sm.node key) r
      → Ahead current level (m ++ r)
      → link_at level current ≡ some (some n)
      → Moves current level m n ⊎ Descends current level m n
  round current level n m hm hr h e =
      let (p, e', k) = h level (omega arith) in
      let ep : p ≡ some n = ap (λ t. elim t [ none ↦ none | some x ↦ x ]) (sym e' ∙ e) in
      elim (find_link (link_at level) m r n (subst (λ t. Linked (link_at level) t (m ++ r)) ep k)) [
        | inl (m1, m2, q, em, hs, t) ↦ inl (
          m1,
          m2,
          em,
          Ahead-move current level n m1 m2 q (subst (λ l. Ahead current level (l ++ r)) em h) t,
          All-middle (IsBelow o sm.node key) m1 n m2
              (subst (λ l. All (IsBelow o sm.node key) l) em hm),
        )
        | inr (hs, k') ↦
            let (c1, c2, er, hc) = find_node (link_at level) r n k' in
            inr (
              hs,
              k',
              All-middle (NotBelow o sm.node key) c1 n c2
                  (subst (λ l. All (NotBelow o sm.node key) l) er hr),
            )
      ]

  -- On level 0 every node has a link, so that no node is passed by.
  pub bottom_empty :
      (l : List ℕ) → All (λ a. ¬ (link_at 0 a ≡ none)) l → Short (link_at 0) l → l ≡ []
  bottom_empty [] h k = refl
  bottom_empty (a ∷ l) h k = absurd (h.0 k.0)

  pub Ahead-down :
      (current level : ℕ) (l : List ℕ) → Ahead current (suc level) l → Ahead current level l
  Ahead-down current level l h i hi = h i (omega arith)

  module _ (hk : IsKey key) (hr : All (NotBelow o sm.node key) r) (hv : All (HasKey o sm.node) r)
      (hb : All (λ a. ¬ (link_at 0 a ≡ none)) r) where
    pub compare_next :
        (n : ℕ) → HasKey o sm.node n → cmp (sm.node n).key key ≡ some (o.order (sm.node n).key key)
    compare_next n h = o.cmp_order (sm.node n).key key h hk

    -- The next node ahead, which is in `m` or in `r`, has a key.
    pub next-HasKey :
        (current level n : ℕ) (m : List ℕ)
        → All (HasKey o sm.node) m
        → Moves current level m n ⊎ Descends current level m n
        → HasKey o sm.node n
    next-HasKey current level n m hm (inl (m1, m2, e, h, b)) =
        All-middle (HasKey o sm.node) m1 n m2 (subst (λ l. All (HasKey o sm.node) l) e hm)
    next-HasKey current level n m hm (inr (s, k, b)) =
        let (c1, c2, e, h) = find_node (link_at level) r n k in
        All-middle (HasKey o sm.node) c1 n c2 (subst (λ l. All (HasKey o sm.node) l) e hv)

    -- The end of a round where the nodes below the key have no link on the level.
    ends :
        (current level : ℕ) (m : List ℕ) {go : ℕ → Option ℕ}
        → All (λ a. ¬ (link_at 0 a ≡ none)) m
        → Short (link_at level) m
        → ((l : ℕ) → level ≡ suc l → go l ≡ some (last_or current m))
        → below level (some current) go ≡ some (last_or current m)
    ends current zero m hmb s g = ap (λ t. some (last_or current t)) (sym (bottom_empty m hmb s))
    ends current (suc l) m hmb s g = g l refl

    pub tail_of :
        (P : ℕ → Type 0) (m1 : List ℕ) (n : ℕ) (m2 : List ℕ) {m : List ℕ}
        → m ≡ m1 ++ n ∷ m2
        → All P m
        → All P m2
    tail_of P m1 n m2 e h = (All-right P m1 (n ∷ m2) (subst (λ l. All P l) e h)).1

    -- The loop that looks for the predecessor ends behind the nodes below the key.
    pub smaller_loop-eq :
        (fuel level current : ℕ) (m : List ℕ)
        → length m + level < fuel
        → All (IsBelow o sm.node key) m
        → All (HasKey o sm.node) m
        → All (λ a. ¬ (link_at 0 a ≡ none)) m
        → Ahead current level (m ++ r)
        → smaller_loop cmp sm key fuel current level ≡ some (last_or current m)
    unfolding smaller_loop
    smaller_loop-eq zero level current m f hm hmv hmb h = absurd (omega arith)
    smaller_loop-eq (suc fuel) level current m f hm hmv hmb h =
        let (p, e, k) = h level (omega arith) in
        elim (Option-cases p) [
          | inl ep ↦
              let e' : link_at level current ≡ some none = e ∙ ap some ep in
              rw (smaller_loop, e', ◌>>=◌)
                (ends current level m hmb
                  (All-left (λ a. link_at level a ≡ none) m r
                    (none-Short (link_at level) (m ++ r)
                      (subst (λ t. Linked (link_at level) t (m ++ r)) ep k)))
                  (λ l el.
                    smaller_loop-eq fuel l current m (omega arith) hm hmv hmb
                      (λ i hi. h i (omega arith))))
          | inr (n, ep) ↦
              let e' : link_at level current ≡ some (some n) = e ∙ ap some ep in
              let step = round current level n m hm hr h e' in
              let c = compare_next n (next-HasKey current level n m hmv step) in
              elim step [
                | inl (m1, m2, em, h', b) ↦
                    rw (smaller_loop, e', ◌>>=◌, c, ◌>>=◌, b)
                      (smaller_loop-eq fuel level n m2
                          (omega (arith, ap length em, length-append m1 (n ∷ m2)))
                          (tail_of (IsBelow o sm.node key) m1 n m2 em hm)
                          (tail_of (HasKey o sm.node) m1 n m2 em hmv)
                          (tail_of (λ a. ¬ (link_at 0 a ≡ none)) m1 n m2 em hmb) h'
                        ∙ ap some (sym (ap (last_or current) em ∙ last_or-append current n m1 m2)))
                | inr (s, k', b) ↦
                    let go = λ (l : ℕ) (el : level ≡ suc l).
                      smaller_loop-eq fuel l current m (omega arith) hm hmv hmb
                        (λ i hi. h i (omega arith)) in
                    elim (Ordering-cases (o.order (sm.node n).key key)) [
                      | inl z ↦ absurd (b z)
                      | inr (inl z) ↦
                          rw (smaller_loop, e', ◌>>=◌, c, ◌>>=◌, z) (ends current level m hmb s go)
                      | inr (inr z) ↦
                          rw (smaller_loop, e', ◌>>=◌, c, ◌>>=◌, z) (ends current level m hmb s go)
                    ]
              ]
        ]

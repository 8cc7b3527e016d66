-- ===== src/SkipMap/Predecessors.antt =====
-- The loop of insert in src/skipmap.rs finds, on every level of the new node, the node to link from.
use mathlib.Core.Path.{subst⁻¹}
use leveldb_rs.Base.{lt→ltb, ==_iff, ◌==◌}
use leveldb_rs.Base.{
  ℕ, zero, suc, ◌+◌, ◌≤◌, ◌<◌, ◌≡◌, ◌≢◌, refl, ap, sym, ◌∙◌, arith, true, false, Option, none, some,
  List, [], ◌∷◌, ◌++◌, append_assoc, append-nil, All, length, length-append, length-set, get_or,
  set, ltb, Bool-cases, Ordering, Option-cases, inl, inr, ◌>>=◌, if◌then◌else◌,
}
use leveldb_rs.Coding.{Bytes}
use leveldb_rs.SkipMap.{Node, SkipMap, skip_at, head, below, insert_loop}
use leveldb_rs.SkipMap.Links.{Linked, Short, none-Short, find_node}
use leveldb_rs.SkipMap.Order.{IsOrder, HasKey, IsBelow, NotBelow, All-left, All-middle}
use leveldb_rs.SkipMap.Search.{
  last_or, last_or-append, Ahead, round, bottom_empty, compare_next, next-HasKey, tail_of,
}
use mathlib.Core.Path.{subst}

get_or-set_same : (xs : List ℕ) (i v d : ℕ) → i < length xs → get_or (set xs i v) i d ≡ v
get_or-set_same [] i v d h = absurd (omega arith)
get_or-set_same (x ∷ xs) zero v d h = refl
get_or-set_same (x ∷ xs) (suc i) v d h = get_or-set_same xs i v d (omega arith)

get_or-set_ne : (xs : List ℕ) (i j v d : ℕ) → i ≢ j → get_or (set xs i v) j d ≡ get_or xs j d
get_or-set_ne [] i j v d h = refl
get_or-set_ne (x ∷ xs) zero zero v d h = absurd (h refl)
get_or-set_ne (x ∷ xs) zero (suc j) v d h = refl
get_or-set_ne (x ∷ xs) (suc i) zero v d h = refl
get_or-set_ne (x ∷ xs) (suc i) (suc j) v d h = get_or-set_ne xs i j v d (λ e. h (ap suc e))

-- The node `c` is the last of `front` that has a link on level `i`: the nodes of `front` behind it
-- have none.
pub record IsPred (node : ℕ → Node) (front : List ℕ) (i c : ℕ) : Type 0 where
  pub before : List ℕ
  pub behind : List ℕ
  pub parts : front ≡ before ++ behind
  pub is_last : c ≡ last_or head before
  pub link : Option ℕ
  pub has_link : skip_at node c i ≡ some link
  pub passed : Short (λ a. skip_at node a i) behind

-- From level `from` on, the list holds the predecessors.
abbrev pub ArePreds : (ℕ → Node) → List ℕ → ℕ → List ℕ → Type 0
ArePreds node front from prevs =
    (j : ℕ) → from ≤ j → j < length prevs → IsPred node front j (get_or prevs j 0)

abbrev pub IsAbove :
    {cmp : Bytes → Bytes → Option Ordering} {IsKey : Bytes → Type 0}
    → IsOrder cmp IsKey
    → (ℕ → Node)
    → Bytes
    → ℕ
    → Type 0
IsAbove o node key a = o.order (node a).key key ≡ Ordering.gt

pub above-NotBelow :
    {cmp : Bytes → Bytes → Option Ordering} {IsKey : Bytes → Type 0} (o : IsOrder cmp IsKey)
    (node : ℕ → Node) (key : Bytes) (l : List ℕ)
    → All (IsAbove o node key) l
    → All (NotBelow o node key) l
above-NotBelow o node key [] h = tt
above-NotBelow o node key (a ∷ l) h =
    ((λ e. let z : Ordering.lt ≡ Ordering.gt = sym e ∙ h.0 in cc), above-NotBelow o node key l h.1)

-- What a round records before it goes down.
abbrev recorded : ℕ → ℕ → List ℕ → List ℕ
recorded level current prevs = if ltb level (length prevs) then set prevs level current else prevs

length-recorded :
    (level current : ℕ) (prevs : List ℕ) → length (recorded level current prevs) ≡ length prevs
length-recorded level current prevs = elim (Bool-cases (ltb level (length prevs))) [
  | inl e ↦
      ap (λ t. length (if t then set prevs level current else prevs)) e
      ∙ length-set prevs level current
  | inr e ↦ ap (λ t. length (if t then set prevs level current else prevs)) e
]

recorded_same :
    (level current : ℕ) (prevs : List ℕ)
    → level < length prevs
    → get_or (recorded level current prevs) level 0 ≡ current
recorded_same level current prevs h =
    ap (λ t. get_or (if t then set prevs level current else prevs) level 0)
      (lt→ltb level (length prevs) h)
    ∙ get_or-set_same prevs level current 0 h

recorded_ne :
    (level current j : ℕ) (prevs : List ℕ)
    → level ≢ j
    → get_or (recorded level current prevs) j 0 ≡ get_or prevs j 0
recorded_ne level current j prevs h = elim (Bool-cases (ltb level (length prevs))) [
  | inl e ↦
      ap (λ t. get_or (if t then set prevs level current else prevs) j 0) e
      ∙ get_or-set_ne prevs level j current 0 h
  | inr e ↦ ap (λ t. get_or (if t then set prevs level current else prevs) j 0) e
]

recorded-ArePreds :
    (node : ℕ → Node) (front : List ℕ) (level current : ℕ) (prevs : List ℕ)
    → IsPred node front level current
    → ArePreds node front (suc level) prevs
    → ArePreds node front level (recorded level current prevs)
recorded-ArePreds node front level current prevs hp h j le lt =
    let lt' : j < length prevs = omega (arith, length-recorded level current prevs) in
    elim (Bool-cases (level == j)) [
      | inl e ↦
          let e' : level ≡ j = (==_iff level j).0 e in
          subst (λ t. IsPred node front t (get_or (recorded level current prevs) t 0)) e'
            (subst⁻¹ (λ c. IsPred node front level c)
              (recorded_same level current prevs (omega arith)) hp)
      | inr e ↦
          let ne : level ≢ j =
            λ z. let t = (==_iff level j).1 z in let f : true ≡ false = sym t ∙ e in cc in
          subst⁻¹ (λ c. IsPred node front j c) (recorded_ne level current j prevs ne)
            (h j (omega (arith, ne)) lt')
    ]

module _ {R : Type 0} (sm : SkipMap R) (front : List ℕ) where
  abbrev pub Found : ℕ → Option (ℕ × List ℕ) → Type 0
  Found n x =
      (prevs : List ℕ) × (x ≡ some (last_or head front, prevs))
      × (length prevs ≡ n)
      × ArePreds sm.node front 0 prevs

module _ {R : Type 0} (sm : SkipMap R) {cmp : Bytes → Bytes → Option Ordering}
    {IsKey : Bytes → Type 0} (o : IsOrder cmp IsKey) (key : Bytes) (front r : List ℕ)
    (hk : IsKey key) (ha : All (IsAbove o sm.node key) r) (hv : All (HasKey o sm.node) r)
    (hb : All (λ a. ¬ (skip_at sm.node a 0 ≡ none)) r) where
  record_ends :
      (current level : ℕ) (b m prevs : List ℕ) (p : Option ℕ) {go : ℕ → Option (ℕ × List ℕ)}
      → front ≡ b ++ m
      → current ≡ last_or head b
      → skip_at sm.node current level ≡ some p
      → All (λ a. ¬ (skip_at sm.node a 0 ≡ none)) m
      → Short (λ a. skip_at sm.node a level) m
      → ArePreds sm.node front (suc level) prevs
      → ((l : ℕ)
          → level ≡ suc l
          → ArePreds sm.node front level (recorded level current prevs)
          → Found sm front (length prevs) (go l))
      → Found sm front
          (length prevs)
          (below level (some (current, recorded level current prevs)) go)
  record_ends current zero b m prevs p ef ec ep hmb s h g =
      let em : m ≡ [] = bottom_empty sm o key r m hmb s in
      let eb : front ≡ b = ef ∙ ap (λ t. b ++ t) em ∙ append-nil b in
      let pred : IsPred sm.node front 0 current = record {
        before = b;
        behind = m;
        parts = ef;
        is_last = ec;
        link = p;
        has_link = ep;
        passed = s;
      } in
      (
        recorded 0 current prevs,
        ap (λ c. some (c, recorded 0 current prevs)) (ec ∙ ap (last_or head) (sym eb)),
        length-recorded 0 current prevs,
        recorded-ArePreds sm.node front 0 current prevs pred h,
      )
  record_ends current (suc l) b m prevs p ef ec ep hmb s h g =
      let pred : IsPred sm.node front (suc l) current = record {
        before = b;
        behind = m;
        parts = ef;
        is_last = ec;
        link = p;
        has_link = ep;
        passed = s;
      } in
      g l refl (recorded-ArePreds sm.node front (suc l) current prevs pred h)

  pub insert_loop-Found :
      (fuel level current : ℕ) (b m prevs : List ℕ)
      → length m + level < fuel
      → front ≡ b ++ m
      → current ≡ last_or head b
      → All (IsBelow o sm.node key) m
      → All (HasKey o sm.node) m
      → All (λ a. ¬ (skip_at sm.node a 0 ≡ none)) m
      → Ahead sm o key r current level (m ++ r)
      → ArePreds sm.node front (suc level) prevs
      → Found sm front (length prevs) (insert_loop cmp sm key fuel current level prevs)
  unfolding insert_loop
  insert_loop-Found zero level current b m prevs f ef ec hm hmv hmb h hp = absurd (omega arith)
  insert_loop-Found (suc fuel) level current b m prevs f ef ec hm hmv hmb h hp =
      let hr = above-NotBelow o sm.node key r ha in
      let (p, e, k) = h level (omega arith) in
      let go : (l : ℕ)
          → level ≡ suc l
          → ArePreds sm.node front level (recorded level current prevs)
          → Found sm front (length prevs)
              (insert_loop cmp sm key fuel current l (recorded level current prevs)) =
        λ l el hp'.
          subst
            (λ n.
              Found sm front n
                (insert_loop cmp sm key fuel current l (recorded level current prevs)))
            (length-recorded level current prevs)
            (insert_loop-Found fuel l current b m (recorded level current prevs) (omega arith) ef ec
              hm hmv hmb (λ i hi. h i (omega arith))
              (subst (λ n. ArePreds sm.node front n (recorded level current prevs)) el hp')) in
      elim (Option-cases p) [
        | inl ep ↦
            let e' : skip_at sm.node current level ≡ some none = e ∙ ap some ep in
            rw (insert_loop, e', ◌>>=◌)
              (record_ends current level b m prevs none ef ec e' hmb
                (All-left (λ a. skip_at sm.node a level ≡ none) m r
                  (none-Short (λ a. skip_at sm.node a level) (m ++ r)
                    (subst (λ t. Linked (λ a. skip_at sm.node a level) t (m ++ r)) ep k)))
                hp go)
        | inr (n, ep) ↦
            let e' : skip_at sm.node current level ≡ some (some n) = e ∙ ap some ep in
            let step = round sm o key r current level n m hm hr h e' in
            let c =
              compare_next sm o key r hk hr hv hb n
                (next-HasKey sm o key r hk hr hv hb current level n m hmv step) in
            elim step [
              | inl (m1, m2, em, h', b') ↦
                  rw (insert_loop, e', ◌>>=◌, c, ◌>>=◌, b')
                    (insert_loop-Found fuel level n (b ++ (m1 ++ n ∷ [])) m2 prevs
                      (omega (arith, ap length em, length-append m1 (n ∷ m2)))
                      (ef
                        ∙ ap (λ t. b ++ t) (em ∙ sym (append_assoc m1 (n ∷ []) m2))
                        ∙ sym (append_assoc b (m1 ++ n ∷ []) m2))
                      (sym (
                        ap (last_or head) (sym (append_assoc b m1 (n ∷ [])))
                        ∙ last_or-append head n (b ++ m1) []))
                      (tail_of sm o key r hk hr hv hb (IsBelow o sm.node key) m1 n m2 em hm)
                      (tail_of sm o key r hk hr hv hb (HasKey o sm.node) m1 n m2 em hmv)
                      (tail_of sm o key r hk hr hv hb (λ a. ¬ (skip_at sm.node a 0 ≡ none)) m1 n m2
                        em hmb)
                      h' hp)
              | inr (s, k', b') ↦
                  let (c1, c2, er, hc) = find_node (λ a. skip_at sm.node a level) r n k' in
                  let z =
                    All-middle (IsAbove o sm.node key) c1 n c2
                      (subst (λ l. All (IsAbove o sm.node key) l) er ha) in
                  rw (insert_loop, e', ◌>>=◌, c, ◌>>=◌, z)
                    (record_ends current level b m prevs (some n) ef ec e' hmb s hp go)
            ]
      ]

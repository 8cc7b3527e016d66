-- ===== src/SkipMap/Linking.antt =====
-- insert of src/skipmap.rs puts a new node between its neighbours on every level.
use leveldb_rs.Base.{ltb→lt}
use leveldb_rs.Base.{
  ℕ, ◌+◌, ◌≤◌, ◌<◌, ◌≡◌, ◌≢◌, refl, ap, sym, ◌∙◌, arith, true, false, Option, none, some, List, [],
  ◌∷◌, ◌++◌, append_assoc, append-nil, All, length, length-append, length-replicate, replicate,
  get_or, ltb, Bool-cases, Ordering, inl, inr, ◌==◌, ==_iff,
}
use leveldb_rs.Coding.{Bytes}
use leveldb_rs.SkipMap.{
  Node, SkipMap, skip_at, at, write_node, head, max_height, fuel_for, insert_loop, link_next,
}
use leveldb_rs.SkipMap.Links.{Linked}
use leveldb_rs.SkipMap.Order.{IsOrder, IsSorted, HasKey, IsBelow, HasNodes, All-left, All-right}
use leveldb_rs.SkipMap.Search.{last_or}
use leveldb_rs.SkipMap.Write.{write_same, write_ne, AreLinked, CanLink}
use leveldb_rs.SkipMap.Chains.{Distinct, All-map, Linked-passed, chain_insert}
use leveldb_rs.SkipMap.Predecessors.{ArePreds, IsAbove, Found, insert_loop-Found}
use leveldb_rs.SkipMap.Between.{
  at-replicate, at-replicate-none, sorted-Distinct, HasKey-insert, IsSorted-insert, link_next-skips,
  link_next-key, link_next-current, link_next-new, link_next-other,
}
use mathlib.Core.Path.{subst, subst⁻¹}

-- The bytes that the map stores at its nodes.
abbrev pub entries : (ℕ → Node) → List ℕ → List (Bytes × Bytes)
entries node [] = []
entries node (a ∷ l) = ((node a).key, (node a).value) ∷ entries node l

abbrev pub fresh_node : ℕ → Bytes → Bytes → Node
fresh_node height key val = record {
  skips = replicate height none;
  next = none;
  key = key;
  value = val;
}

module _ {R : Type 0} (sm : SkipMap R) {cmp : Bytes → Bytes → Option Ordering}
    {IsKey : Bytes → Type 0} (o : IsOrder cmp IsKey) (key val : Bytes) (m r : List ℕ)
    (hn : HasNodes sm (m ++ r)) (hs : IsSorted o sm.node (m ++ r))
    (hv : All (HasKey o sm.node) (m ++ r)) (hk : IsKey key) (hm : All (IsBelow o sm.node key) m)
    (ha : All (IsAbove o sm.node key) r) where
  abbrev old_ne : All (λ a. a ≢ sm.fresh) (m ++ r)
  old_ne = All-map (m ++ r) (λ a f e. absurd (omega (arith, e, f.1))) hn.addresses

  all_Distinct : Distinct (head ∷ (m ++ r))
  all_Distinct = (
    All-map (m ++ r) (λ a f e. absurd (omega (arith, e, f.0))) hn.addresses,
    sorted-Distinct o sm.node (m ++ r) hv hs,
  )

  head_ne : head ≢ sm.fresh
  head_ne e = absurd (omega (arith, e, hn.has_fresh))

  -- A node of the map is not the new one.
  last-ne : (before behind : List ℕ) → m ≡ before ++ behind → last_or head before ≢ sm.fresh
  last-ne before behind e = go head before head_ne (
      All-left (λ a. a ≢ sm.fresh) before behind
        (subst (λ l. All (λ a. a ≢ sm.fresh) l) e (All-left (λ a. a ≢ sm.fresh) m r old_ne)))
    where
      go : (x : ℕ) (b : List ℕ) → x ≢ sm.fresh → All (λ a. a ≢ sm.fresh) b → last_or x b ≢ sm.fresh
      go x [] h k = h
      go x (y ∷ b) h k = go y b k.0 k.1

  module _ (height : ℕ) (h12 : height ≤ max_height) where
    unfoldable pub store : ℕ → Node
    store = write_node sm.node sm.fresh (fresh_node height key val)

    -- The search of insert, from the head.
    pub search :
        Found sm m height (insert_loop cmp sm key (fuel_for sm) head 11 (replicate height head))
    search =
        subst
          (λ n. Found sm m n (insert_loop cmp sm key (fuel_for sm) head 11 (replicate height head)))
          (length-replicate height head)
          (insert_loop-Found sm o key m r hk ha (All-right (HasKey o sm.node) m r hv)
            (All-right (λ a. ¬ (skip_at sm.node a 0 ≡ none)) m r hn.bottom) (fuel_for sm) 11 head []
            m (replicate height head) (omega (arith, hn.len_nodes, length-append m r)) refl refl hm
            (All-left (HasKey o sm.node) m r hv)
            (All-left (λ a. ¬ (skip_at sm.node a 0 ≡ none)) m r hn.bottom)
            (λ i hi. hn.levels i (omega arith))
            (λ j le lt. absurd (omega (arith, length-replicate height head))))

    module _ (prevs : List ℕ) (el : length prevs ≡ height) (hp : ArePreds sm.node m 0 prevs) where
      pred-ne : (j : ℕ) → j < height → get_or prevs j 0 ≢ sm.fresh
      pred-ne j lt =
          let P = hp j (omega arith) (omega (arith, el)) in
          λ e. last-ne P.before P.behind P.parts (sym P.is_last ∙ e)

      store-old : (a j : ℕ) → a ≢ sm.fresh → skip_at store a j ≡ skip_at sm.node a j
      unfolding store
      store-old a j h =
          ap (λ (n : Node). at n.skips j)
            (write_ne sm.node sm.fresh a (fresh_node height key val) h)

      store-new : (j : ℕ) → skip_at store sm.fresh j ≡ at (replicate height none) j
      unfolding store
      store-new j =
          ap (λ (n : Node). at n.skips j) (write_same sm.node sm.fresh (fresh_node height key val))

      pub can_link : CanLink sm.fresh 0 prevs store
      can_link k j e lt =
          let e' : j ≡ k = omega arith in
          let P = hp k (omega arith) lt in
          let ne = pred-ne k (omega (arith, el)) in
          (
            ne,
            (
              P.link,
              store-old (get_or prevs k 0) j ne
                  ∙ ap (λ t. skip_at sm.node (get_or prevs k 0) t) e'
                  ∙ P.has_link,
            ),
            (none, store-new j ∙ at-replicate height j none (omega (arith, el))),
          )

      module _ (node1 : ℕ → Node) (al : AreLinked sm.fresh 0 prevs store node1) where
        unfoldable pub result : ℕ → Node
        result = link_next sm.fresh (last_or head m) node1

        current_ne : last_or head m ≢ sm.fresh
        current_ne = last-ne m [] (sym (append-nil m))

        result-skips : (a j : ℕ) → skip_at result a j ≡ skip_at node1 a j
        unfolding result
        result-skips a j =
            ap (λ t. at t j) (link_next-skips sm.fresh (last_or head m) node1 current_ne a)

        -- A list in front of `r`, in the order in which a chain is taken apart.
        regroup :
            (before behind t : List ℕ) → m ≡ before ++ behind → m ++ t ≡ before ++ (behind ++ t)
        regroup before behind t e = ap (λ l. l ++ t) e ∙ append_assoc before behind t

        head_link :
            (j : ℕ)
            → j < max_height
            → (c : ℕ) → skip_at result c j ≡ some (some sm.fresh)
            → ((a : ℕ) → a ≢ c → a ≢ sm.fresh → skip_at result a j ≡ skip_at sm.node a j)
            → (p' : Option ℕ) × (skip_at result head j ≡ some p')
        head_link j lt c hc same = elim (Bool-cases (head == c)) [
          | inl e ↦ (some sm.fresh, ap (λ t. skip_at result t j) ((==_iff head c).0 e) ∙ hc)
          | inr e ↦
              let ne : head ≢ c = λ z. let f : true ≡ false = sym ((==_iff head c).1 z) ∙ e in cc in
              let (p, ep, k) = hn.levels j lt in (p, same head ne head_ne ∙ ep)
        ]

        result-low :
            (j : ℕ)
            → j < height
            → (p' : Option ℕ) × (skip_at result head j ≡ some p')
              × Linked (λ a. skip_at result a j) p' (m ++ sm.fresh ∷ r)
        result-low j lt =
            let ltp : j < length prevs = omega (arith, el) in
            let P = hp j (omega arith) ltp in
            let c = get_or prevs j 0 in
            let (p, ep, k) = hn.levels j (omega arith) in
            let hc : skip_at result c j ≡ some (some sm.fresh) =
              result-skips c j ∙ al.at_prev j j (omega arith) ltp in
            let hnew : skip_at result sm.fresh j ≡ some P.link =
              result-skips sm.fresh j
              ∙ al.at_new j j (omega arith) ltp
              ∙ store-old c j (pred-ne j lt)
              ∙ P.has_link in
            let same : (a : ℕ) → a ≢ c → a ≢ sm.fresh → skip_at result a j ≡ skip_at sm.node a j =
              λ a x y.
                result-skips a j ∙ al.at_other j j a (omega arith) ltp x y ∙ store-old a j y in
            let (p', ep') = head_link j (omega arith) c hc same in
            let g = regroup P.before P.behind r P.parts in
            (
              p',
              ep',
              subst⁻¹ (λ l. Linked (λ a. skip_at result a j) p' l)
                  (regroup P.before P.behind (sm.fresh ∷ r) P.parts)
                  (chain_insert (λ a. skip_at sm.node a j) (λ a. skip_at result a j) c sm.fresh p p'
                    P.link P.before P.behind r P.is_last P.has_link hc hnew same ep ep'
                    (subst (λ l. Distinct (head ∷ l)) g all_Distinct)
                    (subst (λ l. All (λ a. a ≢ sm.fresh) (head ∷ l)) g (head_ne, old_ne)) P.passed
                    (subst (λ l. Linked (λ a. skip_at sm.node a j) p l) g k)),
            )

        result-high :
            (j : ℕ)
            → height ≤ j
            → j < max_height
            → (p' : Option ℕ) × (skip_at result head j ≡ some p')
              × Linked (λ a. skip_at result a j) p' (m ++ sm.fresh ∷ r)
        result-high j le lt =
            let (p, ep, k) = hn.levels j lt in
            let same : (a : ℕ) → a ≢ sm.fresh → skip_at result a j ≡ skip_at sm.node a j =
              λ a x. result-skips a j ∙ al.high a j (omega (arith, el)) ∙ store-old a j x in
            let hnew : skip_at result sm.fresh j ≡ none =
              result-skips sm.fresh j
              ∙ al.high sm.fresh j (omega (arith, el))
              ∙ store-new j
              ∙ at-replicate-none height j none le in
            (
              p,
              same head head_ne ∙ ep,
              Linked-passed (λ a. skip_at sm.node a j) (λ a. skip_at result a j) m r sm.fresh p hnew
                  (All-map (m ++ r) same old_ne) k,
            )

        store-next : (a : ℕ) → a ≢ sm.fresh → (node1 a).next ≡ (sm.node a).next
        unfolding store
        store-next a h =
            (al.same_data a).2
            ∙ ap (λ (n : Node). n.next) (write_ne sm.node sm.fresh a (fresh_node height key val) h)

        result-next : Linked (λ a. some (result a).next) (result head).next (m ++ sm.fresh ∷ r)
        unfolding result
        result-next =
            let c = last_or head m in
            chain_insert (λ a. some (sm.node a).next) (λ a. some (result a).next) c sm.fresh
              (sm.node head).next (result head).next (sm.node c).next m [] r refl refl
              (ap some (link_next-current sm.fresh c node1 current_ne))
              (ap some (link_next-new sm.fresh c node1 current_ne ∙ store-next c current_ne))
              (λ a x y.
                ap some (link_next-other sm.fresh c node1 current_ne a x y ∙ store-next a y))
              refl refl all_Distinct (head_ne, old_ne) tt hn.nexts

        result-key :
            (a : ℕ)
            → a ≢ sm.fresh
            → ((result a).key ≡ (sm.node a).key) × ((result a).value ≡ (sm.node a).value)
        unfolding result store
        result-key a h =
            let k = link_next-key sm.fresh (last_or head m) node1 current_ne a in
            let d = al.same_data a in
            let w = write_ne sm.node sm.fresh a (fresh_node height key val) h in
            (k.0 ∙ d.0 ∙ ap (λ (n : Node). n.key) w, k.1 ∙ d.1 ∙ ap (λ (n : Node). n.value) w)

        result-new : ((result sm.fresh).key ≡ key) × ((result sm.fresh).value ≡ val)
        unfolding result store
        result-new =
            let k = link_next-key sm.fresh (last_or head m) node1 current_ne sm.fresh in
            let d = al.same_data sm.fresh in
            let w = write_same sm.node sm.fresh (fresh_node height key val) in
            (k.0 ∙ d.0 ∙ ap (λ (n : Node). n.key) w, k.1 ∙ d.1 ∙ ap (λ (n : Node). n.value) w)

        result-bottom : 1 ≤ height → All (λ a. ¬ (skip_at result a 0 ≡ none)) (m ++ sm.fresh ∷ r)
        result-bottom h1 = go m r old_ne hn.bottom
          where
            here :
                (a : ℕ)
                → a ≢ sm.fresh
                → ¬ (skip_at sm.node a 0 ≡ none)
                → ¬ (skip_at result a 0 ≡ none)
            here a x y e = elim (Bool-cases (a == get_or prevs 0 0)) [
              | inl f ↦
                  let z : skip_at result a 0 ≡ some (some sm.fresh) =
                    ap (λ t. skip_at result t 0) ((==_iff a (get_or prevs 0 0)).0 f)
                    ∙ result-skips (get_or prevs 0 0) 0
                    ∙ al.at_prev 0 0 refl (omega (arith, el)) in
                  let w : none ≡ some (some sm.fresh) = sym e ∙ z in cc
              | inr f ↦
                  let ne : a ≢ get_or prevs 0 0 =
                    λ z. let g : true ≡ false = sym ((==_iff a (get_or prevs 0 0)).1 z) ∙ f in cc in
                  y (
                    sym (
                      result-skips a 0
                      ∙ al.at_other 0 0 a refl (omega (arith, el)) ne x
                      ∙ store-old a 0 x)
                    ∙ e)
            ]

            new_here : ¬ (skip_at result sm.fresh 0 ≡ none)
            new_here e =
                let P = hp 0 (omega arith) (omega (arith, el)) in
                let z : skip_at result sm.fresh 0 ≡ some P.link =
                  result-skips sm.fresh 0
                  ∙ al.at_new 0 0 refl (omega (arith, el))
                  ∙ store-old (get_or prevs 0 0) 0 (pred-ne 0 (omega arith))
                  ∙ P.has_link in
                let w : none ≡ some P.link = sym e ∙ z in cc

            tail :
                (t : List ℕ)
                → All (λ a. a ≢ sm.fresh) t
                → All (λ a. ¬ (skip_at sm.node a 0 ≡ none)) t
                → All (λ a. ¬ (skip_at result a 0 ≡ none)) t
            tail [] x y = tt
            tail (a ∷ t) x y = (here a x.0 y.0, tail t x.1 y.1)

            go :
                (b t : List ℕ)
                → All (λ a. a ≢ sm.fresh) (b ++ t)
                → All (λ a. ¬ (skip_at sm.node a 0 ≡ none)) (b ++ t)
                → All (λ a. ¬ (skip_at result a 0 ≡ none)) (b ++ sm.fresh ∷ t)
            go [] t x y = (new_here, tail t x y)
            go (a ∷ b) t x y = (here a x.0 y.0, go b t x.1 y.1)

        -- The list of nodes after the insertion.
        pub result-HasNodes :
            {S : Type 0} (rand : S) (mem : ℕ)
            → 1 ≤ height
            → HasNodes
                (record {
                  node = result;
                  fresh = sm.fresh + 1;
                  rand = rand;
                  len = sm.len + 1;
                  approx_mem = mem;
                })
                (m ++ sm.fresh ∷ r)
        result-HasNodes rand mem h1 = record {
          bottom = result-bottom h1;
          levels = λ j lt. elim (Bool-cases (ltb j height)) [
            | inl e ↦ result-low j (omega (arith, ltb→lt j height e))
            | inr e ↦ result-high j (ltb_false j height e) lt
          ];
          nexts = result-next;
          len_nodes =
              omega (arith, hn.len_nodes, length-append m r, length-append m (sm.fresh ∷ r));
          addresses = grown m r hn.addresses;
          has_fresh = omega arith;
        }
          where
            ltb_false : (a b : ℕ) → ltb a b ≡ false → b ≤ a
            ltb_false a b e = ground arith

            grown :
                (b t : List ℕ)
                → All (λ a. (0 < a) × (a < sm.fresh)) (b ++ t)
                → All (λ a. (0 < a) × (a < sm.fresh + 1)) (b ++ sm.fresh ∷ t)
            grown [] t x =
                ((hn.has_fresh, omega arith), All-map t (λ a f. (f.0, omega (arith, f.1))) x)
            grown (a ∷ b) t x = ((x.0.0, omega (arith, x.0.1)), grown b t x.1)

        entries-same :
            (l : List ℕ) → All (λ a. a ≢ sm.fresh) l → entries result l ≡ entries sm.node l
        entries-same [] h = refl
        entries-same (a ∷ l) h =
            let k = result-key a h.0 in
            ap (λ x. (x, (result a).value) ∷ entries result l) k.0
            ∙ ap (λ x. ((sm.node a).key, x) ∷ entries result l) k.1
            ∙ ap (λ x. ((sm.node a).key, (sm.node a).value) ∷ x) (entries-same l h.1)

        pub result-entries :
            entries result (m ++ sm.fresh ∷ r) ≡ entries sm.node m ++ (key, val) ∷ entries sm.node r
        result-entries = go m (All-left (λ a. a ≢ sm.fresh) m r old_ne)
          where
            go :
                (b : List ℕ)
                → All (λ a. a ≢ sm.fresh) b
                → entries result (b ++ sm.fresh ∷ r)
                  ≡ entries sm.node b ++ (key, val) ∷ entries sm.node r
            go [] x =
                ap (λ y. (y, (result sm.fresh).value) ∷ entries result r) result-new.0
                ∙ ap (λ y. (key, y) ∷ entries result r) result-new.1
                ∙ ap (λ y. (key, val) ∷ y)
                    (entries-same r (All-right (λ a. a ≢ sm.fresh) m r old_ne))
            go (a ∷ b) x =
                let k = result-key a x.0 in
                ap (λ y. (y, (result a).value) ∷ entries result (b ++ sm.fresh ∷ r)) k.0
                ∙ ap (λ y. ((sm.node a).key, y) ∷ entries result (b ++ sm.fresh ∷ r)) k.1
                ∙ ap (λ y. ((sm.node a).key, (sm.node a).value) ∷ y) (go b x.1)

        pub result-IsSorted :
            IsSorted o result (m ++ sm.fresh ∷ r) × All (HasKey o result) (m ++ sm.fresh ∷ r)
        result-IsSorted = (
          IsSorted-insert o sm.node result key sm.fresh hk result-new.0 (λ a x. (result-key a x).0)
              m r old_ne hv hs hm ha,
          HasKey-insert o sm.node result key sm.fresh hk result-new.0 (λ a x. (result-key a x).0) m
              r old_ne hv,
        )

-- ===== src/Cache/Order.antt =====
-- LRUList of src/cache.rs against the sequence of its elements, the most recently used first.
use leveldb_rs.Base.{
  ℕ, ◌+◌, ◌<◌, ◌≡◌, ◌≢◌, refl, sym, ◌∙◌, arith, Option, none, some, List, [], ◌∷◌, ◌++◌, All,
  length, ◌==◌, ==_iff, if◌then◌else◌, ◌>>=◌,
}
use leveldb_rs.Cache.Lru
use leveldb_rs.Cache.Lru.{
  LruNode, LruList, head, insert, remove_last, remove, boxed, put, set_next, set_prev,
}

module _ {A : Type 0} where
  abbrev pub first : List (ℕ × A) → Option ℕ
  first [] = none
  first (e ∷ t) = some e.0

  abbrev pub last_from : ℕ → List (ℕ × A) → ℕ
  last_from p [] = p
  last_from p (e ∷ t) = last_from e.0 t

  abbrev pub linked : Option ℕ → Option ℕ → Option A → LruNode A
  linked next prev d = record { next = next; prev = prev; node_data = d }

  -- The elements stand at their addresses, linked both ways, behind the address `p`.
  unfoldable pub Segment : (ℕ → Option (LruNode A)) → ℕ → List (ℕ × A) → Type 0
  Segment node p [] = Unit {0}
  Segment node p (e ∷ t) =
      (node e.0 ≡ some (linked (first t) (some p) (some e.1))) × Segment node e.0 t

  -- What the head's `prev` is to be: any in the empty list, the last address else.
  abbrev pub Tail : Option ℕ → List (ℕ × A) → Type 0
  Tail q [] = Unit {0}
  Tail q (e ∷ t) = q ≡ some (last_from e.0 t)

  abbrev pub Apart : List (ℕ × A) → Type 0
  Apart [] = Unit {0}
  Apart (e ∷ t) = All (λ f. e.0 ≢ f.0) t × Apart t

  pub record IsLru (l : LruList A) (t : List (ℕ × A)) : Type 0 where
    pub tail : Option ℕ
    pub top : l.node head ≡ some (linked (first t) tail none)
    pub at_end : Tail tail t
    pub segment : Segment l.node head t
    pub apart : Apart t
    pub addresses : All (λ e. (0 < e.0) × (e.0 < l.fresh)) t
    pub has_fresh : 0 < l.fresh
    pub counted : l.count ≡ length t

  abbrev pub over : (ℕ → Option (LruNode A)) → ℕ → Option (LruNode A) → ℕ → Option (LruNode A)
  over node a n b = if b == a then n else node b

  pub over_same :
      (node : ℕ → Option (LruNode A)) (a : ℕ) (n : Option (LruNode A)) → over node a n a ≡ n
  over_same node a n = ground (arith, ==_iff a a)

  pub over_ne :
      (node : ℕ → Option (LruNode A)) (a b : ℕ) (n : Option (LruNode A))
      → b ≢ a
      → over node a n b ≡ node b
  over_ne node a b n h = ground (arith, ==_iff b a, h)

  pub Segment-over :
      (node : ℕ → Option (LruNode A)) (a p : ℕ) (n : Option (LruNode A)) (t : List (ℕ × A))
      → All (λ e. e.0 ≢ a) t
      → Segment node p t
      → Segment (over node a n) p t
  unfolding Segment
  Segment-over node a p n [] h s = tt
  Segment-over node a p n (e ∷ t) h s =
      (over_ne node a e.0 n h.0 ∙ s.0, Segment-over node a e.0 n t h.1 s.1)

  pub last_from-All :
      (P : ℕ → Type 0) (p : ℕ) (t : List (ℕ × A)) → P p → All (λ e. P e.0) t → P (last_from p t)
  last_from-All P p [] h k = h
  last_from-All P p (e ∷ t) h k = last_from-All P e.0 t k.0 k.1

  pub All-weaker :
      {P Q : ℕ → Type 0} (t : List (ℕ × A))
      → ((a : ℕ) → P a → Q a)
      → All (λ e. P e.0) t
      → All (λ e. Q e.0) t
  All-weaker [] f h = tt
  All-weaker (e ∷ t) f h = (f e.0 h.0, All-weaker t f h.1)

  pub set_next-eq :
      (l : LruList A) (a : ℕ) (p : Option ℕ) (n : LruNode A)
      → l.node a ≡ some n
      → set_next l a p ≡ some (put l a (some (linked p n.prev n.node_data)))
  unfolding set_next
  set_next-eq l a p n h = rw (set_next, h, ◌>>=◌) refl

  pub set_prev-eq :
      (l : LruList A) (a : ℕ) (p : Option ℕ) (n : LruNode A)
      → l.node a ≡ some n
      → set_prev l a p ≡ some (put l a (some (linked n.next p n.node_data)))
  unfolding set_prev
  set_prev-eq l a p n h = rw (set_prev, h, ◌>>=◌) refl

  module _ (l : LruList A) (x : A) where
    abbrev counted_up : LruList A
    counted_up = record l { fresh = l.fresh + 1; count = l.count + 1 }

    insert_empty :
        IsLru l []
        → (l' : LruList A) × (insert l x ≡ some (l.fresh, l')) × IsLru l' ((l.fresh, x) ∷ [])
    unfolding insert Segment
    insert_empty h =
        let new = l.fresh in
        let l1 = put counted_up new (some (boxed x none)) in
        let l2 = put l1 head (some (linked none (some new) none)) in
        let l3 = put l2 head (some (linked (some new) (some new) none)) in
        let ne : 0 ≢ new = omega (arith, h.has_fresh) in
        let e1 =
          set_prev-eq l1 head (some new) (linked none h.tail none)
            (over_ne l.node new 0 (some (boxed x none)) ne ∙ h.top) in
        let e2 =
          set_next-eq l2 head (some new) (linked none (some new) none)
            (over_same l1.node 0 (some (linked none (some new) none))) in
        (
          l3,
          rw (insert, h.top, ◌>>=◌, e1, ◌>>=◌, e2, ◌>>=◌) refl,
          record {
            tail = some new;
            top = over_same l2.node 0 _;
            at_end = refl;
            segment = (
              over_ne l2.node 0 new _ (λ e. ne (sym e))
                  ∙ over_ne l1.node 0 new _ (λ e. ne (sym e))
                  ∙ over_same l.node new _,
              tt,
            );
            apart = (tt, tt);
            addresses = ((h.has_fresh, omega arith), tt);
            has_fresh = omega arith;
            counted = omega (arith, h.counted);
          },
        )

    insert_front :
        (a : ℕ) (y : A) (u : List (ℕ × A))
        → IsLru l ((a, y) ∷ u)
        → (l' : LruList A) × (insert l x ≡ some (l.fresh, l'))
          × IsLru l' ((l.fresh, x) ∷ (a, y) ∷ u)
    unfolding insert Segment
    insert_front a y u h =
        let new = l.fresh in
        let l1 = put counted_up a (some (linked (first u) (some new) (some y))) in
        let l2 = put l1 new (some (boxed x (some a))) in
        let l3 = put l2 head (some (linked (some new) h.tail none)) in
        let ne : 0 ≢ new = omega (arith, h.has_fresh) in
        let na : 0 ≢ a = omega (arith, h.addresses.0.0) in
        let an : a ≢ new = omega (arith, h.addresses.0.1) in
        let old =
          All-weaker {P = λ b. (0 < b) × (b < l.fresh)} {Q = λ b. b ≢ new} u
            (λ (b : ℕ) (p : (0 < b) × (b < l.fresh)). omega (arith, p.1)) h.addresses.1 in
        let inner =
          All-weaker {P = λ b. (0 < b) × (b < l.fresh)} {Q = λ b. b ≢ 0} u
            (λ (b : ℕ) (p : (0 < b) × (b < l.fresh)). omega (arith, p.0)) h.addresses.1 in
        let others =
          All-weaker {P = λ b. a ≢ b} {Q = λ b. b ≢ a} u
            (λ (b : ℕ) (p : a ≢ b) (e : b ≡ a). p (sym e)) h.apart.0 in
        let e1 =
          set_prev-eq counted_up a (some new) (linked (first u) (some head) (some y)) h.segment.0 in
        let e2 =
          set_next-eq l2 head (some new) (linked (some a) h.tail none)
            (over_ne l1.node new 0 _ ne ∙ over_ne l.node a 0 _ na ∙ h.top) in
        (
          l3,
          rw (insert, h.top, ◌>>=◌, e1, ◌>>=◌, e2, ◌>>=◌) refl,
          record {
            tail = h.tail;
            top = over_same l2.node 0 _;
            at_end = h.at_end;
            segment = (
              over_ne l2.node 0 new _ (λ e. ne (sym e)) ∙ over_same l1.node new _,
              (
                over_ne l2.node 0 a _ (λ e. na (sym e))
                    ∙ over_ne l1.node new a _ an
                    ∙ over_same l.node a _,
                Segment-over l2.node 0 a _ u inner (
                    Segment-over l1.node new a _ u old
                      (Segment-over l.node a a _ u others h.segment.1)),
              ),
            );
            apart = (
              (
                (λ e. an (sym e)),
                All-weaker {P = λ b. b ≢ new} {Q = λ b. new ≢ b} u
                    (λ (b : ℕ) (p : b ≢ new) (e : new ≡ b). p (sym e)) old,
              ),
              h.apart,
            );
            addresses = (
              (h.has_fresh, omega arith),
              (
                (h.addresses.0.0, omega (arith, h.addresses.0.1)),
                All-weaker {P = λ b. (0 < b) × (b < l.fresh)} {Q = λ b. (0 < b) × (b < l.fresh + 1)}
                    u (λ (b : ℕ) (p : (0 < b) × (b < l.fresh)). (p.0, omega (arith, p.1)))
                    h.addresses.1,
              ),
            );
            has_fresh = omega arith;
            counted = omega (arith, h.counted);
          },
        )

  -- In a list that holds elements, insert does not fail, puts the element in front of the others,
  -- and the result is linked both ways again, with the last address at the head.
  pub insert-IsLru :
      (l : LruList A) (x : A) (t : List (ℕ × A))
      → IsLru l t
      → (l' : LruList A) × (insert l x ≡ some (l.fresh, l')) × IsLru l' ((l.fresh, x) ∷ t)
  insert-IsLru l x [] h = insert_empty l x h
  insert-IsLru l x ((a, y) ∷ u) h = insert_front l x a y u h

  pub new-IsLru : IsLru Lru.new []
  unfolding Lru.new Segment
  new-IsLru = record {
    tail = none;
    top = refl;
    at_end = tt;
    segment = tt;
    apart = tt;
    addresses = tt;
    has_fresh = omega arith;
    counted = refl;
  }

  -- Behind the last address but one there is the last; without it the rest is a segment.
  pub Segment-cut :
      (node : ℕ → Option (LruNode A)) (p : ℕ) (e : ℕ × A) (t : List (ℕ × A)) (z : ℕ × A)
      → Segment node p (e ∷ (t ++ z ∷ []))
      → Apart (e ∷ (t ++ z ∷ []))
      → (n : LruNode A) × (node (last_from e.0 t) ≡ some n)
        × (n.next ≡ some z.0)
        × Segment (over node (last_from e.0 t) (some (linked none n.prev n.node_data))) p (e ∷ t)
        × (node z.0 ≡ some (linked none (some (last_from e.0 t)) (some z.1)))
  unfolding Segment
  Segment-cut node p e [] z s d =
      (linked (some z.0) (some p) (some e.1), s.0, refl, (over_same node e.0 _, tt), s.1.0)
  Segment-cut node p e (f ∷ t) z s d =
      let (n, q, k, s', zq) = Segment-cut node e.0 f t z s.1 d.1 in
      let far : e.0 ≢ last_from f.0 t =
        last_from-All (λ b. e.0 ≢ b) f.0 t d.0.0 (All_front t (z ∷ []) d.0.1) in
      (n, q, k, (over_ne node (last_from f.0 t) e.0 _ far ∙ s.0, s'), zq)
    where
      All_front : (xs ys : List (ℕ × A)) → All (λ g. e.0 ≢ g.0) (xs ++ ys) → All (λ g. e.0 ≢ g.0) xs
      All_front [] ys h = tt
      All_front (x ∷ xs) ys h = (h.0, All_front xs ys h.1)

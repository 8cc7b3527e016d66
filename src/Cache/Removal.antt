-- ===== src/Cache/Removal.antt =====
-- remove_last and remove of src/cache.rs, at a list with a last element.
use leveldb_rs.Base.{
  ℕ, suc, ◌<◌, ◌≡◌, ◌≢◌, refl, ap, sym, ◌∙◌, arith, false, none, some, List, [], ◌∷◌, ◌++◌, All,
  length, length-append, ◌==◌, checked_sub, checked_sub-some, ◌>>=◌,
}
use leveldb_rs.Cache.Lru.{LruNode, LruList, head, remove_last, remove, put}
use leveldb_rs.Cache.Order.{
  first, last_from, linked, Segment, Tail, Apart, IsLru, over, over_same, over_ne, Segment-over,
  last_from-All, All-weaker, set_next-eq, set_prev-eq, Segment-cut,
}

module _ {A : Type 0} where
  pub All_front : (P : ℕ × A → Type 0) (xs ys : List (ℕ × A)) → All P (xs ++ ys) → All P xs
  All_front P [] ys h = tt
  All_front P (x ∷ xs) ys h = (h.0, All_front P xs ys h.1)

  pub All_back : (P : ℕ × A → Type 0) (xs : List (ℕ × A)) (z : ℕ × A) → All P (xs ++ z ∷ []) → P z
  All_back P [] z h = h.0
  All_back P (x ∷ xs) z h = All_back P xs z h.1

  Apart-front : (xs ys : List (ℕ × A)) → Apart (xs ++ ys) → Apart xs
  Apart-front [] ys h = tt
  Apart-front (x ∷ xs) ys h = (All_front (λ f. x.0 ≢ f.0) xs ys h.0, Apart-front xs ys h.1)

  Apart-last : (xs : List (ℕ × A)) (z : ℕ × A) → Apart (xs ++ z ∷ []) → All (λ e. e.0 ≢ z.0) xs
  Apart-last [] z h = tt
  Apart-last (x ∷ xs) z h = (All_back (λ f. x.0 ≢ f.0) xs z h.0, Apart-last xs z h.1)

  last_from-append : (p : ℕ) (t : List (ℕ × A)) (z : ℕ × A) → last_from p (t ++ z ∷ []) ≡ z.0
  last_from-append p [] z = refl
  last_from-append p (e ∷ t) z = last_from-append e.0 t z

  -- What stands at the end of a list, and what is left without its last element.
  record Cut (l : LruList A) (t : List (ℕ × A)) (z : ℕ × A) : Type 0 where
    pub top : l.node head ≡ some (linked (first (t ++ z ∷ [])) (some z.0) none)
    pub before : LruNode A
    pub at_before : l.node (last_from head t) ≡ some before
    pub link : before.next ≡ some z.0
    pub last : l.node z.0 ≡ some (linked none (some (last_from head t)) (some z.1))
    pub rest_top :
        over l.node (last_from head t) (some (linked none before.prev before.node_data)) head
        ≡ some (linked (first t) (some z.0) none)
    pub rest :
        Segment
          (over l.node (last_from head t) (some (linked none before.prev before.node_data)))
          head
          t
    pub last_positive : 0 < z.0
    pub last_apart : z.0 ≢ last_from head t
    pub apart_last : All (λ e. e.0 ≢ z.0) t
    pub apart_head : All (λ e. e.0 ≢ 0) t

  cut : (l : LruList A) (t : List (ℕ × A)) (z : ℕ × A) → IsLru l (t ++ z ∷ []) → Cut l t z
  unfolding Segment
  cut l [] z h = record {
    top = h.top ∙ ap (λ q. some (linked (some z.0) q none)) h.at_end;
    before = linked (some z.0) (some z.0) none;
    at_before = h.top ∙ ap (λ q. some (linked (some z.0) q none)) h.at_end;
    link = refl;
    last = h.segment.0;
    rest_top = over_same l.node 0 _;
    rest = tt;
    last_positive = h.addresses.0.0;
    last_apart = omega (arith, h.addresses.0.0);
    apart_last = tt;
    apart_head = tt;
  }
  cut l (e ∷ t) z h =
      let (n, q, k, s, zq) = Segment-cut l.node head e t z h.segment h.apart in
      let top =
        h.top
        ∙ ap (λ q. some (linked (some e.0) q none))
            (h.at_end ∙ ap some (last_from-append e.0 t z)) in
      let far = Apart-last (e ∷ t) z h.apart in
      let inner =
        All-weaker {P = λ b. (0 < b) × (b < l.fresh)} {Q = λ b. b ≢ 0} (e ∷ t)
          (λ (b : ℕ) (p : (0 < b) × (b < l.fresh)). omega (arith, p.0))
          (All_front (λ f. (0 < f.0) × (f.0 < l.fresh)) (e ∷ t) (z ∷ []) h.addresses) in
      let pred_inner = last_from-All (λ b. b ≢ 0) e.0 t inner.0 inner.1 in
      record {
        top = top;
        before = n;
        at_before = q;
        link = k;
        last = zq;
        rest_top = over_ne l.node (last_from e.0 t) 0 _ (λ y. pred_inner (sym y)) ∙ top;
        rest = s;
        last_positive = (All_back (λ f. (0 < f.0) × (f.0 < l.fresh)) (e ∷ t) z h.addresses).0;
        last_apart = λ y. last_from-All (λ b. b ≢ z.0) e.0 t far.0 far.1 (sym y);
        apart_last = far;
        apart_head = inner;
      }

  module _ (l : LruList A) (t : List (ℕ × A)) (z : ℕ × A) (h : IsLru l (t ++ z ∷ [])) where
    abbrev pred : ℕ
    pred = last_from head t

    not_empty : (l.count == 0) ≡ false
    not_empty = ground (arith, h.counted, length-append t (z ∷ []))

    one_less : checked_sub l.count 1 ≡ some (length t)
    one_less =
        checked_sub-some l.count 1 (omega (arith, h.counted, length-append t (z ∷ [])))
        ∙ ap some (omega (arith, h.counted, length-append t (z ∷ [])))

    new_tail : Tail (some pred) t
    new_tail = tail_of t
      where
        tail_of : (u : List (ℕ × A)) → Tail (some (last_from head u)) u
        tail_of [] = tt
        tail_of (e ∷ u) = refl

    -- In a list that holds elements, of which one is the last, remove_last does not fail, answers it,
    -- and the result holds the others, linked both ways.
    pub remove_last-IsLru : (l' : LruList A) × (remove_last l ≡ some (some z.1, l')) × IsLru l' t
    unfolding remove_last
    remove_last-IsLru =
        let c = cut l t z h in
        let l1 = put l pred (some (linked none c.before.prev c.before.node_data)) in
        let l2 = put l1 head (some (linked (first t) (some pred) none)) in
        let l3 = record (put l2 z.0 none) { count = length t } in
        let e1 = set_next-eq l pred none c.before c.at_before in
        let e2 : l1.node z.0 ≡ some (linked none (some pred) (some z.1)) =
          over_ne l.node pred z.0 _ c.last_apart ∙ c.last in
        let e3 = set_prev-eq l1 head (some pred) (linked (first t) (some z.0) none) c.rest_top in
        let nz : 0 ≢ z.0 = omega (arith, c.last_positive) in
        (
          l3,
          rw
              (
                remove_last, not_empty, c.top, ◌>>=◌, c.last, ◌>>=◌, c.at_before, ◌>>=◌, c.link,
                ◌>>=◌, e1, ◌>>=◌, e2, ◌>>=◌, e3, ◌>>=◌, one_less, ◌>>=◌,
              )
              refl,
          record {
            tail = some pred;
            top = over_ne l2.node z.0 0 none nz ∙ over_same l1.node 0 _;
            at_end = new_tail;
            segment =
                Segment-over l2.node z.0 head none t c.apart_last
                  (Segment-over l1.node 0 head _ t c.apart_head c.rest);
            apart = Apart-front t (z ∷ []) h.apart;
            addresses = All_front (λ f. (0 < f.0) × (f.0 < l.fresh)) t (z ∷ []) h.addresses;
            has_fresh = h.has_fresh;
            counted = refl;
          },
        )

  -- In a list that holds two elements or more, remove takes the last one out and frees its node, and the
  -- head's `prev` still points at that node. Elements are left, so that remove_last reads through the
  -- pointer, and fails.
  pub remove_last-remove :
      (l : LruList A) (e : ℕ × A) (t : List (ℕ × A)) (z : ℕ × A)
      → IsLru l (e ∷ (t ++ z ∷ []))
      → (l' : LruList A) × (top : LruNode A) × (remove l z.0 ≡ some (z.1, l'))
        × (l'.node z.0 ≡ none)
        × (l'.node head ≡ some top)
        × (top.prev ≡ some z.0)
        × (l'.count ≡ suc (length t))
        × (remove_last l' ≡ none)
  unfolding remove remove_last
  remove_last-remove l e t z h =
      let c = cut l (e ∷ t) z h in
      let p = last_from e.0 t in
      let l1 = put l z.0 (some (linked none (some p) none)) in
      let l2 = put l1 p (some (linked none c.before.prev c.before.node_data)) in
      let l4 = put l2 p (some (linked none c.before.prev c.before.node_data)) in
      let l5 = record (put l4 z.0 none) { count = length (e ∷ t) } in
      let zp : z.0 ≢ p = c.last_apart in
      let zero_p : 0 ≢ p =
        (λ y. last_from-All (λ b. b ≢ 0) e.0 t c.apart_head.0 c.apart_head.1 (sym y)) in
      let nz : 0 ≢ z.0 = omega (arith, c.last_positive) in
      let e1 : l1.node p ≡ some c.before = over_ne l.node z.0 p _ (λ y. zp (sym y)) ∙ c.at_before in
      let e2 = set_next-eq l1 p none c.before e1 in
      let e3 : l2.node z.0 ≡ some (linked none (some p) none) =
        over_ne l1.node p z.0 _ zp ∙ over_same l.node z.0 _ in
      let e4 =
        set_next-eq l2 p none (linked none c.before.prev c.before.node_data)
          (over_same l1.node p _) in
      let top : l5.node head ≡ some (linked (some e.0) (some z.0) none) =
        over_ne l4.node z.0 0 none nz
        ∙ over_ne l2.node p 0 _ zero_p
        ∙ over_ne l1.node p 0 _ zero_p
        ∙ over_ne l.node z.0 0 _ nz
        ∙ c.top in
      let gone : l5.node z.0 ≡ none = over_same l4.node z.0 none in
      let more : (l5.count == 0) ≡ false = ground arith in
      (
        l5,
        linked (some e.0) (some z.0) none,
        rw
            (
              remove,
              c.last,
              ◌>>=◌,
              e1,
              ◌>>=◌,
              c.link,
              ◌>>=◌,
              e2,
              ◌>>=◌,
              e3,
              ◌>>=◌,
              e4,
              ◌>>=◌,
              one_less l (e ∷ t) z h,
              ◌>>=◌,
            )
            refl,
        gone,
        top,
        refl,
        refl,
        rw (remove_last, more, top, ◌>>=◌, gone, ◌>>=◌) refl,
      )

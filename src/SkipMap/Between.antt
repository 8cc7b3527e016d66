-- ===== src/SkipMap/Between.antt =====
-- A new key between its neighbours, and the `next` links around its node.
use leveldb_rs.Base.{
  ℕ, zero, suc, ◌≤◌, ◌<◌, ◌≡◌, ◌≢◌, refl, ap, sym, ◌∙◌, arith, Option, none, some, List, [], ◌∷◌,
  ◌++◌, All, replicate, Ordering, ==_iff,
}
use leveldb_rs.Coding.{Bytes}
use leveldb_rs.SkipMap.{Node, at, link_next}
use leveldb_rs.SkipMap.Order.{IsOrder, IsSorted, HasKey, IsBelow}
use leveldb_rs.SkipMap.Chains.{Distinct, All-map}
use leveldb_rs.SkipMap.Predecessors.{IsAbove}
use mathlib.Core.Path.{subst, subst⁻¹}

pub at-replicate : {A : Type 0} (n i : ℕ) (a : A) → i < n → at (replicate n a) i ≡ some a
at-replicate zero i a h = absurd (omega arith)
at-replicate (suc n) zero a h = refl
at-replicate (suc n) (suc i) a h = at-replicate n i a (omega arith)

pub at-replicate-none : {A : Type 0} (n i : ℕ) (a : A) → n ≤ i → at (replicate n a) i ≡ none
at-replicate-none zero i a h = refl
at-replicate-none (suc n) zero a h = absurd (omega arith)
at-replicate-none (suc n) (suc i) a h = at-replicate-none n i a (omega arith)

-- The `next` links.
module _ (new current : ℕ) (node : ℕ → Node) (ne : current ≢ new) where
  pub link_next-skips : (a : ℕ) → (link_next new current node a).skips ≡ (node a).skips
  unfolding link_next
  link_next-skips a = ground (arith, (==_iff a current), (==_iff a new))

  pub link_next-key :
      (a : ℕ)
      → ((link_next new current node a).key ≡ (node a).key)
        × ((link_next new current node a).value ≡ (node a).value)
  unfolding link_next
  link_next-key a = ground (arith, (==_iff a current), (==_iff a new))

  pub link_next-current : (link_next new current node current).next ≡ some new
  unfolding link_next
  link_next-current = ground arith

  pub link_next-new : (link_next new current node new).next ≡ (node current).next
  unfolding link_next
  link_next-new = ground arith

  pub link_next-other :
      (a : ℕ) → a ≢ current → a ≢ new → (link_next new current node a).next ≡ (node a).next
  unfolding link_next
  link_next-other a h k = ground arith

module _ {cmp : Bytes → Bytes → Option Ordering} {IsKey : Bytes → Type 0}
    (o : IsOrder cmp IsKey) where
  -- A sorted list has no node twice.
  pub sorted-Distinct :
      (node : ℕ → Node) (l : List ℕ) → All (HasKey o node) l → IsSorted o node l → Distinct l
  sorted-Distinct node [] hv hs = tt
  sorted-Distinct node (a ∷ l) hv hs = (
    All-map l
        (λ b f e.
          let g : o.order (node a).key (node a).key ≡ Ordering.lt =
            subst (λ x. o.order (node a).key (node x).key ≡ Ordering.lt) e f in
          let z : Ordering.lt ≡ Ordering.eq = sym g ∙ o.order_refl (node a).key hv.0 in cc)
        hs.0,
    sorted-Distinct node l hv.1 hs.1,
  )

  -- A key between its neighbours keeps the list sorted, in a store with the same keys.
  module _ (node node' : ℕ → Node) (key : Bytes) (new : ℕ) (hk : IsKey key)
      (en : (node' new).key ≡ key) (same : (a : ℕ) → a ≢ new → (node' a).key ≡ (node a).key) where
    pub HasKey-insert :
        (m r : List ℕ)
        → All (λ a. a ≢ new) (m ++ r)
        → All (HasKey o node) (m ++ r)
        → All (HasKey o node') (m ++ new ∷ r)
    HasKey-insert [] r hn hv = (subst⁻¹ (λ t. IsKey t) en hk, All-map2 r hn hv)
      where
        All-map2 :
            (l : List ℕ) → All (λ a. a ≢ new) l → All (HasKey o node) l → All (HasKey o node') l
        All-map2 [] h k = tt
        All-map2 (a ∷ l) h k = (subst⁻¹ (λ t. IsKey t) (same a h.0) k.0, All-map2 l h.1 k.1)
    HasKey-insert (a ∷ m) r hn hv =
        (subst⁻¹ (λ t. IsKey t) (same a hn.0) hv.0, HasKey-insert m r hn.1 hv.1)

    above_all :
        (a : ℕ) (x : Bytes) (l : List ℕ)
        → (node' a).key ≡ x
        → All (λ b. b ≢ new) l
        → All (λ b. o.order x (node b).key ≡ Ordering.lt) l
        → All (λ b. o.order (node' a).key (node' b).key ≡ Ordering.lt) l
    above_all a x [] e h k = tt
    above_all a x (b ∷ l) e h k = (
      ap (λ t. o.order t (node' b).key) e ∙ ap (λ t. o.order x t) (same b h.0) ∙ k.0,
      above_all a x l e h.1 k.1,
    )

    IsSorted-cong : (r : List ℕ) → All (λ b. b ≢ new) r → IsSorted o node r → IsSorted o node' r
    IsSorted-cong [] h k = tt
    IsSorted-cong (b ∷ r) h k =
        (above_all b (node b).key r (same b h.0) h.1 k.0, IsSorted-cong r h.1 k.1)

    below_new :
        (r : List ℕ)
        → All (HasKey o node) r
        → All (IsAbove o node key) r
        → All (λ b. o.order key (node b).key ≡ Ordering.lt) r
    below_new [] h k = tt
    below_new (b ∷ r) h k = (o.lt_of_gt (node b).key key h.0 hk k.0, below_new r h.1 k.1)

    All_insert :
        (a : ℕ) (m r : List ℕ)
        → a ≢ new
        → o.order (node a).key key ≡ Ordering.lt
        → All (λ b. b ≢ new) (m ++ r)
        → All (λ b. o.order (node a).key (node b).key ≡ Ordering.lt) (m ++ r)
        → All (λ b. o.order (node' a).key (node' b).key ≡ Ordering.lt) (m ++ new ∷ r)
    All_insert a [] r ne lt h k = (
      ap (λ t. o.order t (node' new).key) (same a ne) ∙ ap (λ t. o.order (node a).key t) en ∙ lt,
      above_all a (node a).key r (same a ne) h k,
    )
    All_insert a (b ∷ m) r ne lt h k = (
      ap (λ t. o.order t (node' b).key) (same a ne)
          ∙ ap (λ t. o.order (node a).key t) (same b h.0)
          ∙ k.0,
      All_insert a m r ne lt h.1 k.1,
    )

    pub IsSorted-insert :
        (m r : List ℕ)
        → All (λ b. b ≢ new) (m ++ r)
        → All (HasKey o node) (m ++ r)
        → IsSorted o node (m ++ r)
        → All (IsBelow o node key) m
        → All (IsAbove o node key) r
        → IsSorted o node' (m ++ new ∷ r)
    IsSorted-insert [] r hn hv hs hm ha =
        (above_all new key r en hn (below_new r hv ha), IsSorted-cong r hn hs)
    IsSorted-insert (a ∷ m) r hn hv hs hm ha =
        (All_insert a m r hn.0 hm.0 hn.1 hs.0, IsSorted-insert m r hn.1 hv.1 hs.1 hm.1 ha)

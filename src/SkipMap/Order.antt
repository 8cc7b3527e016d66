-- ===== src/SkipMap/Order.antt =====
-- What the skip list asks of its comparator, and the shape that its operations keep.
use leveldb_rs.Base.{ℕ, ◌<◌, ◌≡◌, Option, none, some, List, [], ◌∷◌, ◌++◌, All, length, Ordering}
use leveldb_rs.Coding.{Bytes}
use leveldb_rs.SkipMap.{Node, SkipMap, skip_at, head, max_height}
use leveldb_rs.SkipMap.Links.{Linked}

-- On the keys that the map holds and is asked for, the comparator does not panic and answers a
-- strict order up to the equality that it decides.
pub record IsOrder (cmp : Bytes → Bytes → Option Ordering) (IsKey : Bytes → Type 0) : Type 0 where
  pub order : Bytes → Bytes → Ordering
  pub cmp_order : (a b : Bytes) → IsKey a → IsKey b → cmp a b ≡ some (order a b)
  pub order_refl : (a : Bytes) → IsKey a → order a a ≡ Ordering.eq
  pub lt_trans :
      (a b c : Bytes)
      → IsKey a
      → IsKey b
      → IsKey c
      → order a b ≡ Ordering.lt
      → order b c ≡ Ordering.lt
      → order a c ≡ Ordering.lt
  pub lt_eq :
      (a b c : Bytes)
      → IsKey a
      → IsKey b
      → IsKey c
      → order a b ≡ Ordering.lt
      → order b c ≡ Ordering.eq
      → order a c ≡ Ordering.lt
  pub lt_of_gt :
      (a b : Bytes) → IsKey a → IsKey b → order a b ≡ Ordering.gt → order b a ≡ Ordering.lt

module _ {cmp : Bytes → Bytes → Option Ordering} {IsKey : Bytes → Type 0} (o : IsOrder cmp IsKey)
    (node : ℕ → Node) where
  -- The nodes ascend strictly by key.
  abbrev pub IsSorted : List ℕ → Type 0
  IsSorted [] = Unit {0}
  IsSorted (a ∷ l) = All (λ b. o.order (node a).key (node b).key ≡ Ordering.lt) l × IsSorted l

  abbrev pub HasKey : ℕ → Type 0
  HasKey a = IsKey (node a).key

  abbrev pub IsBelow : Bytes → ℕ → Type 0
  IsBelow key a = o.order (node a).key key ≡ Ordering.lt

  abbrev pub NotBelow : Bytes → ℕ → Type 0
  NotBelow key a = ¬ (o.order (node a).key key ≡ Ordering.lt)

-- The map's nodes behind the head are `l`, in order: every level's links visit those of `l` that are
-- that high, from the head, and the `next` links visit all of them.
pub record HasNodes {R : Type 0} (sm : SkipMap R) (l : List ℕ) : Type 0 where
  pub bottom : All (λ a. ¬ (skip_at sm.node a 0 ≡ none)) l
  pub levels :
      (i : ℕ)
      → i < max_height
      → (p : Option ℕ) × (skip_at sm.node head i ≡ some p) × Linked (λ a. skip_at sm.node a i) p l
  pub nexts : Linked (λ a. some (sm.node a).next) (sm.node head).next l
  pub len_nodes : sm.len ≡ length l
  pub addresses : All (λ a. (0 < a) × (a < sm.fresh)) l
  pub has_fresh : 0 < sm.fresh

module _ {A : Type 0} (P : A → Type 0) where
  pub All-left : (xs ys : List A) → All P (xs ++ ys) → All P xs
  All-left [] ys h = tt
  All-left (x ∷ xs) ys h = (h.0, All-left xs ys h.1)

  pub All-right : (xs ys : List A) → All P (xs ++ ys) → All P ys
  All-right [] ys h = h
  All-right (x ∷ xs) ys h = All-right xs ys h.1

  pub All-middle : (xs : List A) (y : A) (ys : List A) → All P (xs ++ y ∷ ys) → P y
  All-middle [] y ys h = h.0
  All-middle (x ∷ xs) y ys h = All-middle xs y ys h.1

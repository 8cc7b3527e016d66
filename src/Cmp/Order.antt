-- ===== src/Cmp/Order.antt =====
-- The byte order is a total order, and what it says of an appended or changed byte.
use leveldb_rs.Base.{some}
use leveldb_rs.Cmp.{Cmp, default_cmp}
use leveldb_rs.Base.{ℕ, ◌≡◌, refl, arith, [], ◌∷◌, ◌++◌, Ordering, true, ◌↔◌}
use leveldb_rs.Coding.{Bytes}
use leveldb_rs.Cmp.{cmp_bytes, bytes_eq}

pub cmp_bytes_refl : (a : Bytes) → cmp_bytes a a ≡ Ordering.eq
cmp_bytes_refl [] = refl
cmp_bytes_refl (x ∷ xs) = ground (arith, cmp_bytes_refl xs)

pub eq_of_cmp_bytes : (a b : Bytes) → cmp_bytes a b ≡ Ordering.eq → a ≡ b
eq_of_cmp_bytes [] [] h = refl
eq_of_cmp_bytes [] (y ∷ ys) h = cc
eq_of_cmp_bytes (x ∷ xs) [] h = cc
eq_of_cmp_bytes (x ∷ xs) (y ∷ ys) h = ground (arith, eq_of_cmp_bytes xs ys)

pub gt_of_cmp_bytes : (a b : Bytes) → cmp_bytes a b ≡ Ordering.lt → cmp_bytes b a ≡ Ordering.gt
gt_of_cmp_bytes [] [] h = cc
gt_of_cmp_bytes [] (y ∷ ys) h = refl
gt_of_cmp_bytes (x ∷ xs) [] h = cc
gt_of_cmp_bytes (x ∷ xs) (y ∷ ys) h = ground (arith, gt_of_cmp_bytes xs ys)

pub lt_of_cmp_bytes : (a b : Bytes) → cmp_bytes a b ≡ Ordering.gt → cmp_bytes b a ≡ Ordering.lt
lt_of_cmp_bytes [] [] h = cc
lt_of_cmp_bytes [] (y ∷ ys) h = cc
lt_of_cmp_bytes (x ∷ xs) [] h = refl
lt_of_cmp_bytes (x ∷ xs) (y ∷ ys) h = ground (arith, lt_of_cmp_bytes xs ys)

pub cmp_bytes_trans :
    (a b c : Bytes)
    → cmp_bytes a b ≡ Ordering.lt
    → cmp_bytes b c ≡ Ordering.lt
    → cmp_bytes a c ≡ Ordering.lt
cmp_bytes_trans [] [] c h k = cc
cmp_bytes_trans [] (y ∷ ys) [] h k = cc
cmp_bytes_trans [] (y ∷ ys) (z ∷ zs) h k = refl
cmp_bytes_trans (x ∷ xs) [] c h k = cc
cmp_bytes_trans (x ∷ xs) (y ∷ ys) [] h k = cc
cmp_bytes_trans (x ∷ xs) (y ∷ ys) (z ∷ zs) h k = ground (arith, cmp_bytes_trans xs ys zs)

pub bytes_eq_iff : (a b : Bytes) → (bytes_eq a b ≡ true) ↔ (a ≡ b)
bytes_eq_iff [] [] = (λ h. refl, λ h. refl)
bytes_eq_iff [] (y ∷ ys) = (λ h. cc, λ h. cc)
bytes_eq_iff (x ∷ xs) [] = (λ h. cc, λ h. cc)
bytes_eq_iff (x ∷ xs) (y ∷ ys) = ground (arith, bytes_eq_iff xs ys)

-- A common front does not matter, and a string comes before its extensions.
pub cmp_bytes_append : (p a b : Bytes) → cmp_bytes (p ++ a) (p ++ b) ≡ cmp_bytes a b
cmp_bytes_append [] a b = refl
cmp_bytes_append (x ∷ xs) a b = ground (arith, cmp_bytes_append xs a b)

pub cmp_bytes_extend : (a : Bytes) (x : ℕ) (b : Bytes) → cmp_bytes a (a ++ x ∷ b) ≡ Ordering.lt
cmp_bytes_extend [] x b = refl
cmp_bytes_extend (y ∷ ys) x b = ground (arith, cmp_bytes_extend ys x b)

-- What the code expects of a comparator: it never panics and is a total order.
pub record IsTotal (c : Cmp) : Type 0 where
  pub order : Bytes → Bytes → Ordering
  pub cmp_order : (a b : Bytes) → c.cmp a b ≡ some (order a b)
  pub order_refl : (a : Bytes) → order a a ≡ Ordering.eq
  pub eq_of_order : (a b : Bytes) → order a b ≡ Ordering.eq → a ≡ b
  pub gt_of_order : (a b : Bytes) → order a b ≡ Ordering.lt → order b a ≡ Ordering.gt
  pub lt_of_order : (a b : Bytes) → order a b ≡ Ordering.gt → order b a ≡ Ordering.lt
  pub order_trans :
      (a b c : Bytes) → order a b ≡ Ordering.lt → order b c ≡ Ordering.lt → order a c ≡ Ordering.lt

abbrev pub default_cmp-IsTotal : IsTotal default_cmp
default_cmp-IsTotal = record {
  order = cmp_bytes;
  cmp_order = λ a b. refl;
  order_refl = cmp_bytes_refl;
  eq_of_order = eq_of_cmp_bytes;
  gt_of_order = gt_of_cmp_bytes;
  lt_of_order = lt_of_cmp_bytes;
  order_trans = cmp_bytes_trans;
}

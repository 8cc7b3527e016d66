-- ===== src/Cmp.antt =====
-- src/cmp.rs: the trait Cmp and the comparator DefaultCmp, over byte strings. A method that can
-- panic answers `none` where it does.
pub mod Order
pub mod Separator
pub mod Tests
use leveldb_rs.Base.{
  ℕ, zero, suc, ◌+◌, ◌<◌, ◌≡◌, Bool, true, false, ◌&&◌, Option, none, some, List, [], ◌∷◌, ◌++◌,
  length, take, drop, get_or, set, ltb, ◌==◌, if◌then◌else◌, compare, Ordering, is_lt, is_eq,
}
use leveldb_rs.Coding.{Bytes}
use mathlib.Core.Option

-- `Ordering::then`.
abbrev pub and_then : Ordering → Ordering → Ordering
and_then Ordering.eq second = second
and_then first _ = first

-- `a.cmp(b)` on slices is the lexicographic order, `a == b` the equality of all bytes.
abbrev pub cmp_bytes : Bytes → Bytes → Ordering
cmp_bytes [] [] = Ordering.eq
cmp_bytes [] (y ∷ ys) = Ordering.lt
cmp_bytes (x ∷ xs) [] = Ordering.gt
cmp_bytes (x ∷ xs) (y ∷ ys) = and_then (compare x y) (cmp_bytes xs ys)

abbrev pub bytes_eq : Bytes → Bytes → Bool
bytes_eq [] [] = true
bytes_eq [] (y ∷ ys) = false
bytes_eq (x ∷ xs) [] = false
bytes_eq (x ∷ xs) (y ∷ ys) = x == y && bytes_eq xs ys

-- The trait. `id` names the order and is not used by the operations.
pub record Cmp : Type 0 where
  pub cmp : Bytes → Bytes → Option Ordering
  pub find_shortest_sep : Bytes → Bytes → Option Bytes
  pub find_short_succ : Bytes → Option Bytes

-- `while diff_at < min && a[diff_at] == b[diff_at] { diff_at += 1 }`, from 0.
unfoldable pub common_prefix : Bytes → Bytes → ℕ
common_prefix [] ys = 0
common_prefix (x ∷ xs) [] = 0
common_prefix (x ∷ xs) (y ∷ ys) = if x == y then suc (common_prefix xs ys) else 0

-- The second loop over the two rests: the first place where `a`'s byte can grow and stay below
-- `b`'s. The answer is the end of the separator, from `diff_at` on.
pub find_gap : Bytes → Bytes → Option Bytes
find_gap [] ys = none
find_gap (x ∷ xs) [] = none
find_gap (x ∷ xs) (y ∷ ys) =
    let later = find_gap xs ys in
    if ltb x 0xff && ltb (x + 1) y then some ((x + 1) ∷ []) else Option.map (λ s. x ∷ s) later

-- `while i > 0 && sep[i] == 0xff { i -= 1 }`.
last_below_ff : Bytes → ℕ → ℕ
last_below_ff sep zero = 0
last_below_ff sep (suc i) =
    let lower = last_below_ff sep i in if get_or sep (suc i) 0 == 0xff then lower else suc i

-- The part behind the loops. `a.len() - 1` underflows at an empty `a`.
lengthen : Bytes → Bytes → Option Bytes
unfolding last_below_ff
lengthen [] b = none
lengthen (x ∷ xs) b =
    let a = x ∷ xs in
    let i = last_below_ff a (length xs) in
    let sep = set a i (get_or a i 0 + 1) in
    if ltb (get_or a i 0) 0xff && is_lt (cmp_bytes sep b) then some sep else some (a ++ 0 ∷ [])

-- A found gap is returned behind `assert!(self.cmp(&sep, b) == Ordering::Less)`.
unfoldable pub find_shortest_sep : Bytes → Bytes → Option Bytes
unfolding common_prefix find_gap lengthen
find_shortest_sep a b =
    let diff_at = common_prefix a b in
    if bytes_eq a b then some a else elim (find_gap (drop diff_at a) (drop diff_at b)) [
      | some s ↦
          if is_lt (cmp_bytes (take diff_at a ++ s) b) then some (take diff_at a ++ s) else none
      | none ↦ lengthen a b
    ]

-- The loop over `i`: the first byte that is not 0xff grows and ends the result.
unfoldable pub find_short_succ : Bytes → Bytes
find_short_succ [] = 255 ∷ []
find_short_succ (x ∷ xs) = if x == 0xff then x ∷ find_short_succ xs else (x + 1) ∷ []

abbrev pub default_cmp : Cmp
default_cmp = record {
  cmp = λ a b. some (cmp_bytes a b);
  find_shortest_sep = find_shortest_sep;
  find_short_succ = λ a. some (find_short_succ a);
}

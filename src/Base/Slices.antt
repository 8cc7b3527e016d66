-- ===== src/Base/Slices.antt =====
-- Rust's slicing, checked subtraction and writes into a buffer of fixed size; `none` is the panic.
-- Arithmetic on `usize` panics on underflow, as it does with overflow checks on.
use leveldb_rs.Base.Lists.{
  length, length-append, take, drop, take_append, drop_append, drop_all, replicate,
}
use leveldb_rs.Base.Tests.{leb, ltb, if◌then◌else◌}
use Prim.Native.Nat.{ℕ, ◌+◌, ◌-◌, ◌^◌, ◌≤◌}
use mathlib.Core.Path.{◌≡◌, ap, ◌∙◌}
use mathlib.Core.Bool.{◌&&◌, ◌||◌}
use mathlib.Core.List.{List, [], ◌++◌, append-nil}
use mathlib.Core.Option.{Option, none, some}
use native.Mathlib.Omega.{arith}

-- `a - b`.
abbrev pub checked_sub : ℕ → ℕ → Option ℕ
checked_sub a b = if leb b a then some (a - b) else none

pub checked_sub-some : (a b : ℕ) → b ≤ a → checked_sub a b ≡ some (a - b)
checked_sub-some a b h = ground arith

module _ {A : Type 0} where
  -- A sum of `usize` that a position in the slice is computed by. It overflows from 2^64 on; a slice has
  -- fewer than 2^63 bytes, so that no position inside it does.
  abbrev pub position : List A → ℕ → Option ℕ
  position xs n = if leb n (length xs) || ltb n (2 ^ 64) then some n else none

  pub position-some : (xs : List A) (n : ℕ) → n ≤ length xs → position xs n ≡ some n
  position-some xs n h = ground (arith, h)

  -- `xs[lo..hi]` and `xs[lo..]`.
  unfoldable pub slice : List A → ℕ → ℕ → Option (List A)
  slice xs lo hi =
      if leb lo hi && leb hi (length xs) then some (take (hi - lo) (drop lo xs)) else none

  unfoldable pub slice_from : List A → ℕ → Option (List A)
  slice_from xs lo = if leb lo (length xs) then some (drop lo xs) else none

  pub slice-in_bounds :
      (xs : List A) (lo hi : ℕ)
      → lo ≤ hi
      → hi ≤ length xs
      → slice xs lo hi ≡ some (take (hi - lo) (drop lo xs))
  unfolding slice
  slice-in_bounds xs lo hi h k = ground arith

  -- A slice that cuts one part out of a concatenation.
  pub slice_middle :
      (pre mid rest : List A) (lo hi : ℕ)
      → lo ≡ length pre
      → hi ≡ lo + length mid
      → slice (pre ++ (mid ++ rest)) lo hi ≡ some mid
  slice_middle pre mid rest lo hi p q =
      slice-in_bounds (pre ++ (mid ++ rest)) lo hi (omega arith)
        (omega (arith, length-append pre (mid ++ rest), length-append mid rest))
      ∙ rw (drop_append lo pre (mid ++ rest) p)
          (ap some (take_append (hi - lo) mid rest (omega arith)))

  pub slice_from_append :
      (pre rest : List A) (lo : ℕ) → lo ≡ length pre → slice_from (pre ++ rest) lo ≡ some rest
  unfolding slice_from
  slice_from_append pre rest lo p =
      ground (arith, length-append pre rest, drop_append lo pre rest p)

  pub slice_from_end : (xs : List A) (lo : ℕ) → lo ≡ length xs → slice_from xs lo ≡ some []
  unfolding slice_from
  slice_from_end xs lo h = ground (arith, drop_all lo xs (omega arith))

-- Writes into a buffer of `n` zero bytes, from its front.
unfoldable pub fill : ℕ → List ℕ → Option (List ℕ)
fill n xs = if leb (length xs) n then some (xs ++ replicate (n - length xs) 0) else none

pub fill_exact : (n : ℕ) (xs : List ℕ) → n ≡ length xs → fill n xs ≡ some xs
unfolding fill
fill_exact n xs h =
    let e : n - length xs ≡ 0 = omega arith in
    ground (arith, ap (λ (k : ℕ). xs ++ replicate k 0) e, append-nil xs)

-- ===== src/Base/Digits.antt =====
-- A single binary digit under `&` and `|`.
use Prim.Native.Nat.{
  ℕ, zero, suc, ◌+◌, ◌*◌, ◌/◌, ◌%◌, ◌^◌, ◌≤◌, min, max, bit_and, bit_or, digits, bit_and-bitwise,
  bit_or-bitwise,
}
use mathlib.Core.Path.{◌≡◌, refl, ap, sym, ◌∙◌}
use native.Mathlib.Omega.{arith}
use native.Mathlib.Nat.{pow-suc}

-- The native operations are defined by a loop over the digits of `a`: more rounds change nothing.
module _ (z : ℕ → ℕ) (op : ℕ → ℕ → ℕ) where
  digits_of_zero : (rounds b : ℕ) → digits z op rounds 0 b ≡ z b
  digits_of_zero zero b = refl
  digits_of_zero (suc rounds) b = refl

  same_digits :
      (a b bound r r' : ℕ)
      → a ≤ bound
      → bound ≤ r
      → bound ≤ r'
      → digits z op r a b ≡ digits z op r' a b
  same_digits zero b bound r r' h k k' = digits_of_zero r b ∙ sym (digits_of_zero r' b)
  same_digits (suc a) b zero r r' h k k' = absurd (omega (arith, h))
  same_digits (suc a) b (suc n) zero r' h k k' = absurd (omega (arith, k))
  same_digits (suc a) b (suc n) (suc r) zero h k k' = absurd (omega (arith, k'))
  same_digits (suc a) b (suc n) (suc r) (suc r') h k k' =
      ap (λ (t : ℕ). t * 2 + op (suc a % 2) (b % 2))
        (same_digits (suc a / 2) (b / 2) n r r' (omega (arith, h)) (omega (arith, k))
          (omega (arith, k')))

  low_digit :
      (a b : ℕ)
      → z b ≡ z (b / 2) * 2 + op 0 (b % 2)
      → digits z op a a b ≡ digits z op (a / 2) (a / 2) (b / 2) * 2 + op (a % 2) (b % 2)
  low_digit zero b last = last
  low_digit (suc a) b last =
      ap (λ (t : ℕ). t * 2 + op (suc a % 2) (b % 2))
        (same_digits (suc a / 2) (b / 2) (suc a / 2) a (suc a / 2) (omega arith) (omega arith)
          (omega arith))

and_low : (a b : ℕ) → bit_and a b ≡ bit_and (a / 2) (b / 2) * 2 + min (a % 2) (b % 2)
and_low a b = omega (
  arith,
  low_digit (λ b. zero) min a b (omega arith),
  bit_and-bitwise a b,
  bit_and-bitwise (a / 2) (b / 2),
)

or_low : (a b : ℕ) → bit_or a b ≡ bit_or (a / 2) (b / 2) * 2 + max (a % 2) (b % 2)
or_low a b = omega (
  arith,
  low_digit (λ b. b) max a b (omega arith),
  bit_or-bitwise a b,
  bit_or-bitwise (a / 2) (b / 2),
)

-- The digit of the weight `2 ^ i`.
abbrev pub digit : ℕ → ℕ → ℕ
digit x zero = x % 2
digit x (suc i) = digit (x / 2) i

pub digit-le : (x i : ℕ) → digit x i ≤ 1
digit-le x zero = omega arith
digit-le x (suc i) = digit-le (x / 2) i

and_digits-zero : (r a : ℕ) → digits (λ b. zero) min r a 0 ≡ 0
and_digits-zero zero a = refl
and_digits-zero (suc r) zero = refl
and_digits-zero (suc r) (suc a) = omega (arith, and_digits-zero r (suc a / 2))

and-zero : (a : ℕ) → bit_and a 0 ≡ 0
and-zero a = bit_and-bitwise a 0 ∙ and_digits-zero a a

-- `&` with one bit.
pub and_single : (x i : ℕ) → bit_and x (2 ^ i) ≡ digit x i * 2 ^ i
and_single x zero = omega (arith, and_low x 1, and-zero (x / 2))
and_single x (suc i) =
    let p = pow-suc 2 i in
    let half : 2 ^ suc i / 2 ≡ 2 ^ i = omega (arith, p) in
    let even : 2 ^ suc i % 2 ≡ 0 = omega (arith, p) in
    let s : bit_and x (2 ^ suc i) ≡ bit_and (x / 2) (2 ^ i) * 2 =
      and_low x (2 ^ suc i)
      ∙ ap (λ (t : ℕ). bit_and (x / 2) t * 2 + min (x % 2) (2 ^ suc i % 2)) half
      ∙ omega (arith, even) in
    let q : digit (x / 2) i * 2 ^ suc i ≡ digit (x / 2) i * (2 ^ i * 2) =
      ap (λ (t : ℕ). digit (x / 2) i * t) p in
    omega (arith, s, and_single (x / 2) i, q)

pub digit-or : (x y i : ℕ) → digit (bit_or x y) i ≡ max (digit x i) (digit y i)
digit-or x y zero = omega (arith, or_low x y)
digit-or x y (suc i) =
    let half : bit_or x y / 2 ≡ bit_or (x / 2) (y / 2) = omega (arith, or_low x y) in
    ap (λ (t : ℕ). digit t i) half ∙ digit-or (x / 2) (y / 2) i

pub digit-pow : (i : ℕ) → digit (2 ^ i) i ≡ 1
digit-pow zero = refl
digit-pow (suc i) =
    let half : 2 ^ suc i / 2 ≡ 2 ^ i = omega (arith, pow-suc 2 i) in
    ap (λ (t : ℕ). digit t i) half ∙ digit-pow i

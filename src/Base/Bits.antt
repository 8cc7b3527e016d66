-- ===== src/Base/Bits.antt =====
-- `|` of disjoint fields and `&` with a low mask, as arithmetic.
use Prim.Native.Nat.{ℕ, zero, suc, ◌+◌, ◌*◌, ◌/◌, ◌%◌, ◌^◌, ◌≤◌, ◌<◌, ◌-◌, bit_and, bit_or}
use Prim.Native.Nat.{min, max, digits, bit_and-bitwise, bit_or-bitwise}
use mathlib.Core.Path.{◌≡◌, refl, ap, ◌∙◌}
use native.Mathlib.Omega.{arith}
use native.Mathlib.Nat.{pow-suc, one-le-pow}

-- The native `|`, which goes by the digits of its first argument with any fuel `n` above it.
abbrev or_digits : ℕ → ℕ → ℕ → ℕ
or_digits n a b = digits (λ y. y) max n a b

abbrev and_digits : ℕ → ℕ → ℕ → ℕ
and_digits n a b = digits (λ y. 0) min n a b

halve_field : (a k q : ℕ) → a ≡ q * 2 ^ suc k → a / 2 ≡ q * 2 ^ k
halve_field a k q e =
    let f : q * 2 ^ suc k ≡ q * (2 ^ k * 2) = ap (λ (t : ℕ). q * t) (pow-suc 2 k) in
    omega (arith, e, f)

even_field : (a k q : ℕ) → a ≡ q * 2 ^ suc k → a % 2 ≡ 0
even_field a k q e =
    let f : q * 2 ^ suc k ≡ q * (2 ^ k * 2) = ap (λ (t : ℕ). q * t) (pow-suc 2 k) in
    omega (arith, e, f)

-- The shifted field comes first.
high_or_low : (n a k q r : ℕ) → a ≤ n → a ≡ q * 2 ^ k → r < 2 ^ k → or_digits n a r ≡ a + r
high_or_low zero a k q r fuel e fits = omega arith
high_or_low (suc n) zero k q r fuel e fits = omega arith
high_or_low (suc n) (suc a) zero q r fuel e fits = omega (
  arith,
  high_or_low n (suc a / 2) 0 (suc a / 2) (r / 2) (omega arith) (omega arith) (omega arith),
)
high_or_low (suc n) (suc a) (suc k) q r fuel e fits = ground (
  arith,
  even_field (suc a) k q e,
  pow-suc 2 k,
  high_or_low n (suc a / 2) k q (r / 2) (omega arith) (halve_field (suc a) k q e)
      (omega (arith, pow-suc 2 k)),
)

-- The shifted field comes second.
low_or_high : (n r k q b : ℕ) → r ≤ n → b ≡ q * 2 ^ k → r < 2 ^ k → or_digits n r b ≡ b + r
low_or_high zero r k q b fuel e fits = omega arith
low_or_high (suc n) zero k q b fuel e fits = omega arith
low_or_high (suc n) (suc r) zero q b fuel e fits = absurd (omega arith)
low_or_high (suc n) (suc r) (suc k) q b fuel e fits = ground (
  arith,
  even_field b k q e,
  pow-suc 2 k,
  low_or_high n (suc r / 2) k q (b / 2) (omega arith) (halve_field b k q e)
      (omega (arith, pow-suc 2 k)),
)

masked :
    (n a k q r m : ℕ) → a ≤ n → a ≡ q * 2 ^ k + r → r < 2 ^ k → m + 1 ≡ 2 ^ k → and_digits n a m ≡ r
masked zero a k q r m fuel e fits low = omega arith
masked (suc n) zero k q r m fuel e fits low = omega arith
masked (suc n) (suc a) zero q r m fuel e fits low = omega (
  arith,
  masked n (suc a / 2) 0 (suc a / 2) 0 (m / 2) (omega arith) (omega arith) (omega arith)
      (omega arith),
)
masked (suc n) (suc a) (suc k) q r m fuel e fits low =
    let p = pow-suc 2 k in
    let h = halve_field (q * 2 ^ suc k) k q refl in
    let v = even_field (q * 2 ^ suc k) k q refl in
    omega (
      arith,
      v,
      masked n (suc a / 2) k q (r / 2) (m / 2) (omega arith) (omega (arith, e, h, v))
          (omega (arith, p)) (omega (arith, p, low, one-le-pow k 2)),
      low,
      p,
      e,
      one-le-pow k 2,
    )

pub shifted_or : (k q r : ℕ) → r < 2 ^ k → bit_or (q * 2 ^ k) r ≡ q * 2 ^ k + r
shifted_or k q r fits =
    bit_or-bitwise (q * 2 ^ k) r ∙ high_or_low (q * 2 ^ k) (q * 2 ^ k) k q r (omega arith) refl fits

pub or_shifted : (k q r : ℕ) → r < 2 ^ k → bit_or r (q * 2 ^ k) ≡ q * 2 ^ k + r
or_shifted k q r fits =
    bit_or-bitwise r (q * 2 ^ k) ∙ low_or_high r r k q (q * 2 ^ k) (omega arith) refl fits

-- `a & 0xff…` is a remainder.
pub and_low_mask : (k a : ℕ) → bit_and a (2 ^ k - 1) ≡ a % 2 ^ k
and_low_mask k a =
    bit_and-bitwise a (2 ^ k - 1)
    ∙ masked a a k (a / 2 ^ k) (a % 2 ^ k) (2 ^ k - 1) (omega arith) (omega arith)
        (omega (arith, one-le-pow k 2)) (omega (arith, one-le-pow k 2))

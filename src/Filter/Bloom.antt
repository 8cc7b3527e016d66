-- ===== src/Filter/Bloom.antt =====
-- The Bloom filter of src/filter.rs matches every key that it was created from.
use leveldb_rs.Base.{
  ℕ, zero, suc, ◌+◌, ◌*◌, ◌/◌, ◌%◌, ◌^◌, ◌≤◌, ◌<◌, ◌≡◌, ◌≢◌, refl, ap, sym, ◌∙◌, arith, true, false,
  some, [], ◌∷◌, ◌++◌, length, length-append, length-set, get_or, set, ltb, ◌==◌, ◌>>=◌, ◌>>◌,
}
use leveldb_rs.Base.Digits.{digit, digit-le, digit-or, digit-pow, and_single}
use leveldb_rs.Coding.{Bytes}
use leveldb_rs.Filter.{set_bit, test_bit, set_probes, test_probes}
use leveldb_rs.Base.{Bool-cases, ==_iff, inl, inr}
use native.Mathlib.Nat.{one-le-pow}
use Prim.Native.Nat.{bit_and, bit_or}

-- The bit at a position is set.
abbrev pub HasBit : Bytes → ℕ → Type 0
HasBit body pos = (pos / 8 < length body) × (digit (get_or body (pos / 8) 0) (pos % 8) ≡ 1)

-- Bits are only added.
abbrev pub Grows : Bytes → Bytes → Type 0
Grows body body' = (length body' ≡ length body) × ((pos : ℕ) → HasBit body pos → HasBit body' pos)

pub Grows-refl : (body : Bytes) → Grows body body
Grows-refl body = (refl, λ pos h. h)

pub Grows-trans : (a b c : Bytes) → Grows a b → Grows b c → Grows a c
Grows-trans a b c g h = (h.0 ∙ g.0, λ pos s. h.1 pos (g.1 pos s))

set_front : (body t : Bytes) (i v : ℕ) → i < length body → set (body ++ t) i v ≡ set body i v ++ t
set_front [] t i v h = absurd (omega arith)
set_front (x ∷ body) t zero v h = refl
set_front (x ∷ body) t (suc i) v h = ap (λ l. x ∷ l) (set_front body t i v (omega arith))

get_or-front : (body t : Bytes) (i : ℕ) → i < length body → get_or (body ++ t) i 0 ≡ get_or body i 0
get_or-front [] t i h = absurd (omega arith)
get_or-front (x ∷ body) t zero h = refl
get_or-front (x ∷ body) t (suc i) h = get_or-front body t i (omega arith)

get_or-set : (body : Bytes) (i v : ℕ) → i < length body → get_or (set body i v) i 0 ≡ v
get_or-set [] i v h = absurd (omega arith)
get_or-set (x ∷ body) zero v h = refl
get_or-set (x ∷ body) (suc i) v h = get_or-set body i v (omega arith)

get_or-set_ne : (body : Bytes) (i j v : ℕ) → i ≢ j → get_or (set body i v) j 0 ≡ get_or body j 0
get_or-set_ne [] i j v h = refl
get_or-set_ne (x ∷ body) zero zero v h = absurd (h refl)
get_or-set_ne (x ∷ body) zero (suc j) v h = refl
get_or-set_ne (x ∷ body) (suc i) zero v h = refl
get_or-set_ne (x ∷ body) (suc i) (suc j) v h = get_or-set_ne body i j v (λ e. h (ap suc e))

-- The body of a filter with one bit more.
abbrev with_bit : Bytes → ℕ → Bytes
with_bit body pos = set body (pos / 8) (bit_or (get_or body (pos / 8) 0) (2 ^ (pos % 8)))

with_bit-HasBit : (body : Bytes) (pos : ℕ) → pos / 8 < length body → HasBit (with_bit body pos) pos
with_bit-HasBit body pos h =
    let old = get_or body (pos / 8) 0 in
    let v = bit_or old (2 ^ (pos % 8)) in
    (
      omega (arith, length-set body (pos / 8) v),
      ap (λ x. digit x (pos % 8)) (get_or-set body (pos / 8) v h)
          ∙ omega (
            arith,
            digit-or old (2 ^ (pos % 8)) (pos % 8),
            digit-pow (pos % 8),
            digit-le old (pos % 8),
          ),
    )

with_bit-Grows : (body : Bytes) (pos : ℕ) → pos / 8 < length body → Grows body (with_bit body pos)
with_bit-Grows body pos h =
    let old = get_or body (pos / 8) 0 in
    let v = bit_or old (2 ^ (pos % 8)) in
    (
      length-set body (pos / 8) v,
      λ q s.
          let fits : q / 8 < length (with_bit body pos) =
            omega (arith, s.0, length-set body (pos / 8) v) in
          elim (Bool-cases (pos / 8 == q / 8)) [
            | inl e ↦
                let e' : pos / 8 ≡ q / 8 = (==_iff (pos / 8) (q / 8)).0 e in
                let was : digit old (q % 8) ≡ 1 =
                  ap (λ (i : ℕ). digit (get_or body i 0) (q % 8)) e' ∙ s.1 in
                (
                  fits,
                  ap (λ (i : ℕ). digit (get_or (with_bit body pos) i 0) (q % 8)) (sym e')
                      ∙ ap (λ x. digit x (q % 8)) (get_or-set body (pos / 8) v h)
                      ∙ omega (
                        arith,
                        digit-or old (2 ^ (pos % 8)) (q % 8),
                        was,
                        digit-le (2 ^ (pos % 8)) (q % 8),
                      ),
                )
            | inr e ↦
                let ne : pos / 8 ≢ q / 8 =
                  λ y. let f : true ≡ false = sym ((==_iff (pos / 8) (q / 8)).1 y) ∙ e in cc in
                (fits, ap (λ x. digit x (q % 8)) (get_or-set_ne body (pos / 8) (q / 8) v ne) ∙ s.1)
          ],
    )

set_bit-eq :
    (body t : Bytes) (pos : ℕ)
    → pos / 8 < length body
    → set_bit (body ++ t) pos ≡ some (with_bit body pos ++ t)
unfolding set_bit
set_bit-eq body t pos h =
    let z : ltb (pos / 8) (length (body ++ t)) ≡ true = ground (arith, length-append body t, h) in
    rw z (
      ap some (
        ap (λ x. set (body ++ t) (pos / 8) (bit_or x (2 ^ (pos % 8))))
          (get_or-front body t (pos / 8) h)
        ∙ set_front body t (pos / 8) (bit_or (get_or body (pos / 8) 0) (2 ^ (pos % 8))) h))

pow_pos : (i : ℕ) → 0 < 2 ^ i
pow_pos i = omega (arith, one-le-pow i 2)

test_bit-eq : (body : Bytes) (pos : ℕ) → HasBit body pos → test_bit body pos ≡ some true
unfolding test_bit
test_bit-eq body pos s =
    let z : ltb (pos / 8) (length body) ≡ true = ground (arith, s.0) in
    let w : bit_and (get_or body (pos / 8) 0) (2 ^ (pos % 8)) ≡ 2 ^ (pos % 8) =
      and_single (get_or body (pos / 8) 0) (pos % 8)
      ∙ ap (λ (d : ℕ). d * 2 ^ (pos % 8)) s.1
      ∙ omega arith in
    let nz : (bit_and (get_or body (pos / 8) 0) (2 ^ (pos % 8)) == 0) ≡ false =
      ground (arith, w, pow_pos (pos % 8)) in
    rw (z, nz) refl

-- The bits of all the probes of a key are set.
abbrev pub Probes : ℕ → ℕ → ℕ → ℕ → Bytes → Type 0
Probes zero bits delta h body = Unit {0}
Probes (suc n) bits delta h body =
    HasBit body (h % bits) × Probes n bits delta ((h + delta) % 2 ^ 32) body

pub Probes-Grows :
    (n bits delta h : ℕ) (a b : Bytes)
    → Grows a b
    → Probes n bits delta h a
    → Probes n bits delta h b
Probes-Grows zero bits delta h a b g p = tt
Probes-Grows (suc n) bits delta h a b g p =
    (g.1 (h % bits) p.0, Probes-Grows n bits delta ((h + delta) % 2 ^ 32) a b g p.1)

mod_below : (h bits len : ℕ) → 0 < bits → bits ≤ len * 8 → h % bits / 8 < len
mod_below h bits len p q = let m : h % bits < bits = grind (arith, p) in omega (arith, m, q)

pub set_probes-Grows :
    (n bits delta h : ℕ) (body t : Bytes)
    → 0 < bits
    → bits ≤ length body * 8
    → (body' : Bytes) × (set_probes n bits delta h (body ++ t) ≡ some (body' ++ t))
      × Grows body body'
      × Probes n bits delta h body'
unfolding set_probes
set_probes-Grows zero bits delta h body t p q = (body, refl, Grows-refl body, tt)
set_probes-Grows (suc n) bits delta h body t p q =
    let fits = mod_below h bits (length body) p q in
    let z : ltb 0 bits ≡ true = ground (arith, p) in
    let b1 = with_bit body (h % bits) in
    let g1 = with_bit-Grows body (h % bits) fits in
    let (b2, e, g2, ps) =
      set_probes-Grows n bits delta ((h + delta) % 2 ^ 32) b1 t p (omega (arith, q, g1.0)) in
    (
      b2,
      rw (set_probes, z, ◌>>◌, set_bit-eq body t (h % bits) fits, ◌>>=◌) e,
      Grows-trans body b1 b2 g1 g2,
      (g2.1 (h % bits) (with_bit-HasBit body (h % bits) fits), ps),
    )

pub test_probes-true :
    (n bits delta h : ℕ) (body : Bytes)
    → 0 < bits
    → Probes n bits delta h body
    → test_probes n bits delta h body ≡ some true
unfolding test_probes
test_probes-true zero bits delta h body p s = refl
test_probes-true (suc n) bits delta h body p s =
    let z : ltb 0 bits ≡ true = ground (arith, p) in
    rw (test_probes, z, ◌>>◌, test_bit-eq body (h % bits) s.0, ◌>>=◌)
      (test_probes-true n bits delta ((h + delta) % 2 ^ 32) body p s.1)

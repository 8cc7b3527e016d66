-- ===== src/Cache/Keys.antt =====
-- The keys of the list of src/cache.rs.
use leveldb_rs.Base.{
  ℕ, ◌<◌, ◌≡◌, ◌≢◌, refl, ap, sym, arith, true, false, List, [], ◌∷◌, ◌++◌, All, length, Bool-cases,
  inl, inr,
}
use leveldb_rs.Coding.{Bytes}
use leveldb_rs.Cmp.{bytes_eq}
use leveldb_rs.Cmp.Order.{bytes_eq_iff}
use leveldb_rs.Cache.Removal.{All_front, All_back}

pub bytes_ne : (a b : Bytes) → a ≢ b → bytes_eq a b ≡ false
bytes_ne a b h = elim (Bool-cases (bytes_eq a b)) [
  | inl e ↦ absurd (h ((bytes_eq_iff a b).0 e))
  | inr e ↦ e
]

pub bytes_same : (a : Bytes) → bytes_eq a a ≡ true
bytes_same a = (bytes_eq_iff a a).1 refl

abbrev pub KeysApart : List (ℕ × Bytes) → Type 0
KeysApart [] = Unit {0}
KeysApart (e ∷ t) = All (λ f. f.1 ≢ e.1) t × KeysApart t

-- A list of one element or more has a last one.
pub snoc :
    (t : List (ℕ × Bytes))
    → 0 < length t
    → (u : List (ℕ × Bytes)) × (z : ℕ × Bytes) × (t ≡ u ++ z ∷ [])
snoc [] h = absurd (omega arith)
snoc (e ∷ []) h = ([], e, refl)
snoc (e ∷ f ∷ t) h = let (u, z, q) = snoc (f ∷ t) (omega arith) in (e ∷ u, z, ap (λ l. e ∷ l) q)

pub KeysApart-front :
    (xs : List (ℕ × Bytes)) (z : ℕ × Bytes)
    → KeysApart (xs ++ z ∷ [])
    → KeysApart xs × All (λ e. e.1 ≢ z.1) xs
KeysApart-front [] z h = (tt, tt)
KeysApart-front (x ∷ xs) z h =
    let (k, a) = KeysApart-front xs z h.1 in
    (
      (All_front (λ f. f.1 ≢ x.1) xs (z ∷ []) h.0, k),
      ((λ e. All_back (λ f. f.1 ≢ x.1) xs z h.0 (sym e)), a),
    )

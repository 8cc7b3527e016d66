-- ===== src/MemTable/Versions.antt =====
-- What a reader of a table is to see, without an order on the entries: of the versions of its key that
-- are not too new, the newer_older.
use mathlib.Core.Path.{subst⁻¹}
use leveldb_rs.Base.{
  ℕ, ◌<◌, ◌≤◌, ◌≡◌, refl, ap, sym, ◌∙◌, arith, Bool, true, false, ◌&&◌, Option, none, some, List,
  [], ◌∷◌, ◌++◌, All, leb, ltb, if◌then◌else◌, Bool-cases, inl, inr, compare, Ordering,
  Ordering-cases,
}
use leveldb_rs.Coding.{Bytes}
use leveldb_rs.Cmp.{Cmp, bytes_eq, and_then}
use leveldb_rs.Cmp.Order.{IsTotal, bytes_eq_iff}
use leveldb_rs.KeyTypes.{ValueType, type_value, type_deletion}
use leveldb_rs.KeyTypes.Comparison.{key_order}

pub record Entry : Type 0 where
  pub user : Bytes
  pub seq : ℕ
  pub type : ValueType
  pub value : Bytes

abbrev pub version : Entry → Bytes × ℕ
version e = (e.user, e.seq)

-- The newer of an entry and what was found behind it.
abbrev pub newer : Entry → Option Entry → Option Entry
newer e none = some e
newer e (some e') = if ltb e.seq e'.seq then some e' else some e

abbrev pub is_visible : Bytes → ℕ → Entry → Bool
is_visible k s e = bytes_eq k e.user && leb e.seq s

unfoldable pub visible : Bytes → ℕ → List Entry → Option Entry
visible k s [] = none
visible k s (e ∷ es) = let rest = visible k s es in if is_visible k s e then newer e rest else rest

-- The value and whether it is deleted.
abbrev pub report : Option Entry → Option Bytes × Bool
report none = (none, false)
report (some e) = elim e.type [ type_value ↦ (some e.value, false) | type_deletion ↦ (none, true) ]

abbrev pub first_entry : List Entry → Option Entry
first_entry [] = none
first_entry (e ∷ es) = some e

-- What a reader finds that looks at one entry only.
abbrev pub if_same : Bytes → Option Entry → Option Entry
if_same k none = none
if_same k (some e) = if bytes_eq k e.user then some e else none

module _ {c : Cmp} (o : IsTotal c) where
  -- The versions ascend by key and descend by sequence number.
  abbrev pub Ascending : List Entry → Type 0
  Ascending [] = Unit {0}
  Ascending (e ∷ l) = All (λ e'. key_order o (version e) (version e') ≡ Ordering.lt) l × Ascending l

module _ {c : Cmp} (o : IsTotal c) (k : Bytes) (s : ℕ) where
  not_visible :
      (e : Entry) (rest : List Entry)
      → is_visible k s e ≡ false
      → visible k s (e ∷ rest) ≡ visible k s rest
  unfolding visible
  not_visible e rest h = ap (λ b. if b then newer e (visible k s rest) else visible k s rest) h

  -- Entries before the version that is asked for are of other keys or too new.
  before_hidden :
      (e : Entry) → key_order o (version e) (k, s) ≡ Ordering.lt → is_visible k s e ≡ false
  before_hidden e h = elim (Bool-cases (bytes_eq k e.user)) [
    | inr f ↦ ap (λ b. b && leb e.seq s) f
    | inl f ↦
        let u : k ≡ e.user = (bytes_eq_iff k e.user).0 f in
        let h' : compare s e.seq ≡ Ordering.lt =
          sym (
            ap (λ x. and_then x (compare s e.seq)) (ap (λ x. o.order x k) (sym u) ∙ o.order_refl k))
          ∙ h in
        ground (arith, h', f)
  ]

  pub visible-append :
      (m r : List Entry)
      → All (λ e. key_order o (version e) (k, s) ≡ Ordering.lt) m
      → visible k s (m ++ r) ≡ visible k s r
  visible-append [] r h = refl
  visible-append (e ∷ m) r h = not_visible e (m ++ r) (before_hidden e h.0) ∙ visible-append m r h.1

  seen :
      (e : Entry) (rest : List Entry)
      → is_visible k s e ≡ true
      → visible k s (e ∷ rest) ≡ newer e (visible k s rest)
  unfolding visible
  seen e rest h = ap (λ b. if b then newer e (visible k s rest) else visible k s rest) h

  same_user : (e : Entry) → is_visible k s e ≡ true → (k ≡ e.user) × (e.seq ≤ s)
  same_user e h = elim (Bool-cases (bytes_eq k e.user)) [
    | inl f ↦ ((bytes_eq_iff k e.user).0 f, ground (arith, h, f))
    | inr f ↦ absurd (let z : false ≡ true = sym (ap (λ b. b && leb e.seq s) f) ∙ h in cc)
  ]

  -- Behind a version of the key there are only older ones.
  OlderThan : Entry → Option Entry → Type 0
  OlderThan e none = Unit {0}
  OlderThan e (some e') = e'.seq < e.seq

  newer-OlderThan :
      (e e' : Entry) (x : Option Entry) → e'.seq < e.seq → OlderThan e x → OlderThan e (newer e' x)
  unfolding OlderThan
  newer-OlderThan e e' none h k' = h
  newer-OlderThan e e' (some x) h k' = elim (Bool-cases (ltb e'.seq x.seq)) [
    | inl f ↦ subst⁻¹ (λ b. OlderThan e (if b then some x else some e')) f k'
    | inr f ↦ subst⁻¹ (λ b. OlderThan e (if b then some x else some e')) f h
  ]

  behind_older :
      (e : Entry) (l : List Entry)
      → k ≡ e.user
      → All (λ e'. key_order o (version e) (version e') ≡ Ordering.lt) l
      → OlderThan e (visible k s l)
  unfolding visible OlderThan
  behind_older e [] u h = tt
  behind_older e (e' ∷ l) u h = elim (Bool-cases (is_visible k s e')) [
    | inr f ↦ subst⁻¹ (OlderThan e) (not_visible e' l f) (behind_older e l u h.1)
    | inl f ↦
        let u' = (same_user e' f).0 in
        let same : o.order e.user e'.user ≡ Ordering.eq =
          ap (λ x. o.order x e'.user) (sym u ∙ u') ∙ o.order_refl e'.user in
        let lt : compare e'.seq e.seq ≡ Ordering.lt =
          sym (ap (λ x. and_then x (compare e'.seq e.seq)) same) ∙ h.0 in
        subst⁻¹ (OlderThan e) (seen e' l f)
          (newer-OlderThan e e' (visible k s l) (ground (arith, lt)) (behind_older e l u h.1))
  ]

  newer_older : (e : Entry) (x : Option Entry) → OlderThan e x → newer e x ≡ some e
  unfolding OlderThan
  newer_older e none h = refl
  newer_older e (some x) h = ground (arith, h)

  -- Behind a larger key there is no version of the key.
  behind_larger :
      (e : Entry) (l : List Entry)
      → o.order e.user k ≡ Ordering.gt
      → All (λ e'. key_order o (version e) (version e') ≡ Ordering.lt) l
      → visible k s l ≡ none
  unfolding visible
  behind_larger e [] g h = refl
  behind_larger e (e' ∷ l) g h = elim (Bool-cases (is_visible k s e')) [
    | inr f ↦ not_visible e' l f ∙ behind_larger e l g h.1
    | inl f ↦
        let u' = (same_user e' f).0 in
        let gt : o.order e.user e'.user ≡ Ordering.gt = ap (λ x. o.order e.user x) (sym u') ∙ g in
        absurd (
          let z : Ordering.gt ≡ Ordering.lt =
            sym (ap (λ x. and_then x (compare e'.seq e.seq)) gt) ∙ h.0 in
          cc)
  ]

  -- In an ascending list without entries below the version that is asked for, the first decides.
  pub visible-first :
      (r : List Entry)
      → Ascending o r
      → All (λ e. ¬ (key_order o (version e) (k, s) ≡ Ordering.lt)) r
      → visible k s r ≡ if_same k (first_entry r)
  unfolding visible
  visible-first [] a h = refl
  visible-first (e ∷ r) a h = elim (Bool-cases (bytes_eq k e.user)) [
    | inl f ↦
        let u = (bytes_eq_iff k e.user).0 f in
        let same : key_order o (version e) (k, s) ≡ compare s e.seq =
          ap (λ x. and_then x (compare s e.seq)) (ap (λ x. o.order x k) (sym u) ∙ o.order_refl k) in
        let le : e.seq ≤ s = at_most (compare s e.seq) s e.seq refl (λ z. h.0 (same ∙ z)) in
        let v : is_visible k s e ≡ true = ground (arith, f, le) in
        seen e r v
        ∙ newer_older e (visible k s r) (behind_older e r u a.0)
        ∙ sym (ap (λ b. if b then some e else none) f)
    | inr f ↦
        let g = larger (o.order e.user k) refl f in
        not_visible e r (ap (λ b. b && leb e.seq s) f)
        ∙ behind_larger e r g a.0
        ∙ sym (ap (λ b. if b then some e else none) f)
  ]
    where
      at_most : (x : Ordering) (p q : ℕ) → compare p q ≡ x → ¬ (compare p q ≡ Ordering.lt) → q ≤ p
      at_most x p q e' n = elim (Ordering-cases (compare p q)) [
        | inl z ↦ absurd (n z)
        | inr (inl z) ↦ ground (arith, z)
        | inr (inr z) ↦ ground (arith, z)
      ]

      larger :
          (x : Ordering)
          → o.order e.user k ≡ x
          → bytes_eq k e.user ≡ false
          → o.order e.user k ≡ Ordering.gt
      larger x z f = elim (Ordering-cases (o.order e.user k)) [
        | inl y ↦ absurd (h.0 (ap (λ t. and_then t (compare s e.seq)) y))
        | inr (inl y) ↦ absurd (
            let q : bytes_eq k e.user ≡ true =
              (bytes_eq_iff k e.user).1 (sym (o.eq_of_order e.user k y)) in
            let w : true ≡ false = sym q ∙ f in cc)
        | inr (inr y) ↦ y
      ]

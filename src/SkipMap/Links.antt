-- ===== src/SkipMap/Links.antt =====
-- One level of the skip list: which nodes a chain of links visits.
use leveldb_rs.Base.{
  ℕ, zero, suc, ◌≤◌, ◌≡◌, refl, ap, sym, ◌∙◌, arith, Option, none, some, List, [], ◌∷◌, ◌++◌, All,
  Option-cases, inl, inr, ◌⊎◌,
}
use leveldb_rs.SkipMap.{at}
use mathlib.Core.Path.{subst, subst⁻¹}

-- The state of a chain at the node `a`, with `p` the link that leads there: a node that has no link
-- at this level is passed by.
abbrev pub LinkedAt : Option (Option ℕ) → Option ℕ → ℕ → (Option ℕ → Type 0) → Type 0
LinkedAt none p a go = go p
LinkedAt (some q) p a go = (p ≡ some a) × go q

-- From the link `p` a chain visits, of the nodes listed, exactly those with a link, in order.
abbrev pub Linked : (ℕ → Option (Option ℕ)) → Option ℕ → List ℕ → Type 0
Linked s p [] = p ≡ none
Linked s p (a ∷ l) = LinkedAt (s a) p a (λ q. Linked s q l)

abbrev pub Short : (ℕ → Option (Option ℕ)) → List ℕ → Type 0
Short s l = All (λ a. s a ≡ none) l

-- A vector that has an index has every smaller one.
pub at-below :
    {A : Type 0} (xs : List A) (i j : ℕ) (x : A)
    → j ≤ i
    → at xs i ≡ some x
    → (y : A) × (at xs j ≡ some y)
at-below [] i j x h e = cc
at-below (x' ∷ xs) zero zero x h e = (x', refl)
at-below (x' ∷ xs) zero (suc j) x h e = absurd (omega arith)
at-below (x' ∷ xs) (suc i) zero x h e = (x', refl)
at-below (x' ∷ xs) (suc i) (suc j) x h e = at-below xs i j x (omega arith) e

module _ (s : ℕ → Option (Option ℕ)) where
  -- Opening a chain at a node, by what the node has at the level.
  pub Linked-short :
      (a : ℕ) (l : List ℕ) (p : Option ℕ) → s a ≡ none → Linked s p (a ∷ l) → Linked s p l
  Linked-short a l p e k = subst (λ t. LinkedAt t p a (λ q. Linked s q l)) e k

  pub Linked-tall :
      (a : ℕ) (l : List ℕ) (p q : Option ℕ)
      → s a ≡ some q
      → Linked s p (a ∷ l)
      → (p ≡ some a) × Linked s q l
  Linked-tall a l p q e k = subst (λ t. LinkedAt t p a (λ q. Linked s q l)) e k

  pub short-Linked :
      (a : ℕ) (l : List ℕ) (p : Option ℕ) → s a ≡ none → Linked s p l → Linked s p (a ∷ l)
  short-Linked a l p e k = subst⁻¹ (λ t. LinkedAt t p a (λ q. Linked s q l)) e k

  pub tall-Linked :
      (a : ℕ) (l : List ℕ) (p q : Option ℕ)
      → s a ≡ some q
      → p ≡ some a
      → Linked s q l
      → Linked s p (a ∷ l)
  tall-Linked a l p q e h k = subst⁻¹ (λ t. LinkedAt t p a (λ q. Linked s q l)) e (h, k)

  pub Linked-drop : (m r : List ℕ) (p : Option ℕ) → Short s m → Linked s p (m ++ r) → Linked s p r
  Linked-drop [] r p h k = k
  Linked-drop (a ∷ m) r p h k = Linked-drop m r p h.1 (Linked-short a (m ++ r) p h.0 k)

  pub drop-Linked : (m r : List ℕ) (p : Option ℕ) → Short s m → Linked s p r → Linked s p (m ++ r)
  drop-Linked [] r p h k = k
  drop-Linked (a ∷ m) r p h k = short-Linked a (m ++ r) p h.0 (drop-Linked m r p h.1 k)

  -- The chain behind a node that it visits.
  pub Linked-behind :
      (m r : List ℕ) (a : ℕ) (p q : Option ℕ)
      → s a ≡ some q
      → Linked s p (m ++ a ∷ r)
      → Linked s q r
  Linked-behind [] r a p q e k = (Linked-tall a r p q e k).1
  Linked-behind (b ∷ m) r a p q e k = elim (Option-cases (s b)) [
    | inl f ↦ Linked-behind m r a p q e (Linked-short b (m ++ a ∷ r) p f k)
    | inr (q', f) ↦ Linked-behind m r a q' q e (Linked-tall b (m ++ a ∷ r) p q' f k).1
  ]

  pub none-Short : (l : List ℕ) → Linked s none l → Short s l
  none-Short [] k = tt
  none-Short (a ∷ l) k = elim (Option-cases (s a)) [
    | inl f ↦ (f, none-Short l (Linked-short a l none f k))
    | inr (q, f) ↦ absurd (let h = (Linked-tall a l none q f k).0 in cc)
  ]

  -- A link leads to a node of the first part, past short ones, or past the first part.
  pub find_link :
      (m r : List ℕ) (n : ℕ)
      → Linked s (some n) (m ++ r)
      → ((m1 : List ℕ) × (m2 : List ℕ) × (q : Option ℕ) × (m ≡ m1 ++ n ∷ m2)
          × Short s m1
          × (s n ≡ some q))
        ⊎ (Short s m × Linked s (some n) r)
  find_link [] r n k = inr (tt, k)
  find_link (a ∷ m) r n k = elim (Option-cases (s a)) [
    | inl f ↦ elim (find_link m r n (Linked-short a (m ++ r) (some n) f k)) [
      | inl (m1, m2, q, e, h, t) ↦ inl (a ∷ m1, m2, q, ap (λ l. a ∷ l) e, (f, h), t)
      | inr (h, k') ↦ inr ((f, h), k')
    ]
    | inr (q, f) ↦
        let e : n ≡ a =
          (let h = (Linked-tall a (m ++ r) (some n) q f k).0 in
            ap (λ o. elim o [ none ↦ n | some x ↦ x ]) h) in
        inl ([], m, q, ap (λ x. x ∷ m) (sym e), tt, ap s e ∙ f)
  ]

  -- The node a link leads to, in a list that it must stay in.
  pub find_node :
      (r : List ℕ) (n : ℕ)
      → Linked s (some n) r
      → (c1 : List ℕ) × (c2 : List ℕ) × (r ≡ c1 ++ n ∷ c2) × Short s c1
  find_node [] n k = cc
  find_node (a ∷ r) n k = elim (Option-cases (s a)) [
    | inl f ↦
        let (c1, c2, e, h) = find_node r n (Linked-short a r (some n) f k) in
        (a ∷ c1, c2, ap (λ l. a ∷ l) e, (f, h))
    | inr (q, f) ↦
        let e : n ≡ a =
          (let h = (Linked-tall a r (some n) q f k).0 in
            ap (λ o. elim o [ none ↦ n | some x ↦ x ]) h) in
        ([], r, ap (λ x. x ∷ r) (sym e), tt)
  ]

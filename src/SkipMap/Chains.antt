-- ===== src/SkipMap/Chains.antt =====
-- A chain of links after a node is put into it.
use mathlib.Core.Path.{subst⁻¹}
use leveldb_rs.SkipMap.Order.{All-left, All-right}
use leveldb_rs.SkipMap.{head}
use leveldb_rs.Base.{
  ℕ, ◌≡◌, ◌≢◌, refl, ap, sym, ◌∙◌, Option, none, some, List, [], ◌∷◌, ◌++◌, All, Option-cases, inl,
  inr,
}
use leveldb_rs.SkipMap.Links.{Linked, Short, Linked-short, Linked-tall, short-Linked, tall-Linked}
use leveldb_rs.SkipMap.Search.{last_or}

-- No node stands twice in the list.
abbrev pub Distinct : List ℕ → Type 0
Distinct [] = Unit {0}
Distinct (a ∷ l) = All (λ b. b ≢ a) l × Distinct l

module _ (s s' : ℕ → Option (Option ℕ)) where
  pub Linked-cong :
      (l : List ℕ) (p : Option ℕ) → All (λ a. s' a ≡ s a) l → Linked s p l → Linked s' p l
  Linked-cong [] p h k = k
  Linked-cong (a ∷ l) p h k = elim (Option-cases (s a)) [
    | inl f ↦ short-Linked s' a l p (h.0 ∙ f) (Linked-cong l p h.1 (Linked-short s a l p f k))
    | inr (q, f) ↦
        let t = Linked-tall s a l p q f k in
        tall-Linked s' a l p q (h.0 ∙ f) t.0 (Linked-cong l q h.1 t.1)
  ]

  -- A node without a link on the level changes nothing.
  pub Linked-passed :
      (m r : List ℕ) (new : ℕ) (p : Option ℕ)
      → s' new ≡ none
      → All (λ a. s' a ≡ s a) (m ++ r)
      → Linked s p (m ++ r)
      → Linked s' p (m ++ new ∷ r)
  Linked-passed [] r new p n h k = short-Linked s' new r p n (Linked-cong r p h k)
  Linked-passed (a ∷ m) r new p n h k = elim (Option-cases (s a)) [
    | inl f ↦
        short-Linked s' a (m ++ new ∷ r) p (h.0 ∙ f)
          (Linked-passed m r new p n h.1 (Linked-short s a (m ++ r) p f k))
    | inr (q, f) ↦
        let t = Linked-tall s a (m ++ r) p q f k in
        tall-Linked s' a (m ++ new ∷ r) p q (h.0 ∙ f) t.0 (Linked-passed m r new q n h.1 t.1)
  ]

  -- `c` links to `new`, and `new` to where `c` linked before.
  module _ (c new : ℕ) (q : Option ℕ) (hc : s c ≡ some q) (hc' : s' c ≡ some (some new))
      (hn : s' new ≡ some q) where
    -- From the new link, past nodes without one.
    pub Linked-new :
        (m r : List ℕ)
        → Short s m
        → All (λ a. s' a ≡ s a) (m ++ r)
        → Linked s q (m ++ r)
        → Linked s' (some new) (m ++ new ∷ r)
    Linked-new [] r h e k = tall-Linked s' new r (some new) q hn refl (Linked-cong r q e k)
    Linked-new (a ∷ m) r h e k =
        short-Linked s' a (m ++ new ∷ r) (some new) (e.0 ∙ h.0)
          (Linked-new m r h.1 e.1 (Linked-short s a (m ++ r) q h.0 k))

    -- From the front, where `c` is the last node of `x ∷ b`.
    pub Linked-insert :
        (x : ℕ) (b m r : List ℕ) (p : Option ℕ)
        → c ≡ last_or x b
        → Distinct (x ∷ b)
        → Short s m
        → All (λ a. a ≢ c → s' a ≡ s a) (x ∷ b)
        → All (λ a. s' a ≡ s a) (m ++ r)
        → Linked s p ((x ∷ b) ++ (m ++ r))
        → Linked s' p ((x ∷ b) ++ (m ++ new ∷ r))
    Linked-insert x [] m r p ec d h eb e k =
        let t = Linked-tall s x (m ++ r) p q (ap s (sym ec) ∙ hc) k in
        tall-Linked s' x (m ++ new ∷ r) p (some new) (ap s' (sym ec) ∙ hc') t.0
          (Linked-new m r h e t.1)
    Linked-insert x (y ∷ b) m r p ec d h eb e k =
        let ne : x ≢ c = λ z. last-ne x y b d.0 (z ∙ ec) in
        let same = eb.0 ne in
        elim (Option-cases (s x)) [
          | inl f ↦ short-Linked s' x ((y ∷ b) ++ (m ++ new ∷ r)) p (same ∙ f) (
              Linked-insert y b m r p ec d.1 h eb.1 e
                (Linked-short s x ((y ∷ b) ++ (m ++ r)) p f k))
          | inr (q', f) ↦
              let t = Linked-tall s x ((y ∷ b) ++ (m ++ r)) p q' f k in
              tall-Linked s' x ((y ∷ b) ++ (m ++ new ∷ r)) p q' (same ∙ f) t.0
                (Linked-insert y b m r q' ec d.1 h eb.1 e t.1)
        ]
      where
        last-ne : (x y : ℕ) (b : List ℕ) → All (λ a. a ≢ x) (y ∷ b) → x ≢ last_or y b
        last-ne x y [] h e = h.0 (sym e)
        last-ne x y (z ∷ b) h e = last-ne x z b h.1 e

pub All-map : {P Q : ℕ → Type 0} (l : List ℕ) → ((a : ℕ) → P a → Q a) → All P l → All Q l
All-map [] f h = tt
All-map (a ∷ l) f h = (f a h.0, All-map l f h.1)

All-both : (P Q : ℕ → Type 0) (l : List ℕ) → All P l → All Q l → All (λ a. P a × Q a) l
All-both P Q [] h k = tt
All-both P Q (a ∷ l) h k = ((h.0, k.0), All-both P Q l h.1 k.1)

Distinct-left : (l r : List ℕ) → Distinct (l ++ r) → Distinct l
Distinct-left [] r d = tt
Distinct-left (a ∷ l) r d = (All-left (λ b. b ≢ a) l r d.0, Distinct-left l r d.1)

last_not_behind : (x : ℕ) (b t : List ℕ) → Distinct ((x ∷ b) ++ t) → All (λ a. a ≢ last_or x b) t
last_not_behind x [] t d = d.0
last_not_behind x (y ∷ b) t d = last_not_behind y b t d.1

-- The whole chain from the head, of which `c` is the last node of `before`.
module _ (s s' : ℕ → Option (Option ℕ)) (c new : ℕ) (p p' q : Option ℕ) (before behind r : List ℕ)
    (ec : c ≡ last_or head before) (hc : s c ≡ some q) (hc' : s' c ≡ some (some new))
    (hn : s' new ≡ some q) (same : (a : ℕ) → a ≢ c → a ≢ new → s' a ≡ s a) (hh : s head ≡ some p)
    (hh' : s' head ≡ some p') (d : Distinct ((head ∷ before) ++ (behind ++ r)))
    (old : All (λ a. a ≢ new) ((head ∷ before) ++ (behind ++ r))) (passed : Short s behind) where
  pub chain_insert :
      Linked s p (before ++ (behind ++ r)) → Linked s' p' (before ++ (behind ++ new ∷ r))
  chain_insert k =
      let whole = tall-Linked s head (before ++ (behind ++ r)) (some head) p hh refl k in
      let far =
        subst⁻¹ (λ x. All (λ a. a ≢ x) (behind ++ r)) ec
          (last_not_behind head before (behind ++ r) d) in
      (Linked-tall s' head (before ++ (behind ++ new ∷ r)) (some head) p' hh' (
        Linked-insert s s' c new q hc hc' hn head before behind r (some head) ec
          (Distinct-left (head ∷ before) (behind ++ r) d) passed
          (All-map (head ∷ before) (λ a f g. same a g f)
            (All-left (λ a. a ≢ new) (head ∷ before) (behind ++ r) old))
          (All-map (behind ++ r) (λ a f. same a f.0 f.1)
            (All-both (λ a. a ≢ c) (λ a. a ≢ new) (behind ++ r) far
              (All-right (λ a. a ≢ new) (head ∷ before) (behind ++ r) old)))
          whole)).1

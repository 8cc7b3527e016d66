-- ===== src/SkipMap/Write.antt =====
-- What link_levels and link_next write into the store of nodes.
use leveldb_rs.Base.{Bool-cases, ==_iff, inl, inr}
use leveldb_rs.Base.{
  ℕ, zero, suc, ◌+◌, ◌≤◌, ◌<◌, ◌≡◌, ◌≢◌, refl, ap, sym, ◌∙◌, arith, false, Option, some, List, [],
  ◌∷◌, length, get_or, set, ◌>>=◌, ◌==◌, if◌then◌else◌,
}
use leveldb_rs.SkipMap.{Node, skip_at, at, write_node, link_levels}

pub at-set_same :
    {A : Type 0} (xs : List A) (i : ℕ) (v x : A) → at xs i ≡ some x → at (set xs i v) i ≡ some v
at-set_same [] i v x h = cc
at-set_same (y ∷ xs) zero v x h = refl
at-set_same (y ∷ xs) (suc i) v x h = at-set_same xs i v x h

pub at-set_ne : {A : Type 0} (xs : List A) (i j : ℕ) (v : A) → i ≢ j → at (set xs i v) j ≡ at xs j
at-set_ne [] i j v h = refl
at-set_ne (y ∷ xs) zero zero v h = absurd (h refl)
at-set_ne (y ∷ xs) zero (suc j) v h = refl
at-set_ne (y ∷ xs) (suc i) zero v h = refl
at-set_ne (y ∷ xs) (suc i) (suc j) v h = at-set_ne xs i j v (λ e. h (ap suc e))

==_false : (a b : ℕ) → a ≢ b → (a == b) ≡ false
==_false a b h = ground arith

pub write_same : (node : ℕ → Node) (a : ℕ) (n : Node) → write_node node a n a ≡ n
write_same node a n = ground arith

pub write_ne : (node : ℕ → Node) (a b : ℕ) (n : Node) → b ≢ a → write_node node a n b ≡ node b
write_ne node a b n h = ap (λ t. if t then n else node b) (==_false b a h)

-- What a node holds besides its links to the right.
abbrev pub SameData : Node → Node → Type 0
SameData n n' = (n.key ≡ n'.key) × (n.value ≡ n'.value) × (n.next ≡ n'.next)

-- One level: the new node takes over its predecessor's link, and the predecessor links to it.
pub link_level : ℕ → ℕ → ℕ → Option ℕ → (ℕ → Node) → ℕ → Node
link_level new i prev link node =
    let node1 = write_node node new (record (node new) { skips = set (node new).skips i link }) in
    write_node node1 prev (record (node1 prev) { skips = set (node1 prev).skips i (some new) })

module _ (new i prev : ℕ) (link : Option ℕ) (node : ℕ → Node) (ne : prev ≢ new) where
  abbrev new_node : Node
  new_node = record (node new) { skips = set (node new).skips i link }

  abbrev node1 : ℕ → Node
  node1 = write_node node new new_node

  abbrev prev_node : Node
  prev_node = record (node1 prev) { skips = set (node1 prev).skips i (some new) }

  node1-prev : node1 prev ≡ node prev
  node1-prev = write_ne node new prev new_node ne

  pub link_level-prev :
      skip_at node prev i ≡ some link
      → skip_at (link_level new i prev link node) prev i ≡ some (some new)
  unfolding link_level
  link_level-prev h =
      ap (λ (n : Node). at n.skips i) (write_same node1 prev prev_node)
      ∙ at-set_same (node1 prev).skips i (some new) link
          (ap (λ (n : Node). at n.skips i) node1-prev ∙ h)

  pub link_level-new :
      {x : Option ℕ}
      → skip_at node new i ≡ some x
      → skip_at (link_level new i prev link node) new i ≡ some link
  unfolding link_level
  link_level-new {x} h =
      ap (λ (n : Node). at n.skips i)
        (write_ne node1 prev new prev_node (λ e. ne (sym e)) ∙ write_same node new new_node)
      ∙ at-set_same (node new).skips i link x h

  pub link_level-other : (a : ℕ) → a ≢ prev → a ≢ new → link_level new i prev link node a ≡ node a
  unfolding link_level
  link_level-other a h k = write_ne node1 prev a prev_node h ∙ write_ne node new a new_node k

  pub link_level-levels :
      (a j : ℕ) → i ≢ j → skip_at (link_level new i prev link node) a j ≡ skip_at node a j
  unfolding link_level
  link_level-levels a j h = elim (Bool-cases (a == prev)) [
    | inl e ↦
        let e' : a ≡ prev = (==_iff a prev).0 e in
        ap
          (λ t.
            at
              (if t
                then record (node1 prev) { skips = set (node1 prev).skips i (some new) }
                else node1 a).skips
              j)
          e
        ∙ at-set_ne (node1 prev).skips i j (some new) h
        ∙ ap (λ (n : Node). at n.skips j) (node1-prev ∙ ap node (sym e'))
    | inr e ↦
        ap
          (λ t.
            at
              (if t
                then record (node1 prev) { skips = set (node1 prev).skips i (some new) }
                else node1 a).skips
              j)
          e
        ∙ elim (Bool-cases (a == new)) [
          | inl f ↦
              let f' : a ≡ new = (==_iff a new).0 f in
              ap
                (λ t.
                  at
                    (if t
                      then record (node new) { skips = set (node new).skips i link }
                      else node a).skips
                    j)
                f
              ∙ at-set_ne (node new).skips i j link h
              ∙ ap (λ (x : ℕ). at (node x).skips j) (sym f')
          | inr f ↦
              ap
                (λ t.
                  at
                    (if t
                      then record (node new) { skips = set (node new).skips i link }
                      else node a).skips
                    j)
                f
        ]
  ]

  pub link_level-data : (a : ℕ) → SameData (link_level new i prev link node a) (node a)
  unfolding link_level
  link_level-data a = ground (arith, (==_iff a prev), (==_iff a new))

-- What stands in the store after the levels from `i` on, one for each predecessor, were linked.
pub record AreLinked (new i : ℕ) (prevs : List ℕ) (node node' : ℕ → Node) : Type 0 where
  pub low : (a j : ℕ) → j < i → skip_at node' a j ≡ skip_at node a j
  pub high : (a j : ℕ) → i + length prevs ≤ j → skip_at node' a j ≡ skip_at node a j
  pub at_prev :
      (k j : ℕ)
      → j ≡ i + k
      → k < length prevs
      → skip_at node' (get_or prevs k 0) j ≡ some (some new)
  pub at_new :
      (k j : ℕ)
      → j ≡ i + k
      → k < length prevs
      → skip_at node' new j ≡ skip_at node (get_or prevs k 0) j
  pub at_other :
      (k j a : ℕ)
      → j ≡ i + k
      → k < length prevs
      → a ≢ get_or prevs k 0
      → a ≢ new
      → skip_at node' a j ≡ skip_at node a j
  pub same_data : (a : ℕ) → SameData (node' a) (node a)

abbrev pub CanLink : ℕ → ℕ → List ℕ → (ℕ → Node) → Type 0
CanLink new i prevs node =
    (k j : ℕ)
    → j ≡ i + k
    → k < length prevs
    → (get_or prevs k 0 ≢ new)
      × ((p : Option ℕ) × (skip_at node (get_or prevs k 0) j ≡ some p))
      × ((x : Option ℕ) × (skip_at node new j ≡ some x))

SameData-trans : (a b c : Node) → SameData a b → SameData b c → SameData a c
SameData-trans a b c h k = (h.0 ∙ k.0, h.1 ∙ k.1, h.2 ∙ k.2)

module _ (new i prev : ℕ) (prevs : List ℕ) (p x : Option ℕ) (node node' : ℕ → Node)
    (ne : prev ≢ new) (ep : skip_at node prev i ≡ some p) (ex : skip_at node new i ≡ some x)
    (r : AreLinked new (i + 1) prevs (link_level new i prev p node) node') where
  at_prev-cons :
      (k j : ℕ)
      → j ≡ i + k
      → k < suc (length prevs)
      → skip_at node' (get_or (prev ∷ prevs) k 0) j ≡ some (some new)
  at_prev-cons zero j e l =
      let e' : j ≡ i = omega arith in
      ap (λ t. skip_at node' prev t) e'
      ∙ r.low prev i (omega arith)
      ∙ link_level-prev new i prev p node ne ep
  at_prev-cons (suc k) j e l = r.at_prev k j (omega arith) (omega arith)

  at_new-cons :
      (k j : ℕ)
      → j ≡ i + k
      → k < suc (length prevs)
      → skip_at node' new j ≡ skip_at node (get_or (prev ∷ prevs) k 0) j
  at_new-cons zero j e l =
      let e' : j ≡ i = omega arith in
      ap (λ t. skip_at node' new t) e'
      ∙ r.low new i (omega arith)
      ∙ link_level-new new i prev p node ne ex
      ∙ sym ep
      ∙ ap (λ t. skip_at node prev t) (sym e')
  at_new-cons (suc k) j e l =
      r.at_new k j (omega arith) (omega arith)
      ∙ link_level-levels new i prev p node ne (get_or prevs k 0) j (λ z. absurd (omega arith))

  at_other-cons :
      (k j a : ℕ)
      → j ≡ i + k
      → k < suc (length prevs)
      → a ≢ get_or (prev ∷ prevs) k 0
      → a ≢ new
      → skip_at node' a j ≡ skip_at node a j
  at_other-cons zero j a e l y z =
      let e' : j ≡ i = omega arith in
      ap (λ t. skip_at node' a t) e'
      ∙ r.low a i (omega arith)
      ∙ ap (λ (n : Node). at n.skips i) (link_level-other new i prev p node ne a y z)
      ∙ ap (λ t. skip_at node a t) (sym e')
  at_other-cons (suc k) j a e l y z =
      r.at_other k j a (omega arith) (omega arith) y z
      ∙ link_level-levels new i prev p node ne a j (λ w. absurd (omega arith))

pub link_levels-AreLinked :
    (new i : ℕ) (prevs : List ℕ) (node : ℕ → Node)
    → CanLink new i prevs node
    → (node' : ℕ → Node) × (link_levels new i prevs node ≡ some node')
      × AreLinked new i prevs node node'
unfolding link_levels link_level
link_levels-AreLinked new i [] node h = (
  node,
  refl,
  record {
    low = λ a j l. refl;
    high = λ a j l. refl;
    at_prev = λ k j e l. absurd (omega arith);
    at_new = λ k j e l. absurd (omega arith);
    at_other = λ k j a e l x y. absurd (omega arith);
    same_data = λ a. (refl, refl, refl);
  },
)
link_levels-AreLinked new i (prev ∷ prevs) node h =
    let (ne, (p, ep), (x, ex)) = h 0 i (omega arith) (omega arith) in
    let node2 = link_level new i prev p node in
    let h2 : CanLink new (i + 1) prevs node2 = λ k j e l.
      (let (ne', (p', ep'), (x', ex')) = h (suc k) j (omega arith) (omega arith) in
        let n : i ≢ j = λ z. absurd (omega arith) in
        (
          ne',
          (p', link_level-levels new i prev p node ne (get_or prevs k 0) j n ∙ ep'),
          (x', link_level-levels new i prev p node ne new j n ∙ ex'),
        )) in
    let (node', e', r) = link_levels-AreLinked new (i + 1) prevs node2 h2 in
    (
      node',
      rw (link_levels, ep, ◌>>=◌) e',
      record {
        low = λ a j l.
            r.low a j (omega arith)
            ∙ link_level-levels new i prev p node ne a j (λ z. absurd (omega arith));
        high = λ a j l.
            r.high a j (omega arith)
            ∙ link_level-levels new i prev p node ne a j (λ z. absurd (omega arith));
        at_prev = at_prev-cons new i prev prevs p x node node' ne ep ex r;
        at_new = at_new-cons new i prev prevs p x node node' ne ep ex r;
        at_other = at_other-cons new i prev prevs p x node node' ne ep ex r;
        same_data = λ a.
            SameData-trans (node' a) (node2 a) (node a) (r.same_data a)
              (link_level-data new i prev p node ne a);
      },
    )

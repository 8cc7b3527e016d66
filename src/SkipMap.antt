-- ===== src/SkipMap.antt =====
-- src/skipmap.rs: an ordered map as a skip list. Nodes stand at addresses, of which none is freed
-- while the map lives; a `Box` and a raw pointer are both an address. The head stands at 0.
pub mod Links
pub mod Order
pub mod Search
pub mod Lookup
mod Write
mod Chains
pub mod Predecessors
mod Between
pub mod Height
pub mod Linking
pub mod Insert
mod Tests
use leveldb_rs.Base.{
  ℕ, zero, suc, ◌+◌, ◌-◌, ◌*◌, ◌%◌, Bool, true, false, not, ◌&&◌, Option, none, some, List, [], ◌∷◌,
  length, replicate, get_or, set, ltb, ◌==◌, is_lt, if◌then◌else◌, assert, ◌>>=◌, ◌>>◌, Ordering,
}
use leveldb_rs.Coding.{Bytes}

abbrev pub max_height : ℕ
max_height = 12

abbrev pub branching_factor : ℕ
branching_factor = 4

pub record Node : Type 0 where
  pub skips : List (Option ℕ)
  pub next : Option ℕ
  pub key : Bytes
  pub value : Bytes

abbrev pub head : ℕ
head = 0

-- `R` is the state of the random number generator. Addresses from `fresh` on are free.
pub record SkipMap (R : Type 0) : Type 0 where
  pub node : ℕ → Node
  pub fresh : ℕ
  pub rand : R
  pub len : ℕ
  pub approx_mem : ℕ

-- `v[i]`, or a panic.
abbrev pub at : {A : Type 0} → List A → ℕ → Option A
at [] i = none
at (x ∷ xs) zero = some x
at (x ∷ xs) (suc i) = at xs i

abbrev pub skip_at : (ℕ → Node) → ℕ → ℕ → Option (Option ℕ)
skip_at node a level = at (node a).skips level

abbrev pub write_node : (ℕ → Node) → ℕ → Node → ℕ → Node
write_node node a n b = if b == a then n else node b

abbrev pub is_empty : Bytes → Bool
is_empty [] = true
is_empty (b ∷ bs) = false

-- `a.starts_with(b)`.
unfoldable pub starts_with : Bytes → Bytes → Bool
starts_with xs [] = true
starts_with [] (y ∷ ys) = false
starts_with (x ∷ xs) (y ∷ ys) = x == y && starts_with xs ys

abbrev pub head_node : Node
head_node = record { skips = replicate max_height none; next = none; key = []; value = [] }

-- What a search loop answers: the node that it returns at once, or the node where it stops.
pub data SearchEnd : Type 0 where
  returned : ℕ → SearchEnd
  stopped : ℕ → SearchEnd

-- The end of a round: the loop ends at level 0, or goes on one level down.
abbrev pub below : {A : Type 0} → ℕ → A → (ℕ → A) → A
below zero stop go = stop
below (suc l) stop go = go l

module _ {R : Type 0} where
  -- `base` is the memory that the map itself takes.
  unfoldable pub new : R → ℕ → SkipMap R
  new seed base = record {
    node = λ a. head_node;
    fresh = 1;
    rand = seed;
    len = 0;
    approx_mem = base;
  }

  -- Rounds enough for every node and every level.
  abbrev pub fuel_for : SkipMap R → ℕ
  fuel_for sm = sm.len + max_height

  module _ (cmp : Bytes → Bytes → Option Ordering) (sm : SkipMap R) (key : Bytes) where
    -- The loop of get_greater_or_equal. Every round moves on or goes down a level.
    unfoldable pub ge_loop : ℕ → ℕ → ℕ → Option SearchEnd
    ge_loop zero current level = none
    ge_loop (suc fuel) current level = do
      link ← skip_at sm.node current level
      let down = below level (some (stopped current)) (λ l. ge_loop fuel current l)
      elim link [
        | none ↦ down
        | some next ↦ do
          ord ← cmp (sm.node next).key key
          elim ord [
            | Ordering.lt ↦ ge_loop fuel next level
            | Ordering.eq ↦ some (returned next)
            | Ordering.gt ↦ if level == 0 then some (returned next) else down
          ]
      ]

    unfoldable pub get_greater_or_equal : Option (Option ℕ)
    get_greater_or_equal = do
      found ← ge_loop (fuel_for sm) head (max_height - 1)
      elim found [
        | returned n ↦ some (some n)
        | stopped current ↦ elim (current == head) [
          | true ↦ some none
          | false ↦ do
            ord ← cmp (sm.node current).key key
            some (if is_lt ord then none else some current)
        ]
      ]

    -- The loop of get_next_smaller, and of insert but for its bookkeeping.
    unfoldable pub smaller_loop : ℕ → ℕ → ℕ → Option ℕ
    smaller_loop zero current level = none
    smaller_loop (suc fuel) current level = do
      link ← skip_at sm.node current level
      let down = below level (some current) (λ l. smaller_loop fuel current l)
      elim link [
        | none ↦ down
        | some next ↦ do
          ord ← cmp (sm.node next).key key
          elim (is_lt ord) [ true ↦ smaller_loop fuel next level | false ↦ down ]
      ]

    unfoldable pub get_next_smaller : Option (Option ℕ)
    get_next_smaller = do
      current ← smaller_loop (fuel_for sm) head (max_height - 1)
      elim (current == head) [
        | true ↦ some none
        | false ↦ do
          ord ← cmp (sm.node current).key key
          some (if is_lt ord then some current else none)
      ]

    unfoldable pub contains : Option Bool
    contains = do
      found ← get_greater_or_equal
      some (elim found [ none ↦ false | some n ↦ starts_with (sm.node n).key key ])

    -- The loop of insert: `prevs` is the slice of the new node's height, all of it set to the head
    -- before. An equal key is refused by the assertion.
    unfoldable pub insert_loop : ℕ → ℕ → ℕ → List ℕ → Option (ℕ × List ℕ)
    insert_loop zero current level prevs = none
    insert_loop (suc fuel) current level prevs = do
      link ← skip_at sm.node current level
      let prevs' = if ltb level (length prevs) then set prevs level current else prevs
      let down = below level (some (current, prevs')) (λ l. insert_loop fuel current l prevs')
      elim link [
        | none ↦ down
        | some next ↦ do
          ord ← cmp (sm.node next).key key
          elim ord [
            | Ordering.lt ↦ insert_loop fuel next level prevs
            | Ordering.eq ↦ none
            | Ordering.gt ↦ down
          ]
      ]

  -- `while height < MAX_HEIGHT && self.rand.next_u32() % BRANCHING_FACTOR == 0`, over a generator.
  module _ (next_u32 : R → ℕ × R) where
    unfoldable pub grow : ℕ → ℕ → R → ℕ × R
    grow zero height rand = (height, rand)
    grow (suc fuel) height rand = elim (ltb height max_height) [
      | false ↦ (height, rand)
      | true ↦
          let (n, rand') = next_u32 rand in
          elim (n % branching_factor == 0) [
            | true ↦ grow fuel (height + 1) rand'
            | false ↦ (height, rand')
          ]
    ]

    unfoldable pub random_height : R → ℕ × R
    random_height rand = grow max_height 1 rand

-- `for i in 0..new_height`: the new node's link takes over its predecessor's.
unfoldable pub link_levels : ℕ → ℕ → List ℕ → (ℕ → Node) → Option (ℕ → Node)
link_levels new i [] node = some node
link_levels new i (prev ∷ prevs) node = do
  link ← skip_at node prev i
  let node1 = write_node node new (record (node new) { skips = set (node new).skips i link })
  let node2 =
      write_node node1 prev (record (node1 prev) { skips = set (node1 prev).skips i (some new) })
  link_levels new (i + 1) prevs node2

-- The `next` links around the new node.
unfoldable pub link_next : ℕ → ℕ → (ℕ → Node) → ℕ → Node
link_next new current node =
    let node1 = write_node node new (record (node new) { next = (node current).next }) in
    write_node node1 current (record (node1 current) { next = some new })

module _ {R : Type 0} (next_u32 : R → ℕ × R) (cmp : Bytes → Bytes → Option Ordering)
    (node_size link_size : ℕ) where
  unfoldable pub insert : SkipMap R → Bytes → Bytes → Option (SkipMap R)
  insert sm key val = do
    assert (not (is_empty key))
    let (new_height, rand) = random_height next_u32 sm.rand
    (current, prevs) ←
        insert_loop cmp sm key (fuel_for sm) head (max_height - 1) (replicate new_height head)
    let new = sm.fresh
    let fresh_node : Node = record {
      skips = replicate new_height none;
      next = none;
      key = key;
      value = val;
    }
    linked ← link_levels new 0 prevs (write_node sm.node new fresh_node)
    some (record {
      node = link_next new current linked;
      fresh = sm.fresh + 1;
      rand = rand;
      len = sm.len + 1;
      approx_mem = sm.approx_mem + (node_size + link_size * new_height + length key + length val);
    })

-- The iterator is the address `current`.
abbrev pub valid : ℕ → Bool
valid it = not (it == head)

-- `SkipMapIter::reset`: the head.
abbrev pub reset : ℕ
reset = head

module _ {R : Type 0} (sm : SkipMap R) where
  unfoldable pub advance : ℕ → ℕ × Bool
  advance current = elim ((sm.node current).next) [ some n ↦ (n, true) | none ↦ (reset, false) ]

  unfoldable pub current : ℕ → Option (Bytes × Bytes)
  current it = if valid it then some ((sm.node it).key, (sm.node it).value) else none

  module _ (cmp : Bytes → Bytes → Option Ordering) where
    unfoldable pub seek : Bytes → Option ℕ
    seek key = do
      found ← get_greater_or_equal cmp sm key
      some (elim found [ some n ↦ n | none ↦ head ])

    -- The source leaves the iterator at a predecessor without a key only to reset it.
    unfoldable pub prev : ℕ → Option (ℕ × Bool)
    prev it = elim (valid it) [
      | false ↦ some (reset, false)
      | true ↦ do
        found ← get_next_smaller cmp sm (sm.node it).key
        some (elim found [
          | none ↦ (reset, false)
          | some p ↦ if is_empty (sm.node p).key then (reset, false) else (p, true)
        ])
    ]

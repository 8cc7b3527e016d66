-- ===== src/SkipMap/Insert.antt =====
-- The skip list of src/skipmap.rs as an ordered map: the empty map, insert, and where a key splits it.
use leveldb_rs.Base.{
  ℕ, ◌+◌, ◌*◌, ◌≡◌, refl, ap, sym, ◌∙◌, arith, false, Option, none, some, List, [], ◌∷◌, ◌++◌, All,
  length, Ordering, Ordering-cases, inl, inr, ◌>>=◌,
}
use leveldb_rs.Coding.{Bytes}
use leveldb_rs.SkipMap.{Node, SkipMap, is_empty, random_height, new, insert}
use leveldb_rs.SkipMap.Order.{IsOrder, IsSorted, HasKey, IsBelow, NotBelow, HasNodes}
use leveldb_rs.SkipMap.Predecessors.{IsAbove}
use leveldb_rs.SkipMap.Between.{at-replicate}
use leveldb_rs.SkipMap.Linking.{
  entries, search, can_link, store, result, result-HasNodes, result-IsSorted, result-entries,
}
use leveldb_rs.SkipMap.Write.{link_levels-AreLinked}
use leveldb_rs.SkipMap.Height.{random_height-bounds}

-- The map has the nodes `l`, linked on every level, with keys that ascend strictly.
pub record IsMap {R : Type 0} {cmp : Bytes → Bytes → Option Ordering} {IsKey : Bytes → Type 0}
    (o : IsOrder cmp IsKey) (sm : SkipMap R) (l : List ℕ) : Type 0 where
  pub nodes : HasNodes sm l
  pub sorted : IsSorted o sm.node l
  pub keys : All (HasKey o sm.node) l

module _ {cmp : Bytes → Bytes → Option Ordering} {IsKey : Bytes → Type 0}
    (o : IsOrder cmp IsKey) where
  -- Every key splits the nodes into those below it and the rest.
  abbrev pub Split : (ℕ → Node) → Bytes → List ℕ → Type 0
  Split node key l =
      (m : List ℕ) × (r : List ℕ) × (l ≡ m ++ r)
      × All (IsBelow o node key) m
      × All (NotBelow o node key) r

  module _ (node : ℕ → Node) (key : Bytes) (hk : IsKey key) where
    rest-NotBelow :
        (a : ℕ) (l : List ℕ)
        → HasKey o node a
        → All (HasKey o node) l
        → All (λ b. o.order (node a).key (node b).key ≡ Ordering.lt) l
        → NotBelow o node key a
        → All (NotBelow o node key) l
    rest-NotBelow a [] ha hv hs h = tt
    rest-NotBelow a (b ∷ l) ha hv hs h = (
      (λ e. h (o.lt_trans (node a).key (node b).key key ha hv.0 hk hs.0 e)),
      rest-NotBelow a l ha hv.1 hs.1 h,
    )

    pub split : (l : List ℕ) → All (HasKey o node) l → IsSorted o node l → Split node key l
    split [] hv hs = ([], [], refl, tt, tt)
    split (a ∷ l) hv hs =
        let (m, r, e, hm, hr) = split l hv.1 hs.1 in
        elim (Ordering-cases (o.order (node a).key key)) [
          | inl z ↦ (a ∷ m, r, ap (λ t. a ∷ t) e, (z, hm), hr)
          | inr (inl z) ↦
              let nb : NotBelow o node key a =
                λ y. let w : Ordering.lt ≡ Ordering.eq = sym y ∙ z in cc in
              ([], a ∷ l, refl, tt, (nb, rest-NotBelow a l hv.0 hv.1 hs.0 nb))
          | inr (inr z) ↦
              let nb : NotBelow o node key a =
                λ y. let w : Ordering.lt ≡ Ordering.gt = sym y ∙ z in cc in
              ([], a ∷ l, refl, tt, (nb, rest-NotBelow a l hv.0 hv.1 hs.0 nb))
        ]

module _ {R : Type 0} {cmp : Bytes → Bytes → Option Ordering} {IsKey : Bytes → Type 0}
    (o : IsOrder cmp IsKey) where
  -- A new map has no nodes.
  pub new-IsMap : (seed : R) (base : ℕ) → IsMap o (new seed base) []
  unfolding new
  new-IsMap seed base = record {
    nodes = record {
      bottom = tt;
      levels = λ i lt. (none, at-replicate 12 i none lt, refl);
      nexts = refl;
      len_nodes = refl;
      addresses = tt;
      has_fresh = omega arith;
    };
    sorted = tt;
    keys = tt;
  }

  -- Let the comparator order the keys of a map and a key that is not empty and equals none of them.
  -- Whatever heights the generator gives, insert does not panic, puts the key between the nodes below it
  -- and those above it, with its value, keeps the others' keys and values, and the result is a map:
  -- linked on every level, with keys that ascend.
  pub insert-IsMap :
      (next_u32 : R → ℕ × R) (node_size link_size : ℕ) (sm : SkipMap R) (key val : Bytes)
      (m r : List ℕ)
      → IsMap o sm (m ++ r)
      → IsKey key
      → is_empty key ≡ false
      → All (IsBelow o sm.node key) m
      → All (IsAbove o sm.node key) r
      → (sm' : SkipMap R) × (l : List ℕ) × (insert next_u32 cmp node_size link_size sm key val
          ≡ some sm')
        × IsMap o sm' l
        × (entries sm'.node l ≡ entries sm.node m ++ (key, val) ∷ entries sm.node r)
  unfolding insert store result
  insert-IsMap next_u32 node_size link_size sm key val m r h hk hne hm ha =
      let height = (random_height next_u32 sm.rand).0 in
      let rand = (random_height next_u32 sm.rand).1 in
      let bounds = random_height-bounds next_u32 sm.rand in
      let (prevs, e, el, hp) =
        search sm o key val m r h.nodes h.sorted h.keys hk hm ha height bounds.1 in
      let (node1, e1, al) =
        link_levels-AreLinked sm.fresh 0 prevs
          (store sm o key val m r h.nodes h.sorted h.keys hk hm ha height bounds.1)
          (can_link sm o key val m r h.nodes h.sorted h.keys hk hm ha height bounds.1 prevs el
            hp) in
      let mem = sm.approx_mem + (node_size + link_size * height + length key + length val) in
      let srt =
        result-IsSorted sm o key val m r h.nodes h.sorted h.keys hk hm ha height bounds.1 prevs el
          hp node1 al in
      (
        record {
          node =
              result sm o key val m r h.nodes h.sorted h.keys hk hm ha height bounds.1 prevs el hp
                node1 al;
          fresh = sm.fresh + 1;
          rand = rand;
          len = sm.len + 1;
          approx_mem = mem;
        },
        m ++ sm.fresh ∷ r,
        rw (insert, hne, ◌>>=◌, e, ◌>>=◌, e1, ◌>>=◌) refl,
        record {
          nodes =
              result-HasNodes sm o key val m r h.nodes h.sorted h.keys hk hm ha height bounds.1
                prevs el hp node1 al rand mem bounds.0;
          sorted = srt.0;
          keys = srt.1;
        },
        result-entries sm o key val m r h.nodes h.sorted h.keys hk hm ha height bounds.1 prevs el hp
            node1 al,
      )

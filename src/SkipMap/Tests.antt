-- ===== src/SkipMap/Tests.antt =====
-- A map of two nodes, and the theorems at it.
use leveldb_rs.Base.{
  ℕ, zero, suc, ◌+◌, ◌<◌, ◌≡◌, refl, ap, sym, ◌∙◌, arith, true, Option, none, some, List, [], ◌∷◌,
  replicate, Ordering,
}
use leveldb_rs.Coding.{Bytes}
use leveldb_rs.Cmp.{cmp_bytes}
use leveldb_rs.Cmp.Order.{cmp_bytes_refl, eq_of_cmp_bytes, lt_of_cmp_bytes, cmp_bytes_trans}
use leveldb_rs.SkipMap.{
  Node, SkipMap, skip_at, head, max_height, get_greater_or_equal, get_next_smaller, insert,
  random_height, grow, contains, starts_with, ge_loop,
}
use leveldb_rs.SkipMap.Links.{Linked}
use leveldb_rs.SkipMap.Order.{IsOrder}
use leveldb_rs.SkipMap.Between.{at-replicate}
use leveldb_rs.SkipMap.Linking.{entries}
use leveldb_rs.SkipMap.Lookup.{get_greater_or_equal-eq, get_next_smaller-eq}
use leveldb_rs.SkipMap.Insert.{IsMap, insert-IsMap}

abbrev byte_cmp : Bytes → Bytes → Option Ordering
byte_cmp a b = some (cmp_bytes a b)

abbrev byte-IsOrder : IsOrder byte_cmp (λ b. Unit {0})
byte-IsOrder = record {
  order = cmp_bytes;
  cmp_order = λ a b h k. refl;
  order_refl = λ a h. cmp_bytes_refl a;
  lt_trans = λ a b c h h' h'' x y. cmp_bytes_trans a b c x y;
  lt_eq = λ a b c h h' h'' x y. ap (cmp_bytes a) (sym (eq_of_cmp_bytes b c y)) ∙ x;
  lt_of_gt = λ a b h h' x. lt_of_cmp_bytes a b x;
}

-- A generator that counts.
abbrev counting : ℕ → ℕ × ℕ
counting n = (n, n + 1)

abbrev two_nodes : ℕ → Node
two_nodes zero = record {
  skips = some 1 ∷ some 2 ∷ replicate 10 none;
  next = some 1;
  key = [];
  value = [];
}
two_nodes (suc zero) = record { skips = some 2 ∷ []; next = some 2; key = 3 ∷ []; value = 30 ∷ [] }
two_nodes (suc (suc a)) = record { skips = none ∷ none ∷ []; next = none; key = 5 ∷ []; value = [] }

abbrev two : SkipMap ℕ
two = record { node = two_nodes; fresh = 3; rand = 0; len = 2; approx_mem = 0 }

two-IsMap : IsMap byte-IsOrder two (1 ∷ 2 ∷ [])
two-IsMap = record {
  nodes = record {
    bottom = ((λ e. cc), ((λ e. cc), tt));
    levels = levels_of;
    nexts = (refl, (refl, refl));
    len_nodes = refl;
    addresses = ((omega arith, omega arith), ((omega arith, omega arith), tt));
    has_fresh = omega arith;
  };
  sorted = ((refl, tt), (tt, tt));
  keys = (tt, (tt, tt));
}
  where
    levels_of :
        (i : ℕ)
        → i < max_height
        → (p : Option ℕ) × (skip_at two.node head i ≡ some p)
          × Linked (λ a. skip_at two.node a i) p (1 ∷ 2 ∷ [])
    levels_of zero h = (some 1, refl, (refl, (refl, refl)))
    levels_of (suc zero) h = (some 2, refl, (refl, refl))
    levels_of (suc (suc i)) h = (none, at-replicate 10 i none (omega arith), refl)

get_greater_or_equal-eq_example : get_greater_or_equal byte_cmp two (4 ∷ []) ≡ some (some 2)
get_greater_or_equal-eq_example =
    get_greater_or_equal-eq two byte-IsOrder (4 ∷ []) (1 ∷ 2 ∷ []) (1 ∷ []) (2 ∷ []) two-IsMap.nodes
      two-IsMap.sorted two-IsMap.keys tt refl (refl, tt) ((λ e. cc), tt)

get_next_smaller-eq_example : get_next_smaller byte_cmp two (4 ∷ []) ≡ some (some 1)
get_next_smaller-eq_example =
    get_next_smaller-eq two byte-IsOrder (4 ∷ []) (1 ∷ 2 ∷ []) (1 ∷ []) (2 ∷ []) two-IsMap.nodes
      two-IsMap.sorted two-IsMap.keys tt refl (refl, tt) ((λ e. cc), tt)

insert-IsMap_example :
    (sm : SkipMap ℕ) × (l : List ℕ) × (insert counting byte_cmp 56 8 two (4 ∷ []) (40 ∷ [])
      ≡ some sm)
    × IsMap byte-IsOrder sm l
    × (entries sm.node l ≡ (3 ∷ [], 30 ∷ []) ∷ (4 ∷ [], 40 ∷ []) ∷ (5 ∷ [], []) ∷ [])
insert-IsMap_example =
    insert-IsMap byte-IsOrder counting 56 8 two (4 ∷ []) (40 ∷ []) (1 ∷ []) (2 ∷ []) two-IsMap tt
      refl (refl, tt) (refl, tt)

-- The generator's 0 makes the node one higher, the 1 after it ends it.
height_of_zero : random_height counting 0 ≡ (2, 2)
unfolding random_height grow
height_of_zero = refl

-- contains asks for a prefix only: the map has no empty key.
contains_prefix : contains byte_cmp two [] ≡ some true
unfolding contains starts_with get_greater_or_equal ge_loop
contains_prefix = refl

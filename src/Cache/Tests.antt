-- ===== src/Cache/Tests.antt =====
-- The theorems at small lists, and a run with a key that is inserted twice.
use leveldb_rs.Base.{
  ℕ, ◌+◌, ◌≡◌, ◌≤◌, refl, arith, Option, none, some, List, [], ◌∷◌, length, ◌>>=◌,
}
use leveldb_rs.Coding.{Bytes}
use leveldb_rs.Cache.{Cache, new, insert, count, lookup, erase, make_room}
use leveldb_rs.Cache.Lru
use leveldb_rs.Cache.Lru.{LruNode, LruList, head, remove_last, remove, set_next, set_prev}
use leveldb_rs.Cache.Order.{IsLru, insert-IsLru, new-IsLru}
use leveldb_rs.Cache.Removal.{remove_last-remove}
use leveldb_rs.Cache.Bound.{IsCache, Evicted, new-IsCache, insert-IsCache}

abbrev empty : LruList ℕ
empty = Lru.new

abbrev one :
    (l : LruList ℕ) × (Lru.insert empty 7 ≡ some (empty.fresh, l)) × IsLru l ((empty.fresh, 7) ∷ [])
one = insert-IsLru empty 7 [] new-IsLru

abbrev two :
    (l : LruList ℕ) × (Lru.insert one.0 8 ≡ some (one.0.fresh, l))
    × IsLru l ((one.0.fresh, 8) ∷ (empty.fresh, 7) ∷ [])
two = insert-IsLru one.0 8 ((empty.fresh, 7) ∷ []) one.2

remove_last-remove_example :
    (l : LruList ℕ) × (top : LruNode ℕ) × (remove two.0 empty.fresh ≡ some (7, l))
    × (l.node empty.fresh ≡ none)
    × (l.node head ≡ some top)
    × (top.prev ≡ some empty.fresh)
    × (l.count ≡ 1)
    × (remove_last l ≡ none)
remove_last-remove_example = remove_last-remove two.0 (one.0.fresh, 8) [] (empty.fresh, 7) two.2

abbrev fresh_cache : (c : Cache ℕ) × (new 1 ≡ some c) × IsCache c []
fresh_cache = new-IsCache 1 (omega arith)

insert-IsCache_example :
    (c : Cache ℕ) × (h : ℕ) × (u : List (ℕ × Bytes)) × (insert fresh_cache.0 (5 ∷ []) 50 ≡ some c)
    × IsCache c ((h, 5 ∷ []) ∷ u)
    × Evicted fresh_cache.0.cap [] u c.map
    × (lookup (5 ∷ []) c.map ≡ some (record { element = 50; handle = h }))
    × (count c ≤ fresh_cache.0.cap)
insert-IsCache_example = insert-IsCache fresh_cache.0 (5 ∷ []) 50 [] fresh_cache.2 tt

abbrev inserted : Option (Cache ℕ)
inserted = do
  c0 ← new {T = ℕ} 2
  c1 ← insert c0 (1 ∷ []) 10
  c2 ← insert c1 (1 ∷ []) 11
  insert c2 (2 ∷ []) 20

-- A key that is inserted twice has two nodes. The older one, when it has to go, takes the live entry with
-- it, and the next insertion fails the assertion that the map has the removed key.
inserted_twice :
    ((inserted >>= λ c. some (count c + length c.map)) ≡ some 3)
    × ((inserted >>= λ c. insert c (3 ∷ []) 30) ≡ none)
unfolding new insert count make_room lookup erase Lru.new Lru.insert remove_last set_next set_prev
inserted_twice = (refl, refl)

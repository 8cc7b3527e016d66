-- ===== src/Cache.antt =====
-- src/cache.rs: a map with a list of its keys in the order of their use. The list's nodes stand at
-- addresses, the head at 0; a `Box` and a raw pointer are both an address. An address that holds no
-- node was freed or never given out, and a read through it is a panic here.
pub mod Lru
pub mod Keys
pub mod Bound
pub mod Order
pub mod Removal
mod Tests
use leveldb_rs.Base.{
  ℕ, ◌+◌, ◌-◌, Bool, true, false, not, Option, none, some, List, [], ◌∷◌, ltb, leb, ◌==◌,
  if◌then◌else◌, assert, checked_sub, ◌>>=◌, ◌>>◌,
}
use leveldb_rs.Coding.{Bytes}
use leveldb_rs.Cmp.{bytes_eq}
use leveldb_rs.Cache.Lru
use leveldb_rs.Cache.Lru.{LruList, remove_last, reinsert_front}

pub record CacheEntry (T : Type 0) : Type 0 where
  pub element : T
  pub handle : ℕ

-- The map is the list of its keys and entries.
pub record Cache (T : Type 0) : Type 0 where
  pub list : LruList Bytes
  pub map : List (Bytes × CacheEntry T)
  pub cap : ℕ
  pub id : ℕ

module _ {T : Type 0} where
  unfoldable pub new : ℕ → Option (Cache T)
  new capacity = do
    assert (ltb 0 capacity)
    some (record { list = Lru.new; map = []; cap = capacity; id = 0 })

  -- The id stays below 2^64, or the addition panics.
  unfoldable pub new_cache_id : Cache T → Option (ℕ × Cache T)
  new_cache_id c = do
    assert (ltb (c.id + 1) 18446744073709551616)
    some (c.id + 1, record c { id = c.id + 1 })

  unfoldable pub count : Cache T → ℕ
  count c = c.list.count

  unfoldable pub lookup : Bytes → List (Bytes × CacheEntry T) → Option (CacheEntry T)
  lookup key [] = none
  lookup key (e ∷ map) = let rest = lookup key map in if bytes_eq key e.0 then some e.1 else rest

  unfoldable pub erase : Bytes → List (Bytes × CacheEntry T) → List (Bytes × CacheEntry T)
  erase key [] = []
  erase key (e ∷ map) = let rest = erase key map in if bytes_eq key e.0 then rest else e ∷ rest

  -- The least recently used key leaves the list and the map.
  unfoldable pub make_room : Cache T → Option (Cache T)
  make_room c = elim (leb c.cap c.list.count) [
    | false ↦ some c
    | true ↦ do
      (removed, list) ← remove_last c.list
      removed_key ← removed
      _ ← lookup removed_key c.map
      some (record c { list = list; map = erase removed_key c.map })
  ]

  unfoldable pub insert : Cache T → Bytes → T → Option (Cache T)
  insert c key elem = do
    c' ← make_room c
    (lru_handle, list) ← Lru.insert c'.list key
    let entry : CacheEntry T = record { element = elem; handle = lru_handle }
    some (record c' { list = list; map = (key, entry) ∷ erase key c'.map })

  -- The inner `none` is the answer that the key is not there.
  unfoldable pub get : Cache T → Bytes → Option (Option T × Cache T)
  get c key = elim (lookup key c.map) [
    | none ↦ some (none, c)
    | some e ↦ do
      list ← reinsert_front c.list e.handle
      some (some e.element, record c { list = list })
  ]

  unfoldable pub remove : Cache T → Bytes → Option (Option T × Cache T)
  remove c key = elim (lookup key c.map) [
    | none ↦ some (none, c)
    | some e ↦ do
      (_, list) ← Lru.remove c.list e.handle
      some (some e.element, record c { list = list; map = erase key c.map })
  ]

-- ===== src/Cache/Bound.antt =====
-- insert of src/cache.rs: the list and the map stay in step, and the capacity is kept.
use leveldb_rs.Base.{
  ℕ, ◌⊎◌, ◌++◌, none, ◌≤◌, ◌<◌, ◌≡◌, ◌≢◌, refl, ap, sym, ◌∙◌, arith, true, some, List, [], ◌∷◌, All,
  length, length-append, leb, ltb, if◌then◌else◌, ◌>>=◌, ◌>>◌, Bool-cases, inl, inr,
}
use leveldb_rs.Coding.{Bytes}
use leveldb_rs.Cmp.{bytes_eq}
use leveldb_rs.Cmp.Order.{bytes_eq_iff}
use leveldb_rs.Cache.{Cache, CacheEntry, lookup, erase, make_room, count, insert, new}
use leveldb_rs.Cache.Lru
use leveldb_rs.Cache.Lru.{remove_last}
use leveldb_rs.Cache.Order.{IsLru, insert-IsLru, new-IsLru}
use leveldb_rs.Cache.Removal.{All_front, All_back, remove_last-IsLru}
use leveldb_rs.Cache.Keys.{bytes_ne, bytes_same, KeysApart, snoc, KeysApart-front}
use mathlib.Core.Path.{subst}

module _ {T : Type 0} where
  lookup-skip :
      (k : Bytes) (e : Bytes × CacheEntry T) (map : List (Bytes × CacheEntry T))
      → k ≢ e.0
      → lookup k (e ∷ map) ≡ lookup k map
  unfolding lookup
  lookup-skip k e map h = ap (λ b. if b then some e.1 else lookup k map) (bytes_ne k e.0 h)

  lookup-here :
      (k : Bytes) (v : CacheEntry T) (map : List (Bytes × CacheEntry T))
      → lookup k ((k, v) ∷ map) ≡ some v
  unfolding lookup
  lookup-here k v map = ap (λ b. if b then some v else lookup k map) (bytes_same k)

  lookup-same :
      (k : Bytes) (e : Bytes × CacheEntry T) (map map' : List (Bytes × CacheEntry T))
      → lookup k map ≡ lookup k map'
      → lookup k (e ∷ map) ≡ lookup k (e ∷ map')
  unfolding lookup
  lookup-same k e map map' h = ap (λ r. if bytes_eq k e.0 then some e.1 else r) h

  lookup-erase :
      (k k' : Bytes) (map : List (Bytes × CacheEntry T))
      → k ≢ k'
      → lookup k (erase k' map) ≡ lookup k map
  unfolding erase
  lookup-erase k k' [] h = refl
  lookup-erase k k' (e ∷ map) h = elim (Bool-cases (bytes_eq k' e.0)) [
    | inl z ↦
        let ne : k ≢ e.0 = λ y. h (y ∙ sym ((bytes_eq_iff k' e.0).0 z)) in
        ap (λ b. lookup k (if b then erase k' map else e ∷ erase k' map)) z
        ∙ lookup-erase k k' map h
        ∙ sym (lookup-skip k e map ne)
    | inr z ↦
        ap (λ b. lookup k (if b then erase k' map else e ∷ erase k' map)) z
        ∙ lookup-same k e (erase k' map) map (lookup-erase k k' map h)
  ]

  -- Every key of the list has its entry in the map, with the address of its node.
  abbrev pub HasEntry : List (Bytes × CacheEntry T) → ℕ × Bytes → Type 0
  HasEntry map e = (v : T) × (lookup e.1 map ≡ some (record { element = v; handle = e.0 }))

  -- The cache holds the keys `t`, the most recently used first.
  pub record IsCache (c : Cache T) (t : List (ℕ × Bytes)) : Type 0 where
    pub is_lru : IsLru c.list t
    pub in_map : All (HasEntry c.map) t
    pub keys_apart : KeysApart t
    pub within : length t ≤ c.cap
    pub has_cap : 0 < c.cap

  HasEntry-erase :
      (k : Bytes) (map : List (Bytes × CacheEntry T)) (t : List (ℕ × Bytes))
      → All (λ e. e.1 ≢ k) t
      → All (HasEntry map) t
      → All (HasEntry (erase k map)) t
  HasEntry-erase k map [] n h = tt
  HasEntry-erase k map (e ∷ t) n h =
      ((h.0.0, lookup-erase e.1 k map n.0 ∙ h.0.1), HasEntry-erase k map t n.1 h.1)

  HasEntry-skip :
      (e : Bytes × CacheEntry T) (map : List (Bytes × CacheEntry T)) (t : List (ℕ × Bytes))
      → All (λ f. f.1 ≢ e.0) t
      → All (HasEntry map) t
      → All (HasEntry (e ∷ map)) t
  HasEntry-skip e map [] n h = tt
  HasEntry-skip e map (f ∷ t) n h =
      ((h.0.0, lookup-skip f.1 e map n.0 ∙ h.0.1), HasEntry-skip e map t n.1 h.1)

  lookup-erase_same :
      (k : Bytes) (map : List (Bytes × CacheEntry T)) → lookup k (erase k map) ≡ none
  unfolding erase lookup
  lookup-erase_same k [] = refl
  lookup-erase_same k (e ∷ map) = elim (Bool-cases (bytes_eq k e.0)) [
    | inl z ↦
        ap (λ b. lookup k (if b then erase k map else e ∷ erase k map)) z ∙ lookup-erase_same k map
    | inr z ↦
        ap (λ b. lookup k (if b then erase k map else e ∷ erase k map)) z
        ∙ ap (λ b. if b then some e.1 else lookup k (erase k map)) z
        ∙ lookup-erase_same k map
  ]

  -- What is left of the keys when there is to be room for one more, and of the map.
  abbrev pub Evicted :
      ℕ → List (ℕ × Bytes) → List (ℕ × Bytes) → List (Bytes × CacheEntry T) → Type 0
  Evicted capacity t u map =
      (t ≡ u)
      ⊎ ((length t ≡ capacity) × ((z : ℕ × Bytes) × (t ≡ u ++ z ∷ []) × (lookup z.1 map ≡ none)))

  evict :
      (c : Cache T) (t : List (ℕ × Bytes))
      → IsCache c t
      → (c' : Cache T) × (u : List (ℕ × Bytes)) × (make_room c ≡ some c')
        × IsCache c' u
        × (length u < c'.cap)
        × Evicted c.cap t u c'.map
        × (c'.cap ≡ c.cap)
  unfolding make_room
  evict c t h = elim (Bool-cases (leb c.cap c.list.count)) [
    | inr f ↦ (c, t, rw (make_room, f) refl, h, ground (arith, f, h.is_lru.counted), inl refl, refl)
    | inl f ↦
        let full : length t ≡ c.cap =
          let le : c.cap ≤ c.list.count = ground (arith, f) in
          omega (arith, h.within, le, h.is_lru.counted) in
        let (u, z, e) = snoc t (omega (arith, full, h.has_cap)) in
        let (list, q, l') = remove_last-IsLru c.list u z (subst (λ l. IsLru c.list l) e h.is_lru) in
        let entries = subst (λ l. All (HasEntry c.map) l) e h.in_map in
        let found = All_back (HasEntry c.map) u z entries in
        let apart = KeysApart-front u z (subst KeysApart e h.keys_apart) in
        (
          record c { list = list; map = erase z.1 c.map },
          u,
          rw (make_room, f, q, ◌>>=◌, found.1, ◌>>=◌) refl,
          record {
            is_lru = l';
            in_map =
                HasEntry-erase z.1 c.map u apart.1 (All_front (HasEntry c.map) u (z ∷ []) entries);
            keys_apart = apart.0;
            within = omega (arith, full, ap length e, length-append u (z ∷ []));
            has_cap = h.has_cap;
          },
          omega (arith, full, ap length e, length-append u (z ∷ [])),
          inr (full, (z, e, lookup-erase_same z.1 c.map)),
          refl,
        )
  ]

  -- In a cache that holds keys of which the new one is none, insert does not fail. A key that
  -- leaves is the last one of a full cache and is gone from the map as well. The
  -- new key is in front and the map has its element, every key of the list has an entry in the map, with the address of its node, and the cache holds no
  -- more than its capacity.
  pub insert-IsCache :
      (c : Cache T) (key : Bytes) (elem : T) (t : List (ℕ × Bytes))
      → IsCache c t
      → All (λ e. e.1 ≢ key) t
      → (c' : Cache T) × (h : ℕ) × (u : List (ℕ × Bytes)) × (insert c key elem ≡ some c')
        × IsCache c' ((h, key) ∷ u)
        × Evicted c.cap t u c'.map
        × (lookup key c'.map ≡ some (record { element = elem; handle = h }))
        × (count c' ≤ c.cap)
  unfolding insert count
  insert-IsCache c key elem t h n =
      let (c1, u, q, h1, room, ev, same) = evict c t h in
      let (list, q', l') = insert-IsLru c1.list key u h1.is_lru in
      let v : CacheEntry T = record { element = elem; handle = c1.list.fresh } in
      let map = (key, v) ∷ erase key c1.map in
      let n' = others t u c1.map ev n in
      let ev' = still t u v c1.map ev n in
      (
        record c1 { list = list; map = map },
        c1.list.fresh,
        u,
        rw (insert, q, ◌>>=◌, q', ◌>>=◌) refl,
        record {
          is_lru = l';
          in_map = (
            (elem, lookup-here key v (erase key c1.map)),
            HasEntry-skip (key, v) (erase key c1.map) u n'
                (HasEntry-erase key c1.map u n' h1.in_map),
          );
          keys_apart = (n', h1.keys_apart);
          within = omega (arith, room);
          has_cap = h1.has_cap;
        },
        ev',
        lookup-here key v (erase key c1.map),
        omega (arith, room, same, l'.counted),
      )
    where
      others :
          (t u : List (ℕ × Bytes)) (map : List (Bytes × CacheEntry T))
          → Evicted c.cap t u map
          → All (λ e. e.1 ≢ key) t
          → All (λ e. e.1 ≢ key) u
      others t u map (inl e) n = subst (λ l. All (λ f. f.1 ≢ key) l) e n
      others t u map (inr (_, (z, e, _))) n =
          All_front (λ f. f.1 ≢ key) u (z ∷ []) (subst (λ l. All (λ f. f.1 ≢ key) l) e n)

      still :
          (t u : List (ℕ × Bytes)) (v : CacheEntry T) (map : List (Bytes × CacheEntry T))
          → Evicted c.cap t u map
          → All (λ e. e.1 ≢ key) t
          → Evicted c.cap t u ((key, v) ∷ erase key map)
      still t u v map (inl e) n = inl e
      still t u v map (inr (full, (z, e, gone))) n =
          let other = All_back (λ f. f.1 ≢ key) u z (subst (λ l. All (λ f. f.1 ≢ key) l) e n) in
          inr (
            full,
            (
              z,
              e,
              lookup-skip z.1 (key, v) (erase key map) other
                  ∙ lookup-erase z.1 key map other
                  ∙ gone,
            ),
          )

  -- A new cache of a capacity that is not 0 holds nothing.
  pub new-IsCache :
      (capacity : ℕ) → 0 < capacity → (c : Cache T) × (new capacity ≡ some c) × IsCache c []
  unfolding new
  new-IsCache capacity h =
      let z : ltb 0 capacity ≡ true = ground (arith, h) in
      (
        record { list = Lru.new; map = []; cap = capacity; id = 0 },
        rw (new, z, ◌>>◌) refl,
        record {
          is_lru = new-IsLru;
          in_map = tt;
          keys_apart = tt;
          within = omega arith;
          has_cap = h;
        },
      )

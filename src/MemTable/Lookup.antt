-- ===== src/MemTable/Lookup.antt =====
-- get of src/memtable.rs answers what a reader is to see.
use leveldb_rs.Base.{
  ℕ, ◌+◌, ◌^◌, ◌<◌, ◌≡◌, refl, ap, sym, ◌∙◌, arith, false, none, some, List, [], ◌∷◌, ◌++◌, All,
  length, Ordering, ◌>>=◌, ◌==◌,
}
use leveldb_rs.Coding.{Bytes, IsU64, IntegerEncoding}
use leveldb_rs.Cmp.{Cmp}
use leveldb_rs.Cmp.Order.{IsTotal}
use leveldb_rs.KeyTypes.{LookupKey, type_value, memtable_key}
use leveldb_rs.KeyTypes
use leveldb_rs.KeyTypes.Formats.{lookup_key, new_full-eq}
use leveldb_rs.KeyTypes.Comparison.{key_order}
use leveldb_rs.SkipMap.{head, seek, get_greater_or_equal}
use leveldb_rs.SkipMap
use leveldb_rs.SkipMap.Order.{All-right}
use leveldb_rs.SkipMap.Search.{first}
use leveldb_rs.SkipMap.Lookup.{get_greater_or_equal-eq}
use leveldb_rs.SkipMap.Insert.{split}
use leveldb_rs.MemTable.{MemTable, get_found, get, wrapped}
use leveldb_rs.MemTable.Keys.{memtable_key-IsOrder}
use leveldb_rs.MemTable.Versions.{
  Entry, version, visible, report, if_same, first_entry, Ascending, visible-append, visible-first,
}
use leveldb_rs.MemTable.Get.{Holds, lookup_IsMemtableKey, get_found-eq}
use leveldb_rs.MemTable.Table.{IsTable, Holds-split, entries_of_nodes, Holds-Ascending}
use mathlib.Core.Path.{subst}

module _ ⦃ie : IntegerEncoding⦄ {R : Type 0} {c : Cmp} (o : IsTotal c) (mt : MemTable R) where
  Ascending-right : (m r : List Entry) → Ascending o (m ++ r) → Ascending o r
  Ascending-right [] r h = h
  Ascending-right (e ∷ m) r h = Ascending-right m r h.1

  -- What get makes of the node that the seek stops at.
  found_first :
      (k : Bytes) (s : ℕ) (r : List ℕ) (er : List Entry)
      → All (λ a. (0 < a) × (a < mt.map.fresh)) r
      → Holds mt.map.node r er
      → seek mt.map (wrapped c) (memtable_key (lookup_key k s type_value))
        ≡ some (elim (first r) [ some n ↦ n | none ↦ head ])
      → get c mt (lookup_key k s type_value) ≡ some (report (if_same k (first_entry er)))
  unfolding get SkipMap.current
  found_first k s [] [] ha h q = rw (get, q, ◌>>=◌) refl
  found_first k s [] (e ∷ er) ha h q = absurd h
  found_first k s (a ∷ r) [] ha h q = absurd h
  found_first k s (a ∷ r) (e ∷ er) ha h q =
      let z : (a == 0) ≡ false = ground (arith, ha.0) in
      let f : get_found (lookup_key k s type_value) (mt.map.node a).key
          ≡ some (report (if_same k (some e))) =
        ap (λ b. get_found (lookup_key k s type_value) b) h.0 ∙ get_found-eq e k s h.1 in
      rw (get, q, ◌>>=◌, SkipMap.current, z) f

  -- Where the seek for a version stops: the nodes behind hold the entries that are not before it.
  pub record SeekEnd (es : List Entry) (k : Bytes) (s : ℕ) : Type 0 where
    pub passed : List Entry
    pub ahead : List Entry
    pub nodes : List ℕ
    pub all : es ≡ passed ++ ahead
    pub before : All (λ e. key_order o (version e) (k, s) ≡ Ordering.lt) passed
    pub not_before : All (λ e. ¬ (key_order o (version e) (k, s) ≡ Ordering.lt)) ahead
    pub addresses : All (λ a. (0 < a) × (a < mt.map.fresh)) nodes
    pub holds : Holds mt.map.node nodes ahead
    pub stops :
        seek mt.map (wrapped c) (memtable_key (lookup_key k s type_value))
        ≡ some (elim (first nodes) [ some n ↦ n | none ↦ head ])

  pub seek_end :
      (es : List Entry) (k : Bytes) (s : ℕ)
      → IsTable o mt es
      → s < 2 ^ 56
      → IsU64 (length k + 8)
      → SeekEnd es k s
  unfolding seek memtable_key
  seek_end es k s t hs hk =
      let key = memtable_key (lookup_key k s type_value) in
      let x = lookup_IsMemtableKey k s hs hk in
      let ko = memtable_key-IsOrder o in
      let (m, r, el, hm, hr) = split ko mt.map.node key x t.nodes t.is_map.keys t.is_map.sorted in
      let (em, er, ee, qm, qr) =
        Holds-split mt.map.node m r es (subst (λ l. Holds mt.map.node l es) el t.holds) in
      let at_first =
        get_greater_or_equal-eq mt.map ko key t.nodes m r t.is_map.nodes t.is_map.sorted
          t.is_map.keys x el hm hr in
      record {
        passed = em;
        ahead = er;
        nodes = r;
        all = ee;
        before = entries_of_nodes mt.map.node o key x (λ y. y ≡ Ordering.lt) m em qm hm;
        not_before = entries_of_nodes mt.map.node o key x (λ y. ¬ (y ≡ Ordering.lt)) r er qr hr;
        addresses =
            All-right (λ a. (0 < a) × (a < mt.map.fresh)) m r
              (subst (λ l. All (λ a. (0 < a) × (a < mt.map.fresh)) l) el t.is_map.nodes.addresses);
        holds = qr;
        stops = rw (seek, at_first, ◌>>=◌) refl;
      }

  -- Let the user comparator be total, let the table hold the entries `es`, and let the sequence number
  -- be below 2^56 and the user key's length plus 8 fit 64 bits. Then get with the lookup key of `k`
  -- and `s` does not panic and answers what the newest version of `k` up to `s` says: its value, or
  -- that it is a deletion, or nothing when there is no such version.
  pub get-eq :
      (es : List Entry) (k : Bytes) (s : ℕ)
      → IsTable o mt es
      → s < 2 ^ 56
      → IsU64 (length k + 8)
      → (KeyTypes.new k s >>= λ key. get c mt key) ≡ some (report (visible k s es))
  unfolding KeyTypes.new
  get-eq es k s t hs hk =
      let f = seek_end es k s t hs hk in
      let asc =
        subst (Ascending o) f.all
          (Holds-Ascending mt.map.node o t.nodes es t.holds t.is_map.sorted) in
      let seen : visible k s es ≡ if_same k (first_entry f.ahead) =
        ap (visible k s) f.all
        ∙ visible-append o k s f.passed f.ahead f.before
        ∙ visible-first o k s f.ahead (Ascending-right f.passed f.ahead asc) f.not_before in
      rw (KeyTypes.new, new_full-eq k s type_value, ◌>>=◌)
        (found_first k s f.nodes f.ahead f.addresses f.holds f.stops
          ∙ ap (λ v. some (report v)) (sym seen))

-- ===== src/MemTable/Add.antt =====
-- add of src/memtable.rs puts an entry among the others.
use leveldb_rs.Base.{
  ℕ, ◌≡◌, ◌≢◌, refl, some, List, [], ◌∷◌, ◌++◌, All, Ordering, Ordering-cases, inl, inr, ◌>>=◌,
}
use leveldb_rs.Coding.{IntegerEncoding}
use leveldb_rs.Cmp.{Cmp}
use leveldb_rs.Cmp.Order.{IsTotal}
use leveldb_rs.KeyTypes.Formats.{build_memtable_key-eq}
use leveldb_rs.KeyTypes.Comparison.{key_order, key_order-IsTotal}
use leveldb_rs.SkipMap.Order.{All-right}
use leveldb_rs.SkipMap.Linking.{entries}
use leveldb_rs.SkipMap.Insert.{IsMap, split, insert-IsMap, new-IsMap}
use leveldb_rs.MemTable.{MemTable, add, new}
use leveldb_rs.MemTable.Keys.{memtable_key-IsOrder}
use leveldb_rs.MemTable.Versions.{Entry, version}
use leveldb_rs.MemTable.Get.{mbytes, EntryFits, Holds, entry_key}
use leveldb_rs.MemTable.Table.{
  IsTable, Holds-split, entries_of_nodes, nodes_of_entries, KeysHold, Holds-KeysHold,
  KeysHold-Holds, KeysHold-append, KeysHold-cons, mbytes-not_empty,
}
use mathlib.Core.Path.{subst, subst⁻¹}

module _ {c : Cmp} (o : IsTotal c) (e : Entry) where
  -- Entries not below a version that none of them has are above it.
  rest_above :
      (er : List Entry)
      → All (λ e'. ¬ (key_order o (version e') (version e) ≡ Ordering.lt)) er
      → All (λ e'. version e' ≢ version e) er
      → All (λ e'. key_order o (version e') (version e) ≡ Ordering.gt) er
  rest_above [] h n = tt
  rest_above (e' ∷ er) h n = (
    elim (Ordering-cases (key_order o (version e') (version e))) [
      | inl z ↦ absurd (h.0 z)
      | inr (inl z) ↦ absurd (n.0 ((key_order-IsTotal o (version e') (version e) (version e)).1 z))
      | inr (inr z) ↦ z
    ],
    rest_above er h.1 n.1,
  )

module _ ⦃ie : IntegerEncoding⦄ {R : Type 0} {c : Cmp} (o : IsTotal c) where
  -- A new table holds no entries.
  pub new-IsTable : (seed : R) (base : ℕ) → IsTable o (new seed base) []
  unfolding new
  new-IsTable seed base = record {
    nodes = [];
    is_map = new-IsMap (memtable_key-IsOrder o) seed base;
    holds = tt;
  }

  -- Let the user comparator be total, let the table hold the entries `es`, and let the new entry have a
  -- sequence number below 2^56, lengths that fit 64 bits, and a user key and a sequence number that
  -- no entry of the table has together. Then add does not panic, whatever the generator answers, and
  -- the new table holds the old entries in their order and the new one between two of them.
  pub add-IsTable :
      (next_u32 : R → ℕ × R) (node_size link_size : ℕ) (mt : MemTable R) (es : List Entry)
      (e : Entry)
      → IsTable o mt es
      → EntryFits e
      → All (λ e'. version e' ≢ version e) es
      → (mt' : MemTable R) × (em : List Entry) × (er : List Entry) × (es ≡ em ++ er)
        × (add next_u32 c node_size link_size mt e.seq e.type e.user e.value ≡ some mt')
        × IsTable o mt' (em ++ e ∷ er)
  unfolding add
  add-IsTable next_u32 node_size link_size mt es e t f n =
      let key = mbytes e in
      let x = entry_key key e refl f in
      let ko = memtable_key-IsOrder o in
      let (m, r, el, hm, hr) = split ko mt.map.node key x t.nodes t.is_map.keys t.is_map.sorted in
      let (em, er, ee, qm, qr) =
        Holds-split mt.map.node m r es (subst (λ l. Holds mt.map.node l es) el t.holds) in
      let rest = entries_of_nodes mt.map.node o key x (λ y. ¬ (y ≡ Ordering.lt)) r er qr hr in
      let other =
        All-right (λ e'. version e' ≢ version e) em er
          (subst (λ l. All (λ e'. version e' ≢ version e) l) ee n) in
      let above =
        nodes_of_entries mt.map.node o key x (λ y. y ≡ Ordering.gt) r er qr
          (rest_above o e er rest other) in
      let (map, l, q, is_map, kept) =
        insert-IsMap ko next_u32 node_size link_size mt.map key [] m r
          (subst (IsMap ko mt.map) el t.is_map) x (mbytes-not_empty e) hm above in
      let held =
        KeysHold-append (entries mt.map.node m) ((key, []) ∷ entries mt.map.node r) em (e ∷ er)
          (Holds-KeysHold mt.map.node m em qm)
          (KeysHold-cons e [] (entries mt.map.node r) er f (Holds-KeysHold mt.map.node r er qr)) in
      (
        record { map = map },
        em,
        er,
        ee,
        rw (add, build_memtable_key-eq e.user e.value e.type e.seq, ◌>>=◌, q, ◌>>=◌) refl,
        record {
          nodes = l;
          is_map = is_map;
          holds =
              KeysHold-Holds map.node l (em ++ e ∷ er)
                (subst⁻¹ (λ b. KeysHold b (em ++ e ∷ er)) kept held);
        },
      )

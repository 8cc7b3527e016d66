-- ===== src/MemTable/Table.antt =====
-- A table of src/memtable.rs holds entries, in the order of their versions: what its skip list says of
-- the nodes, said of the entries.
use leveldb_rs.Base.{
  ℕ, ◌+◌, ◌<◌, ◌≡◌, refl, ap, arith, false, List, [], ◌∷◌, ◌++◌, All, length, length-append,
  Ordering,
}
use leveldb_rs.Coding.{Bytes, IntegerEncoding, encode_var}
use leveldb_rs.Cmp.{Cmp}
use leveldb_rs.Cmp.Order.{IsTotal}
use leveldb_rs.KeyTypes
use leveldb_rs.KeyTypes.Formats.{tag_bytes}
use leveldb_rs.KeyTypes.Comparison.{key_order}
use mathlib.Core.Path.{subst, subst⁻¹}
use leveldb_rs.SkipMap.{Node, is_empty}
use leveldb_rs.SkipMap.Order.{IsSorted}
use leveldb_rs.SkipMap.Linking.{entries}
use leveldb_rs.SkipMap.Insert.{IsMap}
use leveldb_rs.MemTable.{MemTable}
use leveldb_rs.MemTable.Keys.{
  IsMemtableKey, memtable_order, memtable_order-eq, memtable_key-IsOrder,
}
use leveldb_rs.MemTable.Versions.{Entry, version, Ascending}
use leveldb_rs.MemTable.Get.{mbytes, EntryFits, Holds, entry_key}

module _ ⦃ie : IntegerEncoding⦄ where
  -- The table's skip list is a map whose nodes hold the entries, in order.
  pub record IsTable {R : Type 0} {c : Cmp} (o : IsTotal c) (mt : MemTable R) (es : List Entry)
      : Type 0 where
    pub nodes : List ℕ
    pub is_map : IsMap (memtable_key-IsOrder o) mt.map nodes
    pub holds : Holds mt.map.node nodes es

  module _ (node : ℕ → Node) where
    pub Holds-split :
        (m r : List ℕ) (es : List Entry)
        → Holds node (m ++ r) es
        → (em : List Entry) × (er : List Entry) × (es ≡ em ++ er)
          × Holds node m em
          × Holds node r er
    Holds-split [] r es h = ([], es, refl, tt, h)
    Holds-split (a ∷ m) r [] h = absurd h
    Holds-split (a ∷ m) r (e ∷ es) h =
        let (em, er, q, hm, hr) = Holds-split m r es h.2 in
        (e ∷ em, er, ap (λ l. e ∷ l) q, (h.0, h.1, hm), hr)

    module _ {c : Cmp} (o : IsTotal c) (b : Bytes) (x : IsMemtableKey b)
        (P : Ordering → Type 0) where
      -- What holds of the nodes and a key holds of the entries and its version, and back.
      pub entries_of_nodes :
          (l : List ℕ) (es : List Entry)
          → Holds node l es
          → All (λ a. P (memtable_order o (node a).key b)) l
          → All (λ e. P (key_order o (version e) (x.user, x.seq))) es
      entries_of_nodes [] [] h p = tt
      entries_of_nodes [] (e ∷ es) h p = absurd h
      entries_of_nodes (a ∷ l) [] h p = absurd h
      entries_of_nodes (a ∷ l) (e ∷ es) h p = (
        subst P (memtable_order-eq o (node a).key b (entry_key (node a).key e h.0 h.1) x) p.0,
        entries_of_nodes l es h.2 p.1,
      )

      pub nodes_of_entries :
          (l : List ℕ) (es : List Entry)
          → Holds node l es
          → All (λ e. P (key_order o (version e) (x.user, x.seq))) es
          → All (λ a. P (memtable_order o (node a).key b)) l
      nodes_of_entries [] [] h p = tt
      nodes_of_entries [] (e ∷ es) h p = absurd h
      nodes_of_entries (a ∷ l) [] h p = absurd h
      nodes_of_entries (a ∷ l) (e ∷ es) h p = (
        subst⁻¹ P (memtable_order-eq o (node a).key b (entry_key (node a).key e h.0 h.1) x) p.0,
        nodes_of_entries l es h.2 p.1,
      )

      entries_behind :
          (l : List ℕ) (es : List Entry)
          → Holds node l es
          → All (λ a. P (memtable_order o b (node a).key)) l
          → All (λ e. P (key_order o (x.user, x.seq) (version e))) es
      entries_behind [] [] h p = tt
      entries_behind [] (e ∷ es) h p = absurd h
      entries_behind (a ∷ l) [] h p = absurd h
      entries_behind (a ∷ l) (e ∷ es) h p = (
        subst P (memtable_order-eq o b (node a).key x (entry_key (node a).key e h.0 h.1)) p.0,
        entries_behind l es h.2 p.1,
      )

    -- The entries of a sorted map ascend.
    pub Holds-Ascending :
        {c : Cmp} (o : IsTotal c) (l : List ℕ) (es : List Entry)
        → Holds node l es
        → IsSorted (memtable_key-IsOrder o) node l
        → Ascending o es
    Holds-Ascending o [] [] h s = tt
    Holds-Ascending o [] (e ∷ es) h s = absurd h
    Holds-Ascending o (a ∷ l) [] h s = absurd h
    Holds-Ascending o (a ∷ l) (e ∷ es) h s = (
      entries_behind o (node a).key (entry_key (node a).key e h.0 h.1) (λ y. y ≡ Ordering.lt) l es
          h.2 s.0,
      Holds-Ascending o l es h.2 s.1,
    )

  -- The same of the list of keys and values of a map.
  pub KeysHold : List (Bytes × Bytes) → List Entry → Type 0
  KeysHold [] [] = Unit {0}
  KeysHold [] (e ∷ es) = ⊥
  KeysHold (b ∷ l) [] = ⊥
  KeysHold (b ∷ l) (e ∷ es) = (b.0 ≡ mbytes e) × EntryFits e × KeysHold l es

  pub Holds-KeysHold :
      (node : ℕ → Node) (l : List ℕ) (es : List Entry)
      → Holds node l es
      → KeysHold (entries node l) es
  unfolding KeysHold
  Holds-KeysHold node [] [] h = tt
  Holds-KeysHold node [] (e ∷ es) h = absurd h
  Holds-KeysHold node (a ∷ l) [] h = absurd h
  Holds-KeysHold node (a ∷ l) (e ∷ es) h = (h.0, h.1, Holds-KeysHold node l es h.2)

  pub KeysHold-Holds :
      (node : ℕ → Node) (l : List ℕ) (es : List Entry)
      → KeysHold (entries node l) es
      → Holds node l es
  unfolding KeysHold
  KeysHold-Holds node [] [] h = tt
  KeysHold-Holds node [] (e ∷ es) h = absurd h
  KeysHold-Holds node (a ∷ l) [] h = absurd h
  KeysHold-Holds node (a ∷ l) (e ∷ es) h = (h.0, h.1, KeysHold-Holds node l es h.2)

  pub KeysHold-append :
      (xs ys : List (Bytes × Bytes)) (es fs : List Entry)
      → KeysHold xs es
      → KeysHold ys fs
      → KeysHold (xs ++ ys) (es ++ fs)
  unfolding KeysHold
  KeysHold-append [] ys [] fs h k = k
  KeysHold-append [] ys (e ∷ es) fs h k = absurd h
  KeysHold-append (x ∷ xs) ys [] fs h k = absurd h
  KeysHold-append (x ∷ xs) ys (e ∷ es) fs h k = (h.0, h.1, KeysHold-append xs ys es fs h.2 k)

  pub KeysHold-cons :
      (e : Entry) (v : Bytes) (ys : List (Bytes × Bytes)) (fs : List Entry)
      → EntryFits e
      → KeysHold ys fs
      → KeysHold ((mbytes e, v) ∷ ys) (e ∷ fs)
  unfolding KeysHold
  KeysHold-cons e v ys fs f h = (refl, f, h)

  -- A memtable key is not the empty string, which marks the head.
  pub mbytes-not_empty : (e : Entry) → is_empty (mbytes e) ≡ false
  mbytes-not_empty e = has_bytes (mbytes e) (
      omega (
        arith,
        ie.length-encode_fixed 8 (KeyTypes.make_tag e.seq e.type),
        length-append (encode_var (length e.user + 8))
            (e.user ++ (tag_bytes e.seq e.type ++ (encode_var (length e.value) ++ e.value))),
        length-append e.user (tag_bytes e.seq e.type ++ (encode_var (length e.value) ++ e.value)),
        length-append (tag_bytes e.seq e.type) (encode_var (length e.value) ++ e.value),
      ))
    where
      has_bytes : (b : Bytes) → 0 < length b → is_empty b ≡ false
      has_bytes [] h = absurd (omega arith)
      has_bytes (x ∷ xs) h = refl

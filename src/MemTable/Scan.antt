-- ===== src/MemTable/Scan.antt =====
-- The iterator of src/memtable.rs shows the entries of the table, in order.
use leveldb_rs.Base.{
  ℕ, zero, suc, ◌+◌, ◌^◌, ◌<◌, ◌≡◌, refl, ap, sym, ◌∙◌, arith, true, false, Bool, Option, none,
  some, List, [], ◌∷◌, ◌++◌, append_assoc, All, length, length-append, take, drop, take_append,
  drop_append, Ordering, ◌>>=◌, ◌==◌,
}
use leveldb_rs.Coding.{Bytes, IsU64, IntegerEncoding, encode_var, required_space}
use leveldb_rs.Cmp.{Cmp}
use leveldb_rs.Cmp.Order.{IsTotal}
use leveldb_rs.KeyTypes.{ValueType, parse_memtable_key, memtable_key, type_value}
use leveldb_rs.KeyTypes
use leveldb_rs.KeyTypes.Formats.{
  internal_bytes, tag_bytes, length-internal_bytes, parse_memtable_key-eq, slice-value,
  parse_internal_key-eq, new_full-eq,
}
use leveldb_rs.KeyTypes.Comparison.{key_order}
use leveldb_rs.SkipMap.{head, reset}
use leveldb_rs.SkipMap
use leveldb_rs.SkipMap.Links.{Linked}
use leveldb_rs.SkipMap.Search.{first}
use leveldb_rs.MemTable.{MemTable, shift_left, advance, current, seek}
use leveldb_rs.MemTable.Versions.{Entry, version}
use leveldb_rs.MemTable.Get.{mbytes, EntryFits, Holds}
use leveldb_rs.MemTable.Table.{IsTable}
use leveldb_rs.MemTable.Lookup.{seek_end}
use leveldb_rs.MemTable.Shift.{shift_left-drop}

module _ ⦃ie : IntegerEncoding⦄ where
  -- An entry as the iterator shows it: internal key and value.
  abbrev pub row : Entry → Bytes × Bytes
  row e = (internal_bytes e.user e.seq e.type, e.value)

  abbrev pub rows : List Entry → List (Bytes × Bytes)
  rows [] = []
  rows (e ∷ es) = row e ∷ rows es

  abbrev pub first_row : List Entry → Option (Bytes × Bytes)
  first_row [] = none
  first_row (e ∷ es) = some (row e)

  -- The shift and the truncation leave the internal key.
  internal_part :
      (e : Entry)
      → take (length e.user + 8) (shift_left (mbytes e) (required_space (length e.user + 8)))
        ≡ internal_bytes e.user e.seq e.type
  internal_part e =
      let n = required_space (length e.user + 8) in
      let front = encode_var (length e.user + 8) in
      let rest = encode_var (length e.value) ++ e.value in
      let l : n ≡ length front = sym (ie.length-encode_var (length e.user + 8)) in
      let q : mbytes e ≡ front ++ (internal_bytes e.user e.seq e.type ++ rest) =
        ap (λ t. front ++ t) (sym (append_assoc e.user (tag_bytes e.seq e.type) rest)) in
      ap (take (length e.user + 8)) (
        shift_left-drop (mbytes e) n
          (omega (arith, length-append front (e.user ++ (tag_bytes e.seq e.type ++ rest))))
        ∙ ap (drop n) q
        ∙ drop_append n front (internal_bytes e.user e.seq e.type ++ rest) l)
      ∙ take_append (length e.user + 8) (internal_bytes e.user e.seq e.type) rest
          (sym (length-internal_bytes e.user e.seq e.type))

  module _ {R : Type 0} (mt : MemTable R) where
    current-row :
        (a : ℕ) (e : Entry)
        → 0 < a
        → (mt.map.node a).key ≡ mbytes e
        → EntryFits e
        → current mt a ≡ some (some (row e))
    unfolding current SkipMap.current
    current-row a e h k f =
        let z : (a == 0) ≡ false = ground (arith, h) in
        rw
          (
            current,
            SkipMap.current,
            z,
            k,
            parse_memtable_key-eq e.user e.value e.type e.seq f.0 f.1 f.2,
            ◌>>=◌,
            slice-value e.user e.value e.type e.seq,
            ◌>>=◌,
          )
          (ap (λ b. some (some (b, e.value))) (internal_part e))

    at_head : current mt head ≡ some none
    unfolding current SkipMap.current
    at_head = refl

    -- What a client reads that advances up to `n` times, as long as the answer is true. A position that shows
    -- no entry is a failure.
    unfoldable pub scan : ℕ → ℕ → Option (List (Bytes × Bytes))
    scan zero it = some []
    scan (suc n) it =
        let (it', moved) = advance mt it in
        let rest = scan n it' in
        elim moved [
          | false ↦ some []
          | true ↦ do kv ← current mt it'; x ← kv; after ← rest; some (x ∷ after)
        ]

    advance_to : (it a : ℕ) → (mt.map.node it).next ≡ some a → 0 < a → advance mt it ≡ (a, true)
    unfolding advance SkipMap.advance
    advance_to it a e h =
        let z : (a == 0) ≡ false = ground (arith, h) in rw (advance, SkipMap.advance, e, z) refl

    length-Holds : (l : List ℕ) (es : List Entry) → Holds mt.map.node l es → length l ≡ length es
    length-Holds [] [] h = refl
    length-Holds [] (e ∷ es) h = absurd h
    length-Holds (a ∷ l) [] h = absurd h
    length-Holds (a ∷ l) (e ∷ es) h = ap suc (length-Holds l es h.2)

    scan_from :
        (n it : ℕ) (l : List ℕ) (es : List Entry)
        → length l < n
        → Linked (λ a. some (mt.map.node a).next) (mt.map.node it).next l
        → All (λ a. (0 < a) × (a < mt.map.fresh)) l
        → Holds mt.map.node l es
        → scan n it ≡ some (rows es)
    unfolding scan advance SkipMap.advance
    scan_from zero it l es hn hl ha h = absurd (omega arith)
    scan_from (suc n) it [] [] hn hl ha h = rw (scan, advance, SkipMap.advance, hl) refl
    scan_from (suc n) it [] (e ∷ es) hn hl ha h = absurd h
    scan_from (suc n) it (a ∷ l) [] hn hl ha h = absurd h
    scan_from (suc n) it (a ∷ l) (e ∷ es) hn hl ha h =
        rw
          (
            scan,
            ap (λ (x : ℕ × Bool). x.1) (advance_to it a hl.0 ha.0.0),
            ap (λ (x : ℕ × Bool). x.0) (advance_to it a hl.0 ha.0.0),
            current-row a e ha.0.0 h.0 h.1,
            ◌>>=◌,
            scan_from n a l es (omega arith) hl.1 ha.1 h.2,
            ◌>>=◌,
          )
          refl

  module _ {R : Type 0} {c : Cmp} (o : IsTotal c) (mt : MemTable R) (es : List Entry)
      (t : IsTable o mt es) where
    -- In a table that holds entries, over a total user comparator: a client that resets the iterator and
    -- advances it, as often as it likes but more often than there are entries, gets true with an entry to
    -- show for every entry that the table holds, once and in order, and then false.
    pub scan-rows : (n : ℕ) → length es < n → scan mt n reset ≡ some (rows es)
    scan-rows n h =
        scan_from mt n reset t.nodes es (omega (arith, h, length-Holds mt t.nodes es t.holds))
          t.is_map.nodes.nexts t.is_map.nodes.addresses t.holds

    -- In a table that holds entries, over a total user comparator: a seek to an internal key, of a
    -- sequence number below 2^56 and a user key whose length plus 8 fits 64 bits, stops at the first entry
    -- that is not before it, whatever the type in it.
    pub seek-current :
        (k : Bytes) (s : ℕ) (vt : ValueType)
        → s < 2 ^ 56
        → IsU64 (length k + 8)
        → (passed : List Entry) × (ahead : List Entry) × (es ≡ passed ++ ahead)
          × All (λ e. key_order o (version e) (k, s) ≡ Ordering.lt) passed
          × All (λ e. ¬ (key_order o (version e) (k, s) ≡ Ordering.lt)) ahead
          × ((seek c mt (internal_bytes k s vt) >>= λ it. current mt it) ≡ some (first_row ahead))
    unfolding seek KeyTypes.new
    seek-current k s vt hs hk =
        let f = seek_end o mt es k s t hs hk in
        (
          f.passed,
          f.ahead,
          f.all,
          f.before,
          f.not_before,
          rw
              (
                seek,
                parse_internal_key-eq k s vt hs,
                ◌>>=◌,
                KeyTypes.new,
                new_full-eq k s type_value,
                ◌>>=◌,
                f.stops,
                ◌>>=◌,
              )
              (at_end f.nodes f.ahead f.addresses f.holds),
        )
      where
        at_end :
            (r : List ℕ) (er : List Entry)
            → All (λ a. (0 < a) × (a < mt.map.fresh)) r
            → Holds mt.map.node r er
            → current mt (elim (first r) [ some n ↦ n | none ↦ head ]) ≡ some (first_row er)
        at_end [] [] ha h = at_head mt
        at_end [] (e ∷ er) ha h = absurd h
        at_end (a ∷ r) [] ha h = absurd h
        at_end (a ∷ r) (e ∷ er) ha h = current-row mt a e ha.0.0 h.0 h.1

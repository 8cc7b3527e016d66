-- ===== src/MemTable/Get.antt =====
-- get and add of src/memtable.rs, over any skip list that holds the entries of the table.
use leveldb_rs.Base.{
  ℕ, ◌+◌, ◌^◌, ◌<◌, ◌≡◌, refl, ap, sym, ◌∙◌, arith, true, false, some, List, [], ◌∷◌, ◌++◌,
  append-nil, length, Bool-cases, inl, inr, ◌⊎◌, ◌>>=◌,
}
use leveldb_rs.Coding.{Bytes, IsU64, IntegerEncoding, encode_var}
use leveldb_rs.Cmp.{bytes_eq}
use leveldb_rs.KeyTypes.{ValueType, type_value, type_deletion, make_tag, memtable_key}
use leveldb_rs.KeyTypes.Tag.{make_tag-sum}
use leveldb_rs.KeyTypes.Formats.{
  lookup_key, memtable_bytes, user_key-eq, parse_memtable_key-eq, slice-key, slice-value, tag_bytes,
}
use leveldb_rs.Base.Bits.{and_low_mask}
use leveldb_rs.SkipMap.{Node}
use leveldb_rs.MemTable.{is_value, get_found}
use leveldb_rs.MemTable.Keys.{IsMemtableKey}
use leveldb_rs.MemTable.Versions.{Entry, report, if_same}

module _ ⦃ie : IntegerEncoding⦄ where
  abbrev pub mbytes : Entry → Bytes
  mbytes e = memtable_bytes e.user e.value e.type e.seq

  abbrev pub EntryFits : Entry → Type 0
  EntryFits e = (e.seq < 2 ^ 56) × IsU64 (length e.user + 8) × IsU64 (length e.value)

  -- The nodes hold the entries, in order.
  abbrev pub Holds : (ℕ → Node) → List ℕ → List Entry → Type 0
  Holds node [] [] = Unit {0}
  Holds node [] (e ∷ es) = ⊥
  Holds node (a ∷ l) [] = ⊥
  Holds node (a ∷ l) (e ∷ es) = ((node a).key ≡ mbytes e) × EntryFits e × Holds node l es

  abbrev pub entry_key : (b : Bytes) (e : Entry) → b ≡ mbytes e → EntryFits e → IsMemtableKey b
  entry_key b e h f = record {
    user = e.user;
    seq = e.seq;
    type = e.type;
    rest = encode_var (length e.value) ++ e.value;
    bytes = h;
    seq_fits = f.0;
    user_fits = f.1;
  }

  abbrev pub lookup_IsMemtableKey :
      (k : Bytes) (s : ℕ)
      → s < 2 ^ 56
      → IsU64 (length k + 8)
      → IsMemtableKey (memtable_key (lookup_key k s type_value))
  unfolding memtable_key
  lookup_IsMemtableKey k s hs hk = record {
    user = k;
    seq = s;
    type = type_value;
    rest = [];
    bytes =
        ap (λ t. encode_var (length k + 8) ++ (k ++ t)) (sym (append-nil (tag_bytes s type_value)));
    seq_fits = hs;
    user_fits = hk;
  }

  is_value-tag :
      (s : ℕ) (t : ValueType)
      → s < 2 ^ 56
      → is_value (make_tag s t) ≡ elim t [ type_value ↦ true | type_deletion ↦ false ]
  is_value-tag s type_value h =
      ground (arith, and_low_mask 8 (make_tag s type_value), make_tag-sum s type_value h)
  is_value-tag s type_deletion h =
      ground (arith, and_low_mask 8 (make_tag s type_deletion), make_tag-sum s type_deletion h)

  pub get_found-eq :
      (e : Entry) (k : Bytes) (s : ℕ)
      → EntryFits e
      → get_found (lookup_key k s type_value) (mbytes e) ≡ some (report (if_same k (some e)))
  unfolding get_found
  get_found-eq e k s f =
      let p = parse_memtable_key-eq e.user e.value e.type e.seq f.0 f.1 f.2 in
      let u = user_key-eq k s type_value in
      let q = slice-key e.user e.value e.type e.seq in
      elim (Bool-cases (bytes_eq k e.user)) [
        | inr z ↦ rw (get_found, p, ◌>>=◌, u, ◌>>=◌, q, ◌>>=◌, z) refl
        | inl z ↦ elim (type-cases e.type) [
          | inl t ↦
              let v : is_value (make_tag e.seq e.type) ≡ true =
                is_value-tag e.seq e.type f.0
                ∙ ap (λ x. elim x [ type_value ↦ true | type_deletion ↦ false ]) t in
              rw
                (
                  get_found,
                  p,
                  ◌>>=◌,
                  u,
                  ◌>>=◌,
                  q,
                  ◌>>=◌,
                  z,
                  v,
                  slice-value e.user e.value e.type e.seq,
                  ◌>>=◌,
                )
                (ap some (sym (ap (λ x. report (some (record e { type = x }))) t)))
          | inr t ↦
              let v : is_value (make_tag e.seq e.type) ≡ false =
                is_value-tag e.seq e.type f.0
                ∙ ap (λ x. elim x [ type_value ↦ true | type_deletion ↦ false ]) t in
              rw (get_found, p, ◌>>=◌, u, ◌>>=◌, q, ◌>>=◌, z, v)
                (ap some (sym (ap (λ x. report (some (record e { type = x }))) t)))
        ]
      ]
    where
      type-cases : (t : ValueType) → (t ≡ type_value) ⊎ (t ≡ type_deletion)
      type-cases type_value = inl refl
      type-cases type_deletion = inr refl

-- ===== src/KeyTypes/Formats.antt =====
-- What the key builders write, and that the readers give the parts back.
use leveldb_rs.Base.{slice_from_end}
use leveldb_rs.Base.{true}
use leveldb_rs.Base.{
  ℕ, ◌+◌, ◌-◌, ◌^◌, ◌<◌, ◌≡◌, refl, ap, sym, ◌∙◌, arith, none, some, [], ◌∷◌, ◌++◌, length,
  length-append, append_assoc, append-nil, slice, slice_from, slice_middle, position-some,
  slice_from_append, fill_exact, checked_sub, checked_sub-some, take_append, ◌>>=◌, ltb, lt→ltb,
}
use leveldb_rs.Coding.{
  Bytes, IsU64, IntegerEncoding, encode_var, required_space, decode_var, encode_fixed, decode_fixed,
}
use leveldb_rs.KeyTypes.{
  ValueType, make_tag, parse_tag, LookupKey, MemtableParts, new_full, memtable_key, user_key,
  internal_key, build_memtable_key, parse_memtable_key, parse_internal_key, truncate_to_userkey,
}
use leveldb_rs.KeyTypes.Tag.{make_tag-lt, parse-make_tag}

module _ ⦃ie : IntegerEncoding⦄ where
  abbrev pub tag_bytes : ℕ → ValueType → Bytes
  tag_bytes s t = encode_fixed 8 (make_tag s t)

  -- The internal key of a user key, a sequence number and a type.
  abbrev pub internal_bytes : Bytes → ℕ → ValueType → Bytes
  internal_bytes k s t = k ++ tag_bytes s t

  abbrev pub lookup_key : Bytes → ℕ → ValueType → LookupKey
  lookup_key k s t = record {
    key = encode_var (length k + 8) ++ (k ++ tag_bytes s t);
    key_offset = required_space (length k + 8);
  }

  abbrev pub memtable_bytes : Bytes → Bytes → ValueType → ℕ → Bytes
  memtable_bytes k v t s =
      encode_var (length k + 8) ++ (k ++ (tag_bytes s t ++ (encode_var (length v) ++ v)))

  pub length-internal_bytes :
      (k : Bytes) (s : ℕ) (t : ValueType) → length (internal_bytes k s t) ≡ length k + 8
  length-internal_bytes k s t =
      length-append k (tag_bytes s t)
      ∙ ap (λ n. length k + n) (ie.length-encode_fixed 8 (make_tag s t))

  pub decode-tag_bytes :
      (s : ℕ) (t : ValueType) → s < 2 ^ 56 → parse_tag (decode_fixed (tag_bytes s t)) ≡ (t, s)
  decode-tag_bytes s t h =
      ap parse_tag (ie.decode-encode_fixed 8 (make_tag s t) (make_tag-lt s t h))
      ∙ parse-make_tag s t h

  -- The buffer of a lookup key has the right size.
  pub new_full-eq : (k : Bytes) (s : ℕ) (t : ValueType) → new_full k s t ≡ some (lookup_key k s t)
  unfolding new_full
  new_full-eq k s t = rw (
      fill_exact (length k + required_space (length k + 8) + 8) (lookup_key k s t).key (
        omega (
          arith,
          length-append (encode_var (length k + 8)) (internal_bytes k s t),
          length-internal_bytes k s t,
          ie.length-encode_var (length k + 8),
        )))

  pub internal_key-eq :
      (k : Bytes) (s : ℕ) (t : ValueType)
      → internal_key (lookup_key k s t) ≡ some (internal_bytes k s t)
  unfolding internal_key
  internal_key-eq k s t =
      slice_from_append (encode_var (length k + 8)) (internal_bytes k s t) _
        (sym (ie.length-encode_var _))

  pub user_key-eq : (k : Bytes) (s : ℕ) (t : ValueType) → user_key (lookup_key k s t) ≡ some k
  unfolding user_key
  user_key-eq k s t =
      let n : length (lookup_key k s t).key ≡ required_space (length k + 8) + (length k + 8) =
        omega (
          arith,
          length-append (encode_var (length k + 8)) (internal_bytes k s t),
          length-internal_bytes k s t,
          ie.length-encode_var (length k + 8),
        ) in
      rw (checked_sub-some (length (lookup_key k s t).key) 8 (omega arith)) (
        slice_middle (encode_var (length k + 8)) k (tag_bytes s t) _ _
          (sym (ie.length-encode_var _)) (omega arith))

  -- The last eight bytes are the tag, what stands before them is the user key.
  pub parse_internal_key-append :
      (ikey key tag : Bytes)
      → ikey ≡ key ++ tag
      → length tag ≡ 8
      → parse_internal_key ikey
        ≡ some ((parse_tag (decode_fixed tag)).0, (parse_tag (decode_fixed tag)).1, key)
  unfolding parse_internal_key
  parse_internal_key-append [] key tag e h =
      absurd (omega (arith, ap length e, length-append key tag))
  parse_internal_key-append (x ∷ xs) key tag e h =
      let n : length (x ∷ xs) ≡ length key + 8 =
        omega (arith, ap length e, length-append key tag) in
      let at_tag : slice_from (x ∷ xs) (length (x ∷ xs) - 8) ≡ some tag =
        ap (λ l. slice_from l (length (x ∷ xs) - 8)) e
        ∙ slice_from_append key tag _ (omega arith) in
      let at_key : slice (x ∷ xs) 0 (length (x ∷ xs) - 8) ≡ some key =
        ap (λ l. slice l 0 (length (x ∷ xs) - 8)) e
        ∙ slice_middle [] key tag 0 _ refl (omega arith) in
      ground (arith, n, at_tag, at_key)

  pub parse_internal_key-eq :
      (k : Bytes) (s : ℕ) (t : ValueType)
      → s < 2 ^ 56
      → parse_internal_key (internal_bytes k s t) ≡ some (t, s, k)
  parse_internal_key-eq k s t h =
      parse_internal_key-append (internal_bytes k s t) k (tag_bytes s t) refl
        (ie.length-encode_fixed 8 _)
      ∙ ap (λ (p : ValueType × ℕ). some (p.0, p.1, k)) (decode-tag_bytes s t h)

  -- A lookup key can be built from any user key, and its views give the parts back.
  pub lookup_key_round_trip :
      (k : Bytes) (s : ℕ) (t : ValueType)
      → s < 2 ^ 56
      → ((new_full k s t >>= internal_key >>= parse_internal_key) ≡ some (t, s, k))
        × ((new_full k s t >>= user_key) ≡ some k)
        × ((new_full k s t >>= internal_key >>= truncate_to_userkey) ≡ some k)
  unfolding truncate_to_userkey
  lookup_key_round_trip k s t h = (
    rw (new_full-eq k s t, internal_key-eq k s t) (parse_internal_key-eq k s t h),
    rw (new_full-eq k s t) (user_key-eq k s t),
    rw (new_full-eq k s t, internal_key-eq k s t)
        (ground (
          arith,
          length-internal_bytes k s t,
          take_append (length (internal_bytes k s t) - 8) k (tag_bytes s t)
              (omega (arith, length-internal_bytes k s t)),
        )),
  )

  length-memtable_bytes :
      (k v : Bytes) (t : ValueType) (s : ℕ)
      → length (memtable_bytes k v t s)
        ≡ length k + 8 + length v + required_space (length k + 8) + required_space (length v)
  length-memtable_bytes k v t s = omega (
    arith,
    length-append (encode_var (length k + 8))
        (k ++ (tag_bytes s t ++ (encode_var (length v) ++ v))),
    length-append k (tag_bytes s t ++ (encode_var (length v) ++ v)),
    length-append (tag_bytes s t) (encode_var (length v) ++ v),
    length-append (encode_var (length v)) v,
    ie.length-encode_fixed 8 (make_tag s t),
    ie.length-encode_var (length k + 8),
    ie.length-encode_var (length v),
  )

  -- The buffer of a memtable key is filled up, so no write and no assertion fails.
  pub build_memtable_key-eq :
      (k v : Bytes) (t : ValueType) (s : ℕ)
      → build_memtable_key k v t s ≡ some (memtable_bytes k v t s)
  unfolding build_memtable_key
  build_memtable_key-eq k v t s =
      let n : length k + 8 + length v + required_space (length k + 8) + required_space (length v)
          ≡ length (memtable_bytes k v t s) =
        sym (length-memtable_bytes k v t s) in
      rw (fill_exact _ (memtable_bytes k v t s) n) (ground (arith, n))

  abbrev memtable_parts : Bytes → Bytes → ValueType → ℕ → MemtableParts
  memtable_parts k v t s = record {
    keylen = length k;
    keyoff = required_space (length k + 8);
    tag = make_tag s t;
    vallen = length v;
    valoff = required_space (length k + 8) + length k + 8 + required_space (length v);
  }

  -- Where the parts of a memtable key stand.
  pub slice-key :
      (k v : Bytes) (t : ValueType) (s : ℕ)
      → slice
          (memtable_bytes k v t s)
          (required_space (length k + 8))
          (required_space (length k + 8) + length k)
        ≡ some k
  slice-key k v t s =
      slice_middle (encode_var (length k + 8)) k (tag_bytes s t ++ (encode_var (length v) ++ v)) _ _
        (sym (ie.length-encode_var _)) refl

  pub slice-tag :
      (k v : Bytes) (t : ValueType) (s : ℕ)
      → slice
          (memtable_bytes k v t s)
          (required_space (length k + 8) + length k)
          (required_space (length k + 8) + length k + 8)
        ≡ some (tag_bytes s t)
  slice-tag k v t s =
      ap
        (λ l.
          slice l (required_space (length k + 8) + length k)
            (required_space (length k + 8) + length k + 8))
        (sym (append_assoc (encode_var (length k + 8)) k _))
      ∙ slice_middle (encode_var (length k + 8) ++ k) (tag_bytes s t) (encode_var (length v) ++ v) _
          _
          (sym (
            length-append (encode_var (length k + 8)) k
            ∙ ap (λ n. n + length k) (ie.length-encode_var _)))
          (ap (λ n. required_space (length k + 8) + length k + n)
            (sym (ie.length-encode_fixed 8 (make_tag s t))))

  slice-rest :
      (k v : Bytes) (t : ValueType) (s : ℕ)
      → slice_from (memtable_bytes k v t s) (required_space (length k + 8) + length k + 8)
        ≡ some (encode_var (length v) ++ v)
  slice-rest k v t s =
      ap (λ l. slice_from l (required_space (length k + 8) + length k + 8))
        (sym (
          append_assoc (encode_var (length k + 8) ++ k) (tag_bytes s t) _
          ∙ append_assoc (encode_var (length k + 8)) k _))
      ∙ slice_from_append ((encode_var (length k + 8) ++ k) ++ tag_bytes s t)
          (encode_var (length v) ++ v) _
          (omega (
            arith,
            length-append (encode_var (length k + 8) ++ k) (tag_bytes s t),
            length-append (encode_var (length k + 8)) k,
            ie.length-encode_var (length k + 8),
            ie.length-encode_fixed 8 (make_tag s t),
          ))

  pub slice-value :
      (k v : Bytes) (t : ValueType) (s : ℕ)
      → slice
          (memtable_bytes k v t s)
          (memtable_parts k v t s).valoff
          ((memtable_parts k v t s).valoff + length v)
        ≡ some v
  slice-value k v t s =
      let front = ((encode_var (length k + 8) ++ k) ++ tag_bytes s t) ++ encode_var (length v) in
      let e : memtable_bytes k v t s ≡ front ++ (v ++ []) = simp (append_assoc, append-nil) in
      ap (λ l. slice l (memtable_parts k v t s).valoff ((memtable_parts k v t s).valoff + length v))
        e
      ∙ slice_middle front v [] _ _
          (omega (
            arith,
            length-append ((encode_var (length k + 8) ++ k) ++ tag_bytes s t)
                (encode_var (length v)),
            length-append (encode_var (length k + 8) ++ k) (tag_bytes s t),
            length-append (encode_var (length k + 8)) k,
            ie.length-encode_var (length k + 8),
            ie.length-encode_var (length v),
            ie.length-encode_fixed 8 (make_tag s t),
          ))
          refl

  pub parse_memtable_key-eq :
      (k v : Bytes) (t : ValueType) (s : ℕ)
      → s < 2 ^ 56
      → IsU64 (length k + 8)
      → IsU64 (length v)
      → parse_memtable_key (memtable_bytes k v t s) ≡ some (memtable_parts k v t s)
  unfolding parse_memtable_key
  parse_memtable_key-eq k v t s hs hk hv =
      let user : checked_sub (length k + 8) 8 ≡ some (length k) = ground arith in
      let more : ltb (required_space (length k + 8) + length k) (length (memtable_bytes k v t s))
          ≡ true =
        lt→ltb _ _ (omega (arith, length-memtable_bytes k v t s)) in
      let len : decode_var (memtable_bytes k v t s)
          ≡ some (length k + 8, required_space (length k + 8)) =
        ie.decode-encode_var (length k + 8) _ hk in
      let here =
        position-some (memtable_bytes k v t s) (required_space (length k + 8) + length k)
          (omega (arith, length-memtable_bytes k v t s)) in
      ground (
        arith,
        len,
        user,
        here,
        more,
        slice-tag k v t s,
        slice-rest k v t s,
        ie.decode-encode_var (length v) v hv,
        ie.decode-encode_fixed 8 (make_tag s t) (make_tag-lt s t hs),
      )

  -- For a sequence number below 2^56, and a key and a value whose lengths fit 64 bits, a memtable
  -- key is built, it is parsed, and the parts that the parse points at are the key, the type and
  -- sequence number, and the value.
  pub parse-build_memtable_key :
      (k v : Bytes) (t : ValueType) (s : ℕ)
      → s < 2 ^ 56
      → IsU64 (length k + 8)
      → IsU64 (length v)
      → (buf : Bytes) × (p : MemtableParts) × (build_memtable_key k v t s ≡ some buf)
        × (parse_memtable_key buf ≡ some p)
        × (slice buf p.keyoff (p.keyoff + p.keylen) ≡ some k)
        × (parse_tag p.tag ≡ (t, s))
        × (slice buf p.valoff (p.valoff + p.vallen) ≡ some v)
  parse-build_memtable_key k v t s hs hk hv = (
    memtable_bytes k v t s,
    memtable_parts k v t s,
    build_memtable_key-eq k v t s,
    parse_memtable_key-eq k v t s hs hk hv,
    slice-key k v t s,
    parse-make_tag s t hs,
    slice-value k v t s,
  )

  -- What stands behind the tag of a lookup key's memtable key: nothing.
  lookup_tag :
      (k : Bytes) (t : ValueType) (s : ℕ)
      → (slice
            (lookup_key k s t).key
            (required_space (length k + 8) + length k)
            (required_space (length k + 8) + length k + 8)
          ≡ some (tag_bytes s t))
        × (slice_from (lookup_key k s t).key (required_space (length k + 8) + length k + 8)
            ≡ some [])
  lookup_tag k t s =
      let front = encode_var (length k + 8) ++ k in
      let key = (lookup_key k s t).key in
      let lo = required_space (length k + 8) + length k in
      let e : key ≡ front ++ (tag_bytes s t ++ []) = simp (append_assoc, append-nil) in
      let at_tag : lo ≡ length front =
        omega (
          arith,
          length-append (encode_var (length k + 8)) k,
          ie.length-encode_var (length k + 8),
        ) in
      let n : length key ≡ lo + 8 = omega (
        arith,
        ap length e,
        length-append front (tag_bytes s t ++ []),
        length-append (tag_bytes s t) [],
        at_tag,
        ie.length-encode_fixed 8 (make_tag s t),
      ) in
      (
        ap (λ b. slice b lo (lo + 8)) e
            ∙ slice_middle front (tag_bytes s t) [] lo (lo + 8) at_tag
                (omega (arith, ie.length-encode_fixed 8 (make_tag s t))),
        slice_from_end key (lo + 8) (sym n),
      )

  lookup-none :
      (k : Bytes) (t : ValueType) (s : ℕ)
      → IsU64 (length k + 8)
      → parse_memtable_key (lookup_key k s t).key ≡ none
  unfolding parse_memtable_key
  lookup-none k t s hk =
      let user : checked_sub (length k + 8) 8 ≡ some (length k) = ground arith in
      let n : length (lookup_key k s t).key ≡ required_space (length k + 8) + (length k + 8) =
        omega (
          arith,
          length-append (encode_var (length k + 8)) (internal_bytes k s t),
          length-internal_bytes k s t,
          ie.length-encode_var (length k + 8),
        ) in
      let more : ltb (required_space (length k + 8) + length k) (length (lookup_key k s t).key)
          ≡ true =
        lt→ltb _ _ (omega (arith, n)) in
      let here =
        position-some (lookup_key k s t).key (required_space (length k + 8) + length k)
          (omega (arith, n)) in
      let (tag, rest) = lookup_tag k t s in
      ground (
        arith,
        user,
        here,
        more,
        tag,
        rest,
        ie.decode-encode_var (length k + 8) (internal_bytes k s t) hk,
        ie.decode_var_nil,
      )

  -- For a sequence number below 2^56, a key whose length plus 8 fits 64 bits and a value whose length
  -- does: a lookup key is built, and behind the tag of its memtable key there is nothing, and
  -- parse_memtable_key panics on it. Behind the same bytes with the value's length and the value it answers,
  -- and the parts are the key, the type and sequence number, and the value. So it is the value's length
  -- that it panics on, which the lookup key does not have.
  pub parse_memtable_key-lookup :
      (k v : Bytes) (t : ValueType) (s : ℕ)
      → s < 2 ^ 56
      → IsU64 (length k + 8)
      → IsU64 (length v)
      → (l : LookupKey) × (p : MemtableParts) × (new_full k s t ≡ some l)
        × (slice (memtable_key l) p.keyoff (p.keyoff + p.keylen) ≡ some k)
        × ((slice (memtable_key l) (p.keyoff + p.keylen) (p.keyoff + p.keylen + 8) >>= λ b.
              some (parse_tag (decode_fixed b)))
            ≡ some (t, s))
        × (slice_from (memtable_key l) (p.keyoff + p.keylen + 8) ≡ some [])
        × (parse_memtable_key (memtable_key l) ≡ none)
        × (parse_memtable_key (memtable_key l ++ (encode_var (length v) ++ v)) ≡ some p)
        × (slice (memtable_key l ++ (encode_var (length v) ++ v)) p.valoff (p.valoff + p.vallen)
            ≡ some v)
  unfolding memtable_key
  parse_memtable_key-lookup k v t s hs hk hv =
      let l = lookup_key k s t in
      let (tag, rest) = lookup_tag k t s in
      let with_value : l.key ++ (encode_var (length v) ++ v) ≡ memtable_bytes k v t s =
        simp (append_assoc) refl in
      (
        l,
        memtable_parts k v t s,
        new_full-eq k s t,
        slice_middle (encode_var (length k + 8)) k (tag_bytes s t) _ _
            (sym (ie.length-encode_var (length k + 8))) refl,
        ap (λ o. o >>= λ b. some (parse_tag (decode_fixed b))) tag
            ∙ ap some (decode-tag_bytes s t hs),
        rest,
        lookup-none k t s hk,
        ap (λ b. parse_memtable_key b) with_value ∙ parse_memtable_key-eq k v t s hs hk hv,
        ap
              (λ b.
                slice b (memtable_parts k v t s).valoff
                  ((memtable_parts k v t s).valoff + length v))
              with_value
            ∙ slice-value k v t s,
      )

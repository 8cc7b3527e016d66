-- ===== src/InternalCmp/Separator.antt =====
-- The separators of internal keys, which table and index blocks are built with.
use leveldb_rs.KeyTypes.{parse_internal_key}
use leveldb_rs.Base.{if◌then◌else◌, ◌&&◌, is_lt}
use leveldb_rs.Base.{
  ℕ, ◌^◌, ◌<◌, ◌≡◌, ◌≢◌, ap, sym, ◌∙◌, arith, Option, some, [], ◌∷◌, ◌++◌, false, length,
  length-append, ◌>>=◌, Ordering, Bool-cases, inl, inr, ltb, All,
}
use leveldb_rs.Coding.{Bytes, IsByte, IntegerEncoding}
use leveldb_rs.Cmp.{Cmp, cmp_bytes, bytes_eq, default_cmp, find_short_succ}
use leveldb_rs.Cmp.Order.{IsTotal, default_cmp-IsTotal, bytes_eq_iff, cmp_bytes_refl}
use leveldb_rs.Cmp.Separator.{
  find_shortest_sep_between, find_shortest_sep_successor, find_shortest_sep_same,
  find_short_succ_above,
}
use leveldb_rs.KeyTypes.{
  ValueType, type_value, new, internal_key, max_sequence_number, cmp_internal_key,
}
use leveldb_rs.KeyTypes.Formats.{
  internal_bytes, new_full-eq, internal_key-eq, parse_internal_key-eq,
}
use leveldb_rs.KeyTypes.Comparison.{cmp_internal_key-eq}
use leveldb_rs.InternalCmp.{find_internal_sep, find_internal_succ}

module _ ⦃ie : IntegerEncoding⦄ where
  -- The internal key of a fresh lookup key.
  new_internal-eq :
      (k : Bytes) (s : ℕ) → (new k s >>= internal_key) ≡ some (internal_bytes k s type_value)
  unfolding new
  new_internal-eq k s = rw (new_full-eq k s type_value) (internal_key-eq k s type_value)

  -- The sequence number of a separator: the largest one, if the user key became shorter.
  abbrev sep_sequence : {c : Cmp} → IsTotal c → Bytes → Bytes → ℕ → ℕ
  sep_sequence o k u s =
      if ltb (length u) (length k) && is_lt (o.order k u) then max_sequence_number else s

  find_internal_sep-eq :
      {c : Cmp} (o : IsTotal c) (k k' u : Bytes) (s s' : ℕ) (t t' : ValueType)
      → s < 2 ^ 56
      → s' < 2 ^ 56
      → bytes_eq (internal_bytes k s t) (internal_bytes k' s' t') ≡ false
      → c.find_shortest_sep k k' ≡ some u
      → find_internal_sep c (internal_bytes k s t) (internal_bytes k' s' t')
        ≡ some (internal_bytes u (sep_sequence o k u s) type_value)
  unfolding find_internal_sep
  find_internal_sep-eq o k k' u s s' t t' hs hs' d e = ground (
    arith,
    parse_internal_key-eq k s t hs,
    parse_internal_key-eq k' s' t' hs',
    o.cmp_order k u,
    new_internal-eq u s,
    new_internal-eq u max_sequence_number,
  )

  -- Internal keys of different parts are different bytes.
  internal_bytes-ne :
      (k k' : Bytes) (s s' : ℕ) (t t' : ValueType)
      → s < 2 ^ 56
      → s' < 2 ^ 56
      → ¬ ((k ≡ k') × (s ≡ s'))
      → bytes_eq (internal_bytes k s t) (internal_bytes k' s' t') ≡ false
  internal_bytes-ne k k' s s' t t' hs hs' n =
      elim (Bool-cases (bytes_eq (internal_bytes k s t) (internal_bytes k' s' t'))) [
        | inr e ↦ e
        | inl e ↦
            let same : Option.some (t, s, k) ≡ some (t', s', k') =
              sym (parse_internal_key-eq k s t hs)
              ∙ ap parse_internal_key ((bytes_eq_iff _ _).0 e)
              ∙ parse_internal_key-eq k' s' t' hs' in
            absurd (n (cc same, cc same))
      ]

  -- Where the user comparator separates two user keys, InternalKeyCmp separates every two internal
  -- keys of these: the answer is an internal key strictly between them.
  find_internal_sep_between :
      {c : Cmp} (o : IsTotal c) (k k' u : Bytes) (s s' : ℕ) (t t' : ValueType)
      → s < 2 ^ 56
      → s' < 2 ^ 56
      → c.find_shortest_sep k k' ≡ some u
      → o.order k u ≡ Ordering.lt
      → o.order u k' ≡ Ordering.lt
      → (sep : Bytes) × (find_internal_sep c (internal_bytes k s t) (internal_bytes k' s' t')
          ≡ some sep)
        × (cmp_internal_key c (internal_bytes k s t) sep ≡ some Ordering.lt)
        × (cmp_internal_key c sep (internal_bytes k' s' t') ≡ some Ordering.lt)
  find_internal_sep_between {c} o k k' u s s' t t' hs hs' e above below =
      let n = sep_sequence o k u s in
      let hn : n < 2 ^ 56 = ground arith in
      (
        internal_bytes u n type_value,
        find_internal_sep-eq o k k' u s s' t t' hs hs'
            (internal_bytes-ne k k' s s' t t' hs hs'
              (λ p. cc (o.order_trans k u k' above below, o.order_refl k, p.0)))
            e,
        cmp_internal_key-eq o k u s n t type_value hs hn ∙ rw above,
        cmp_internal_key-eq o u k' n s' type_value t' hn hs' ∙ rw below,
      )

  -- Over the byte order: for two internal keys with different user keys in order, the first
  -- user key not empty and the second not the first with a single 0 byte behind it, the separator
  -- is found and lies strictly between the two.
  pub find_internal_sep_bytes :
      (k k' : Bytes) (s s' : ℕ) (t t' : ValueType)
      → s < 2 ^ 56
      → s' < 2 ^ 56
      → cmp_bytes k k' ≡ Ordering.lt
      → k ≢ []
      → k' ≢ k ++ 0 ∷ []
      → (sep : Bytes) × (find_internal_sep default_cmp
            (internal_bytes k s t)
            (internal_bytes k' s' t')
          ≡ some sep)
        × (cmp_internal_key default_cmp (internal_bytes k s t) sep ≡ some Ordering.lt)
        × (cmp_internal_key default_cmp sep (internal_bytes k' s' t') ≡ some Ordering.lt)
  find_internal_sep_bytes k k' s s' t t' hs hs' h n m =
      let (u, e, above, below) = find_shortest_sep_between k k' h n m in
      find_internal_sep_between default_cmp-IsTotal k k' u s s' t t' hs hs' e above below

  -- Between two versions of one user key, the separator is as large as the first and below the
  -- second.
  pub find_internal_sep_versions :
      (k : Bytes) (s s' : ℕ) (t t' : ValueType)
      → s < 2 ^ 56
      → s' < s
      → (sep : Bytes) × (find_internal_sep default_cmp
            (internal_bytes k s t)
            (internal_bytes k s' t')
          ≡ some sep)
        × (cmp_internal_key default_cmp (internal_bytes k s t) sep ≡ some Ordering.eq)
        × (cmp_internal_key default_cmp sep (internal_bytes k s' t') ≡ some Ordering.lt)
  find_internal_sep_versions k s s' t t' hs h =
      let o = default_cmp-IsTotal in
      let hs' : s' < 2 ^ 56 = omega arith in
      let n : sep_sequence o k k s ≡ s = ground (arith, cmp_bytes_refl k) in
      (
        internal_bytes k s type_value,
        find_internal_sep-eq o k k k s s' t t' hs hs'
              (internal_bytes-ne k k s s' t t' hs hs' (λ p. omega (arith, p.1)))
              (find_shortest_sep_same k)
            ∙ ap (λ x. some (internal_bytes k x type_value)) n,
        cmp_internal_key-eq o k k s s t type_value hs hs ∙ ground (arith, cmp_bytes_refl k),
        cmp_internal_key-eq o k k s s' type_value t' hs hs' ∙ ground (arith, cmp_bytes_refl k),
      )

  -- The excluded case: the second user key is the first with a 0 byte behind it, and the first
  -- internal key is the older one. Then the separator lies behind the second internal key.
  pub find_internal_sep_misplaced :
      (k : Bytes) (s s' : ℕ) (t t' : ValueType)
      → s' < 2 ^ 56
      → s < s'
      → k ≢ []
      → (sep : Bytes) × (find_internal_sep default_cmp
            (internal_bytes k s t)
            (internal_bytes (k ++ 0 ∷ []) s' t')
          ≡ some sep)
        × (cmp_internal_key default_cmp sep (internal_bytes (k ++ 0 ∷ []) s' t') ≡ some Ordering.gt)
  find_internal_sep_misplaced k s s' t t' hs' h n =
      let o = default_cmp-IsTotal in
      let u = k ++ 0 ∷ [] in
      let hs : s < 2 ^ 56 = omega arith in
      let q : sep_sequence o k u s ≡ s = ground (arith, length-append k (0 ∷ [])) in
      (
        internal_bytes u s type_value,
        find_internal_sep-eq o k u u s s' t t' hs hs'
              (internal_bytes-ne k u s s' t t' hs hs' (λ p. omega (arith, p.1)))
              (find_shortest_sep_successor k n)
            ∙ ap (λ x. some (internal_bytes u x type_value)) q,
        cmp_internal_key-eq o u u s s' type_value t' hs hs' ∙ ground (arith, cmp_bytes_refl u),
      )

  -- The successor of an internal key whose user key is made of bytes lies behind it.
  pub find_internal_succ_above :
      (k : Bytes) (s : ℕ) (t : ValueType)
      → s < 2 ^ 56
      → All IsByte k
      → (succ : Bytes) × (find_internal_succ default_cmp (internal_bytes k s t) ≡ some succ)
        × (cmp_internal_key default_cmp (internal_bytes k s t) succ ≡ some Ordering.lt)
  unfolding find_internal_succ
  find_internal_succ_above k s t hs hk = (
    internal_bytes (find_short_succ k) s type_value,
    rw (parse_internal_key-eq k s t hs) (new_internal-eq (find_short_succ k) s),
    cmp_internal_key-eq default_cmp-IsTotal k (find_short_succ k) s s t type_value hs hs
        ∙ rw ((find_short_succ_above k hk).0),
  )

-- ===== src/Filter/Matches.antt =====
-- BloomPolicy of src/filter.rs: a filter matches every key that it was created from.
use leveldb_rs.Base.{
  ℕ, suc, ◌+◌, ◌*◌, ◌%◌, ◌^◌, ◌≤◌, ◌<◌, ◌≡◌, refl, ap, ◌∙◌, arith, true, false, some, List, [], ◌∷◌,
  ◌++◌, All, length, length-append, length-replicate, replicate, get_or, get_or_append, take,
  take_append, ltb, Bool-cases, inl, inr, ◌>>=◌, ◌>>◌,
}
use leveldb_rs.Coding.{Bytes, IntegerEncoding}
use leveldb_rs.Filter.{
  BloomPolicy, add_keys, filter_bytes, create_filter, key_may_match, rotate, bloom_hash, concat,
  offsets_from,
}
use leveldb_rs.Filter.Pieces.{pieces_behind}
use mathlib.Core.Path.{subst}
use leveldb_rs.Filter.Bloom.{
  Grows, Grows-refl, Grows-trans, Probes, Probes-Grows, set_probes-Grows, test_probes-true,
}

length-offsets_from : (n : ℕ) (keys : List Bytes) → length (offsets_from n keys) ≡ length keys
unfolding offsets_from
length-offsets_from n [] = refl
length-offsets_from n (key ∷ keys) = ap suc (length-offsets_from (n + length key) keys)

module _ ⦃ie : IntegerEncoding⦄ where
  abbrev Has : ℕ → ℕ → Bytes → Bytes → Type 0
  Has k bits body key = Probes k bits (rotate (bloom_hash key)) (bloom_hash key) body

  add_keys-Has :
      (k bits : ℕ) (keys : List Bytes) (body t : Bytes)
      → 0 < bits
      → bits ≤ length body * 8
      → (body' : Bytes) × (add_keys k bits keys (body ++ t) ≡ some (body' ++ t))
        × Grows body body'
        × All (Has k bits body') keys
  unfolding add_keys
  add_keys-Has k bits [] body t p q = (body, refl, Grows-refl body, tt)
  add_keys-Has k bits (key ∷ keys) body t p q =
      let delta = rotate (bloom_hash key) in
      let h = bloom_hash key in
      let (b1, e1, g1, ps) = set_probes-Grows k bits delta h body t p q in
      let (b2, e2, g2, all) = add_keys-Has k bits keys b1 t p (omega (arith, q, g1.0)) in
      (
        b2,
        rw (add_keys, e1, ◌>>=◌) e2,
        Grows-trans body b1 b2 g1 g2,
        (Probes-Grows k bits delta h b1 b2 g2 ps, all),
      )

  -- The match of a key against a body and its trailing number of probes.
  key_may_match-Has :
      (k : ℕ) (key body : Bytes)
      → k ≤ 30
      → 0 < length body
      → length body * 8 < 2 ^ 32
      → Has k (length body * 8) body key
      → key_may_match key (body ++ k ∷ []) ≡ some true
  unfolding key_may_match
  key_may_match-Has k key [] hk hp hb s = absurd (omega arith)
  key_may_match-Has k key (b ∷ bs) hk hp hb s =
      let n : length (bs ++ k ∷ []) ≡ length (b ∷ bs) = omega (arith, length-append bs (k ∷ [])) in
      let last : get_or (b ∷ (bs ++ k ∷ [])) (length (bs ++ k ∷ [])) 0 ≡ k =
        ap (λ i. get_or (b ∷ (bs ++ k ∷ [])) i 0) n
        ∙ get_or_append (b ∷ bs) k [] (length (b ∷ bs)) 0 refl in
      let front : take (length (bs ++ k ∷ [])) (b ∷ (bs ++ k ∷ [])) ≡ b ∷ bs =
        take_append (length (bs ++ k ∷ [])) (b ∷ bs) (k ∷ []) n in
      let small : length (bs ++ k ∷ []) % 2 ^ 32 * 8 ≡ length (b ∷ bs) * 8 = omega (arith, n, hb) in
      let fits : ltb (length (bs ++ k ∷ []) % 2 ^ 32 * 8) (2 ^ 32) ≡ true =
        ground (arith, small, hb) in
      let few : ltb 30 k ≡ false = ground (arith, hk) in
      rw (fits, ◌>>◌, last, few, last, small, front)
        (test_probes-true k (length (b ∷ bs) * 8) (rotate (bloom_hash key)) (bloom_hash key)
          (b ∷ bs) (omega arith) s)

  all_match :
      (k : ℕ) (keys : List Bytes) (body : Bytes)
      → k ≤ 30
      → 0 < length body
      → length body * 8 < 2 ^ 32
      → All (Has k (length body * 8) body) keys
      → All (λ key. key_may_match key (body ++ k ∷ []) ≡ some true) keys
  all_match k [] body hk hp hb s = tt
  all_match k (key ∷ keys) body hk hp hb s =
      (key_may_match-Has k key body hk hp hb s.0, all_match k keys body hk hp hb s.1)

  filter_bytes-bounds : (n : ℕ) → (8 ≤ filter_bytes n) × (filter_bytes n * 8 ≤ n + 71)
  filter_bytes-bounds n = elim (Bool-cases (ltb n 64)) [
    | inl e ↦ rw e (omega arith, omega arith)
    | inr e ↦ let h : 64 ≤ n = ground (arith, e) in rw e (omega (arith, h), omega arith)
  ]

  module _ (p : BloomPolicy) (keys : List Bytes) (hk : p.k ≤ 30)
      (hb : length keys * p.bits_per_key + 71 < 2 ^ 32) where
    abbrev size : ℕ
    size = filter_bytes (length (offsets_from 0 keys) * p.bits_per_key)

    size-bounds :
        (8 ≤ size)
        × (size * 8 ≤ length keys * p.bits_per_key + 71)
        × (length (offsets_from 0 keys) * p.bits_per_key + 7 < 2 ^ 64)
    size-bounds =
        let n = length (offsets_from 0 keys) * p.bits_per_key in
        let total : n ≡ length keys * p.bits_per_key =
          ap (λ (t : ℕ). t * p.bits_per_key) (length-offsets_from 0 keys) in
        let b = filter_bytes-bounds n in (b.0, omega (arith, b.1, total), omega (arith, total, hb))

    created :
        (f : Bytes)
        → add_keys p.k (size * 8) keys (replicate size 0 ++ p.k ∷ []) ≡ some f
        → create_filter p (concat keys) (offsets_from 0 keys) ≡ some f
    unfolding create_filter
    created f e =
        let ok : ltb (length (offsets_from 0 keys) * p.bits_per_key + 7) (2 ^ 64) ≡ true =
          ground (arith, size-bounds) in
        let bits : size * 8 % 2 ^ 32 ≡ size * 8 = omega (arith, size-bounds, hb) in
        let probes : p.k % 256 ≡ p.k = omega (arith, hk) in
        rw (create_filter, ok, ◌>>◌, pieces_behind [] keys, ◌>>=◌, bits, probes) e

  -- A Bloom filter has no false negatives: where the policy has at most 30 probes, as every policy that is
  -- made has, and the filter has fewer than 2^32 bits (the keys times the bits for each, and 71, are
  -- below 2^32), a filter is created from any keys, and it matches each of them.
  pub create_filter-matches :
      (p : BloomPolicy) (keys : List Bytes)
      → p.k ≤ 30
      → length keys * p.bits_per_key + 71 < 2 ^ 32
      → (filter : Bytes) × (create_filter p (concat keys) (offsets_from 0 keys) ≡ some filter)
        × All (λ key. key_may_match key filter ≡ some true) keys
        × (0 < length filter)
        × (length filter * 8 ≤ length keys * p.bits_per_key + 79)
  create_filter-matches p keys hk hb =
      let n = size p keys hk hb in
      let nb = size-bounds p keys hk hb in
      let body : Bytes = replicate n 0 in
      let len : length body ≡ n = length-replicate n 0 in
      let (body', e, g, all) =
        add_keys-Has p.k (n * 8) keys body (p.k ∷ []) (omega (arith, nb)) (omega (arith, len)) in
      let len' : n * 8 ≡ length body' * 8 = omega (arith, g.0, len) in
      let wide : n * 8 ≤ length keys * p.bits_per_key + 71 = nb.1 in
      let all_of : length (body' ++ p.k ∷ []) ≡ n + 1 =
        omega (arith, length-append body' (p.k ∷ []), g.0, len) in
      let fits : length (body' ++ p.k ∷ []) * 8 ≤ length keys * p.bits_per_key + 79 =
        omega (arith, all_of, wide) in
      (
        body' ++ p.k ∷ [],
        created p keys hk hb (body' ++ p.k ∷ []) e,
        all_match p.k keys body' hk (omega (arith, g.0, len, nb)) (omega (arith, len', nb, hb))
            (subst (λ (b : ℕ). All (Has p.k b body') keys) len' all),
        omega (arith, length-append body' (p.k ∷ [])),
        fits,
      )

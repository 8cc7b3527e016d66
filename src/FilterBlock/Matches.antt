-- ===== src/FilterBlock/Matches.antt =====
-- src/filter_block.rs with the Bloom filter of src/filter.rs: what a reader answers for added keys.
use leveldb_rs.Base.{
  ℕ, ◌+◌, ◌-◌, ◌*◌, ◌^◌, ◌≤◌, ◌<◌, ◌≡◌, refl, ap, sym, ◌∙◌, arith, true, false, none, some, List,
  [], ◌∷◌, ◌++◌, All, length, length-append, ◌==◌, ◌>>=◌, ◌⊎◌, inl, inr,
}
use leveldb_rs.Coding.{Bytes, IntegerEncoding}
use leveldb_rs.Filter.{FilterPolicy, BloomPolicy, bloom_policy, concat}
use leveldb_rs.Filter.Matches.{create_filter-matches}
use leveldb_rs.FilterBlock.{
  FilterBlockBuilder, FilterBlockReader, finish, offsets_array, new_reader, key_may_match,
  get_filter_index,
}
use leveldb_rs.FilterBlock.Builder.{IsBuilt, generate_filter-IsBuilt, concat-append}
use leveldb_rs.FilterBlock.Reader.{
  written, reader, new_reader-written, matches_filter, panics_on_empty, panics_past,
}

module _ ⦃ie : IntegerEncoding⦄ where
  -- With no bytes of keys that wait, finish writes the filters and their offsets.
  pub finish-written :
      (policy : FilterPolicy) (b : FilterBlockBuilder) (fs : List Bytes)
      → IsBuilt b fs []
      → finish policy b ≡ some (written fs)
  unfolding finish
  finish-written policy b fs h =
      let z : (length b.keys == 0) ≡ true = ground (arith, ap length h.keys_eq) in
      rw (finish, z, ◌>>=◌)
        (ap (λ t. some (t ++ offsets_array b.filter_offsets (length t))) h.filters_eq
          ∙ ap (λ o. some (concat fs ++ offsets_array o (length (concat fs)))) h.offsets_eq)

  -- Let a builder hold filters, and no keys that wait, with fewer than 2^32 bytes and 2^32 - 1 filters.
  -- Then finish answers a block, and a reader can be made of it. At a block offset of whose 2 KiB there is
  -- a filter with bytes, the reader asks the policy with that filter.
  pub key_may_match-finish :
      (policy : FilterPolicy) (b : FilterBlockBuilder) (pre post : List Bytes) (f : Bytes) (off : ℕ)
      (key : Bytes)
      → IsBuilt b (pre ++ f ∷ post) []
      → length (concat (pre ++ f ∷ post)) < 2 ^ 32
      → length (pre ++ f ∷ post) < 2 ^ 32 - 1
      → get_filter_index off 11 ≡ some (length pre)
      → 0 < length f
      → (r : FilterBlockReader) × ((finish policy b >>= new_reader) ≡ some r)
        × (key_may_match policy r off key ≡ policy.key_may_match key f)
  key_may_match-finish policy b pre post f off key h small few ix pos =
      let fs = pre ++ f ∷ post in
      (
        reader fs,
        rw (finish-written policy b fs h, ◌>>=◌) (new_reader-written fs small),
        matches_filter fs small pre post f refl policy off key few ix pos,
      )

  -- The filter of the offset is empty, or the offset is the first that has none.
  abbrev pub NoFilter : List Bytes → ℕ → Type 0
  NoFilter fs off =
      ((pre : List Bytes) × (post : List Bytes) × (fs ≡ pre ++ [] ∷ post)
        × (get_filter_index off 11 ≡ some (length pre)))
      ⊎ (get_filter_index off 11 ≡ some (length fs))

  -- Let a builder hold filters, and no keys that wait, with fewer than 2^32 bytes and 2^32 - 1 filters.
  -- The reader of the block that finish answers panics at a block offset of whose 2 KiB the filter is
  -- empty, and at the first 2 KiB of offsets that have no filter any more.
  pub key_may_match_panics :
      (policy : FilterPolicy) (b : FilterBlockBuilder) (fs : List Bytes) (off : ℕ) (key : Bytes)
      → IsBuilt b fs []
      → length (concat fs) < 2 ^ 32
      → length fs < 2 ^ 32 - 1
      → NoFilter fs off
      → (r : FilterBlockReader) × ((finish policy b >>= new_reader) ≡ some r)
        × (key_may_match policy r off key ≡ none)
  key_may_match_panics policy b fs off key h small few no_filter = (
    reader fs,
    rw (finish-written policy b fs h, ◌>>=◌) (new_reader-written fs small),
    elim no_filter [
      | inl (pre, post, e, ix) ↦ panics_on_empty fs small pre post [] e policy off key few ix refl
      | inr ix ↦ panics_past fs small policy off key few ix
    ],
  )

  all_may_match :
      (policy : FilterPolicy) (r : FilterBlockReader) (off : ℕ) (f : Bytes) (ks : List Bytes)
      → ((key : Bytes) → key_may_match policy r off key ≡ policy.key_may_match key f)
      → All (λ key. policy.key_may_match key f ≡ some true) ks
      → All (λ key. key_may_match policy r off key ≡ some true) ks
  all_may_match policy r off f [] h a = tt
  all_may_match policy r off f (k ∷ ks) h a = (h k ∙ a.0, all_may_match policy r off f ks h a.1)

  -- Let a builder over a Bloom policy of at most 30 probes hold the filters `fs`, and let the keys `ks`,
  -- not all empty, wait for theirs, with fewer than 2^32 bits in the filter, bytes in all filters and
  -- filters. Then finish answers a block, a reader can be made of it, and at every block offset of whose
  -- 2 KiB these keys are, it says of each of them that it may be there.
  pub key_may_match-added :
      (p : BloomPolicy) (b : FilterBlockBuilder) (fs ks : List Bytes) (off : ℕ)
      → IsBuilt b fs ks
      → 0 < length (concat ks)
      → p.k ≤ 30
      → length ks * p.bits_per_key + 71 < 2 ^ 32
      → length (concat fs) + (length ks * p.bits_per_key + 79) < 2 ^ 32
      → length fs + 1 < 2 ^ 32 - 1
      → get_filter_index off 11 ≡ some (length fs)
      → (r : FilterBlockReader) × ((finish (bloom_policy p) b >>= new_reader) ≡ some r)
        × All (λ key. key_may_match (bloom_policy p) r off key ≡ some true) ks
  unfolding finish
  key_may_match-added p b fs ks off h ne hk bits total few ix =
      let policy = bloom_policy p in
      let (f, e, all, pos, size) = create_filter-matches p ks hk bits in
      let (b', g, h') = generate_filter-IsBuilt policy b fs ks h f ne e in
      let fs' = fs ++ f ∷ [] in
      let z : (length b.keys == 0) ≡ false = ground (arith, ap length h.keys_eq, ne) in
      let z' : (length b'.keys == 0) ≡ true = ground (arith, ap length h'.keys_eq) in
      let small : length (concat fs') < 2 ^ 32 = omega (
        arith,
        ap length (concat-append fs (f ∷ [])),
        length-append (concat fs) (f ++ []),
        length-append f [],
        size,
        total,
      ) in
      let few' : length fs' < 2 ^ 32 - 1 = omega (arith, length-append fs (f ∷ []), few) in
      let w : finish policy b' ≡ some (written fs') = finish-written policy b' fs' h' in
      let w' : finish policy b ≡ some (written fs') =
        rw (finish, z, g, ◌>>=◌)
          (sym (
              let q : finish policy b'
                  ≡ some (b'.filters ++ offsets_array b'.filter_offsets (length b'.filters)) =
                rw (finish, z', ◌>>=◌) refl in
              q)
            ∙ w) in
      (
        reader fs',
        rw (w', ◌>>=◌) (new_reader-written fs' small),
        all_may_match policy (reader fs') off f ks
            (λ key. matches_filter fs' small fs [] f refl policy off key few' ix pos) all,
      )

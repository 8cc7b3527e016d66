-- ===== src/Version/Disjoint.antt =====
-- src/version.rs: overlap_in_level, with its binary search in level 0, against the ranges of the files.
use leveldb_rs.Base.{
  ℕ, zero, suc, ◌^◌, ◌<◌, ◌≡◌, ◌≢◌, refl, ap, sym, ◌∙◌, arith, Bool, true, false, not, Option, none,
  some, List, [], ◌∷◌, ◌++◌, All, length, ltb, ◌==◌, Ordering-cases, Ordering, is_lt, ◌>>=◌, ◌>>◌,
  inl, inr, compare, ◌↔◌,
}
use leveldb_rs.Coding.{Bytes, IntegerEncoding}
use leveldb_rs.Cmp.{Cmp, and_then}
use leveldb_rs.Cmp.Order.{IsTotal}
use leveldb_rs.KeyTypes.{type_value, max_sequence_number, new, internal_key, cmp_internal_key}
use leveldb_rs.KeyTypes.Formats.{internal_bytes, new_full-eq, internal_key-eq}
use leveldb_rs.KeyTypes.Comparison.{cmp_internal_key-eq, key_order}
use leveldb_rs.SkipMap.{at}
use leveldb_rs.SkipMap.Order.{All-left, All-right}
use mathlib.Core.Path.{subst}
use leveldb_rs.VersionEdit.{FileMetaData}
use leveldb_rs.Version.{
  Version, find_file, find_loop, key_is_before_file, some_file_overlaps_range_disjoint,
  overlap_in_level,
}
use leveldb_rs.Version.Search.{EndsBelow, EndsNotBelow, find_file-eq}
use leveldb_rs.Version.Level.{IsLevel, IsLevel-cut, first_decides, skips_ended, at-middle, any-skip}
use leveldb_rs.Version.Ranges.{
  any, HasRange, overlaps, key_is_before_file-eq, some_file_overlaps_range-eq,
}

-- No version is before the first one.
and_then_lt :
    (r : Ordering) (s : ℕ)
    → s < 2 ^ 56
    → (and_then r (compare max_sequence_number s) ≡ Ordering.lt) ↔ (r ≡ Ordering.lt)
and_then_lt Ordering.lt s h = (λ e. refl, λ e. refl)
and_then_lt Ordering.eq s h = (λ e. absurd (ground (arith, h, e)), λ e. cc)
and_then_lt Ordering.gt s h = (λ e. cc, λ e. cc)

module _ ⦃ie : IntegerEncoding⦄ {c : Cmp} (o : IsTotal c) (meta : ℕ → FileMetaData)
    (lo hi : ℕ → Bytes) where
  -- The lookup key of the start of a range: the first version of its user key.
  abbrev range_key : Bytes → Bytes
  range_key a = internal_bytes a max_sequence_number type_value

  cmp-range_key :
      (a : Bytes) (f : ℕ)
      → HasRange o meta lo hi f
      → (h : Ordering) × (cmp_internal_key c (meta f).largest (range_key a) ≡ some h)
        × ((h ≡ Ordering.lt) ↔ (o.order (hi f) a ≡ Ordering.lt))
  cmp-range_key a f h = (
    key_order o (hi f, h.hi_seq) (a, max_sequence_number),
    ap (λ k. cmp_internal_key c k (range_key a)) h.largest_eq
        ∙ cmp_internal_key-eq o (hi f) a h.hi_seq max_sequence_number h.hi_type type_value
            h.hi_seq_fits (omega arith),
    and_then_lt (o.order (hi f) a) h.hi_seq h.hi_seq_fits,
  )

  ends_below :
      (a : Bytes) (fs : List ℕ)
      → All (HasRange o meta lo hi) fs
      → All (λ f. o.order (hi f) a ≡ Ordering.lt) fs
      → All (EndsBelow c meta (range_key a)) fs
  ends_below a [] h b = tt
  ends_below a (f ∷ fs) h b =
      let (r, e, iff) = cmp-range_key a f h.0 in (e ∙ ap some (iff.1 b.0), ends_below a fs h.1 b.1)

  ends_not_below :
      (a : Bytes) (fs : List ℕ)
      → All (HasRange o meta lo hi) fs
      → All (λ f. o.order (hi f) a ≢ Ordering.lt) fs
      → All (EndsNotBelow c meta (range_key a)) fs
  ends_not_below a [] h n = tt
  ends_not_below a (f ∷ fs) h n =
      let (r, e, iff) = cmp-range_key a f h.0 in
      let not_lt : is_lt r ≡ false = elim (Ordering-cases r) [
        | inl q ↦ absurd (n.0 (iff.0 q))
        | inr (inl q) ↦ ap is_lt q
        | inr (inr q) ↦ ap is_lt q
      ] in
      ((r, e, not_lt), ends_not_below a fs h.1 n.1)

  new-range_key : (a : Bytes) → (new a max_sequence_number >>= internal_key) ≡ some (range_key a)
  unfolding new
  new-range_key a =
      rw (new_full-eq a max_sequence_number type_value, ◌>>=◌)
        (internal_key-eq a max_sequence_number type_value)

  -- What the code does once it has the key of the range's start.
  unfoldable ask : List ℕ → Bytes → Bytes → Option Bool
  ask fs b ikey = do
    found ← find_file c meta fs ikey
    elim found [
      | none ↦ some false
      | some ix ↦ do f ← at fs ix; before ← key_is_before_file c meta b f; some (not before)
    ]

  disjoint-ask :
      (fs : List ℕ) (a b : Bytes)
      → some_file_overlaps_range_disjoint c meta fs a b ≡ ask fs b (range_key a)
  unfolding some_file_overlaps_range_disjoint ask
  disjoint-ask fs a b = ground (arith, new-range_key a)

  ask-cut :
      (xs ys : List ℕ) (x : ℕ) (w b : Bytes)
      → All (HasRange o meta lo hi) xs
      → All (HasRange o meta lo hi) ys
      → IsLevel o meta lo hi ys
      → All (λ f. o.order (hi f) (x ∷ w) ≡ Ordering.lt) xs
      → All (λ f. o.order (hi f) (x ∷ w) ≢ Ordering.lt) ys
      → ask (xs ++ ys) b (range_key (x ∷ w))
        ≡ some (any (overlaps o meta lo hi (x ∷ w) b) (xs ++ ys))
  unfolding ask
  ask-cut xs [] x w b h h' m below rest =
      let a = x ∷ w in
      let none_left : any (overlaps o meta lo hi a b) (xs ++ []) ≡ false =
        any-skip (overlaps o meta lo hi a b) xs [] (skips_ended o meta lo hi x w b xs below) in
      rw
        (
          ask,
          find_file-eq c meta (range_key a) xs [] (ends_below a xs h below) tt,
          ◌>>=◌,
          none_left,
        )
        refl
  ask-cut xs (f ∷ fs) x w b h h' m below rest =
      let a = x ∷ w in
      let skipped =
        any-skip (overlaps o meta lo hi a b) xs (f ∷ fs)
          (skips_ended o meta lo hi x w b xs below) in
      let found =
        find_file-eq c meta (range_key a) xs (f ∷ fs) (ends_below a xs h below)
          (ends_not_below a (f ∷ fs) h' rest) in
      let z : (length (f ∷ fs) == 0) ≡ false = ground (arith) in
      rw
        (
          ask,
          found,
          ◌>>=◌,
          z,
          at-middle xs f fs,
          ◌>>=◌,
          key_is_before_file-eq o meta lo hi b f h'.0,
          ◌>>=◌,
          skipped,
        )
        (ap some (sym (first_decides o meta lo hi x w b f fs rest.0 m)))

  pub some_file_overlaps_range_disjoint-eq :
      (fs : List ℕ) (a b : Bytes)
      → All (HasRange o meta lo hi) fs
      → IsLevel o meta lo hi fs
      → 0 < length a
      → some_file_overlaps_range_disjoint c meta fs a b ≡ some (any (overlaps o meta lo hi a b) fs)
  some_file_overlaps_range_disjoint-eq fs [] b h l p = absurd (omega (arith, p))
  some_file_overlaps_range_disjoint-eq fs (x ∷ w) b h l p =
      let a = x ∷ w in
      let (xs, ys, q, m, below, rest) = IsLevel-cut o meta lo hi a fs l in
      let h' : All (HasRange o meta lo hi) (xs ++ ys) =
        subst (λ t. All (HasRange o meta lo hi) t) q h in
      disjoint-ask fs a b
      ∙ ap (λ t. ask t b (range_key a)) q
      ∙ ask-cut xs ys x w b (All-left _ xs ys h') (All-right _ xs ys h') m below rest
      ∙ ap (λ t. some (any (overlaps o meta lo hi a b) t)) (sym q)

  -- Let the files of the level asked have bounds, and those of level 0 ascend without a common key. For a range
  -- whose start is not empty, overlap_in_level answers in every level whether a file has keys in the
  -- range: one whose largest key is not below the range and whose smallest is not behind it.
  pub overlap_in_level-eq :
      (v : Version) (level : ℕ) (a b : Bytes)
      → level < 7
      → All (HasRange o meta lo hi) (v.files level)
      → IsLevel o meta lo hi (v.files 0)
      → 0 < length a
      → overlap_in_level c meta v level a b ≡ some (any (overlaps o meta lo hi a b) (v.files level))
  unfolding overlap_in_level
  overlap_in_level-eq v zero a b k h l p =
      some_file_overlaps_range_disjoint-eq (v.files 0) a b h l p
  overlap_in_level-eq v (suc level) a b k h l p =
      let small : ltb (suc level) 7 ≡ true = ground (arith, k) in
      let deep : (suc level == 0) ≡ false = ground (arith) in
      rw (overlap_in_level, small, ◌>>◌, ◌>>=◌, deep)
        (some_file_overlaps_range-eq o meta lo hi (v.files (suc level)) a b h)

  -- The search of two files asks the second one first.
  find_file-second :
      (f g : ℕ) (key : Bytes)
      → cmp_internal_key c (meta g).largest key ≡ some Ordering.lt
      → find_file c meta (f ∷ g ∷ []) key ≡ some none
  unfolding find_file find_loop
  find_file-second f g key e = rw (find_file, find_loop, e, ◌>>=◌) refl

  -- Files of level 0 may overlap: if of two the second ends before a range and the first has keys in it,
  -- overlap_in_level answers that none has keys in it; for the same two files in a deeper level it answers
  -- that one has.
  pub overlap_in_level_misses :
      (v w : Version) (f g level : ℕ) (a b : Bytes)
      → v.files 0 ≡ f ∷ g ∷ []
      → w.files (suc level) ≡ f ∷ g ∷ []
      → suc level < 7
      → All (HasRange o meta lo hi) (f ∷ g ∷ [])
      → o.order (hi g) a ≡ Ordering.lt
      → overlaps o meta lo hi a b f ≡ true
      → (overlap_in_level c meta v 0 a b ≡ some false)
        × (overlap_in_level c meta w (suc level) a b ≡ some true)
  unfolding overlap_in_level ask
  overlap_in_level_misses v w f g level a b hv hw k h below over =
      let behind = (ends_below a (g ∷ []) (h.1.0, tt) (below, tt)).0 in
      let no : overlap_in_level c meta v 0 a b ≡ some false =
        rw
          (
            overlap_in_level,
            hv,
            disjoint-ask (f ∷ g ∷ []) a b,
            ask,
            find_file-second f g (range_key a) behind,
          )
          refl in
      let small : ltb (suc level) 7 ≡ true = ground (arith, k) in
      let deep : (suc level == 0) ≡ false = ground (arith) in
      (
        no,
        rw
            (
              overlap_in_level,
              small,
              ◌>>◌,
              ◌>>=◌,
              deep,
              hw,
              some_file_overlaps_range-eq o meta lo hi (f ∷ g ∷ []) a b h,
              over,
            )
            refl,
      )

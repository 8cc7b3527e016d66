-- ===== src/Version/Ranges.antt =====
-- src/version.rs: the tests whether a file of a level has keys in a range, against the bounds of the
-- files.
use leveldb_rs.Base.{
  ℕ, ◌^◌, ◌<◌, ◌≡◌, refl, ap, ◌∙◌, Bool, false, not, ◌||◌, some, List, [], ◌∷◌, All, Bool-cases,
  is_lt, ◌>>=◌, inl, inr, if◌then◌else◌,
}
use leveldb_rs.Coding.{Bytes, IntegerEncoding}
use leveldb_rs.Cmp.{Cmp}
use leveldb_rs.Cmp.Order.{IsTotal}
use leveldb_rs.KeyTypes.{ValueType}
use leveldb_rs.KeyTypes.Formats.{internal_bytes, parse_internal_key-eq}
use leveldb_rs.InternalCmp.{cmp_inner}
use leveldb_rs.SkipMap.{is_empty}
use leveldb_rs.VersionEdit.{FileMetaData}
use leveldb_rs.Version.{
  is_gt, user_part, key_is_after_file, key_is_before_file, some_file_overlaps_range,
}

abbrev pub any : {A : Type 0} → (A → Bool) → List A → Bool
any p [] = false
any p (x ∷ xs) = p x || any p xs

module _ ⦃ie : IntegerEncoding⦄ where
  -- The ends of a file's metadata are internal keys with these user keys.
  pub record HasBounds (m : FileMetaData) (lo hi : Bytes) : Type 0 where
    pub lo_seq : ℕ
    pub lo_type : ValueType
    pub hi_seq : ℕ
    pub hi_type : ValueType
    pub smallest_eq : m.smallest ≡ internal_bytes lo lo_seq lo_type
    pub largest_eq : m.largest ≡ internal_bytes hi hi_seq hi_type
    pub lo_seq_fits : lo_seq < 2 ^ 56
    pub hi_seq_fits : hi_seq < 2 ^ 56

  pub user_part-eq :
      (k : Bytes) (s : ℕ) (t : ValueType) → s < 2 ^ 56 → user_part (internal_bytes k s t) ≡ some k
  unfolding user_part
  user_part-eq k s t h = rw (user_part, parse_internal_key-eq k s t h) refl

  module _ {m : FileMetaData} {lo hi : Bytes} (h : HasBounds m lo hi) where
    pub user_part-smallest : user_part m.smallest ≡ some lo
    user_part-smallest =
        ap (λ k. user_part k) h.smallest_eq ∙ user_part-eq lo h.lo_seq h.lo_type h.lo_seq_fits

    pub user_part-largest : user_part m.largest ≡ some hi
    user_part-largest =
        ap (λ k. user_part k) h.largest_eq ∙ user_part-eq hi h.hi_seq h.hi_type h.hi_seq_fits

  module _ {c : Cmp} (o : IsTotal c) (meta : ℕ → FileMetaData) (lo hi : ℕ → Bytes) where
    abbrev pub HasRange : ℕ → Type 0
    HasRange f = HasBounds (meta f) (lo f) (hi f)

    -- The range of user keys lies behind a file, or before it; an empty bound is none.
    abbrev pub is_after : Bytes → ℕ → Bool
    is_after a f = if is_empty a then false else is_gt (o.order a (hi f))

    abbrev pub is_before : Bytes → ℕ → Bool
    is_before b f = if is_empty b then false else is_lt (o.order b (lo f))

    abbrev pub overlaps : Bytes → Bytes → ℕ → Bool
    overlaps a b f = not (is_after a f || is_before b f)

    pub key_is_after_file-eq :
        (a : Bytes) (f : ℕ) → HasRange f → key_is_after_file c meta a f ≡ some (is_after a f)
    unfolding key_is_after_file cmp_inner
    key_is_after_file-eq [] f h = rw (key_is_after_file, user_part-largest h, ◌>>=◌) refl
    key_is_after_file-eq (x ∷ xs) f h =
        rw (key_is_after_file, user_part-largest h, ◌>>=◌, o.cmp_order (x ∷ xs) (hi f), ◌>>=◌) refl

    pub key_is_before_file-eq :
        (b : Bytes) (f : ℕ) → HasRange f → key_is_before_file c meta b f ≡ some (is_before b f)
    unfolding key_is_before_file cmp_inner
    key_is_before_file-eq [] f h = rw (key_is_before_file, user_part-smallest h, ◌>>=◌) refl
    key_is_before_file-eq (x ∷ xs) f h =
        rw (key_is_before_file, user_part-smallest h, ◌>>=◌, o.cmp_order (x ∷ xs) (lo f), ◌>>=◌)
          refl

    -- One file after the other.
    pub some_file_overlaps_range-eq :
        (fs : List ℕ) (a b : Bytes)
        → All HasRange fs
        → some_file_overlaps_range c meta fs a b ≡ some (any (overlaps a b) fs)
    unfolding some_file_overlaps_range
    some_file_overlaps_range-eq [] a b h = refl
    some_file_overlaps_range-eq (f ∷ fs) a b h =
        let ih = some_file_overlaps_range-eq fs a b h.1 in
        elim (Bool-cases (is_after a f)) [
          | inl e ↦
              rw (some_file_overlaps_range, key_is_after_file-eq a f h.0, ◌>>=◌, e, ◌>>=◌, ◌||◌) ih
          | inr e ↦ elim (Bool-cases (is_before b f)) [
            | inl q ↦
                rw
                  (
                    some_file_overlaps_range,
                    key_is_after_file-eq a f h.0,
                    ◌>>=◌,
                    e,
                    key_is_before_file-eq b f h.0,
                    ◌>>=◌,
                    q,
                    ◌||◌,
                  )
                  ih
            | inr q ↦
                rw
                  (
                    some_file_overlaps_range,
                    key_is_after_file-eq a f h.0,
                    ◌>>=◌,
                    e,
                    key_is_before_file-eq b f h.0,
                    ◌>>=◌,
                    q,
                    ◌||◌,
                  )
                  refl
          ]
        ]

-- ===== src/VersionEdit/Termination.antt =====
-- src/version_edit.rs: how decode_from ends on any bytes.
use leveldb_rs.Base.{
  ℕ, zero, suc, ◌+◌, ◌≤◌, ◌<◌, ◌^◌, ◌≡◌, refl, ap, sym, ◌∙◌, arith, Bool, true, false, Option, none,
  some, length, take, drop, length-drop, drop-drop, leb, ltb, ltb→lt, if◌then◌else◌, Option-cases,
  Bool-cases, inl, inr, ◌⊎◌,
}
use leveldb_rs.Coding.{Bytes, IntegerEncoding, read_varint}
use leveldb_rs.VersionEdit.Utf8.{is_utf8}
use leveldb_rs.VersionEdit.{
  StatusCode, corruption, Result, ok, err, ◌>>=◌, panic, max_capacity, read_key, or_io_error,
  EditTag, comparator, log_number, next_file_number, last_sequence, compact_pointer, deleted_file,
  new_file, prev_log_number, tag_number, tag_to_enum, VersionEdit, new, read_length_prefixed,
  decode_entry, decode_loop, decode_from, set_comparator_name,
}

pub tag_to_enum-number : (t : EditTag) → tag_to_enum (tag_number t) ≡ some t
unfolding tag_to_enum tag_number
tag_to_enum-number comparator = refl
tag_to_enum-number log_number = refl
tag_to_enum-number next_file_number = refl
tag_to_enum-number last_sequence = refl
tag_to_enum-number compact_pointer = refl
tag_to_enum-number deleted_file = refl
tag_to_enum-number new_file = refl
tag_to_enum-number prev_log_number = refl

pub tag_number-lt : (t : EditTag) → tag_number t < 2 ^ 32
unfolding tag_number
tag_number-lt comparator = omega arith
tag_number-lt log_number = omega arith
tag_number-lt next_file_number = omega arith
tag_number-lt last_sequence = omega arith
tag_number-lt compact_pointer = omega arith
tag_number-lt deleted_file = omega arith
tag_number-lt new_file = omega arith
tag_number-lt prev_log_number = omega arith

-- What is left behind a read is a tail of the slice.
abbrev Behind : Bytes → Bytes → Type 0
Behind r rest = (l : ℕ) × (rest ≡ drop l r)

Behind-le : (r rest : Bytes) → Behind r rest → length rest ≤ length r
Behind-le r rest (l, e) = omega (arith, ap (λ t. length t) e, length-drop l r)

module _ ⦃ie : IntegerEncoding⦄ where
  -- Somewhere in the bytes stands a length of 2^63 or more, and fewer bytes follow it.
  abbrev pub HasHugeLength : Bytes → Type 0
  HasHugeLength src =
      (k n : ℕ) × (rest : Bytes) × (read_varint 64 (drop k src) ≡ some (n, rest))
      × (length rest < n)
      × (2 ^ 63 ≤ n)

  HasHugeLength-Behind : (r rest : Bytes) → Behind r rest → HasHugeLength rest → HasHugeLength r
  HasHugeLength-Behind r rest (l, e) (k, n, t, read, short, huge) = (
    l + k,
    n,
    t,
    ap (λ xs. read_varint 64 xs) (sym (drop-drop l k (l + k) r refl) ∙ ap (λ xs. drop k xs) (sym e))
        ∙ read,
    short,
    huge,
  )

  -- A read from the front of `r`: what it leaves is a tail of `r`, and a panic has its length in `r`.
  abbrev FromFront : {A : Type 0} → Bytes → Result (A × Bytes) → Type 0
  FromFront r (ok p) = Behind r p.1
  FromFront r (err c) = Unit
  FromFront r panic = HasHugeLength r

  FromFront-Behind :
      {A : Type 0} (r rest : Bytes) (m : Result (A × Bytes))
      → Behind r rest
      → FromFront rest m
      → FromFront r m
  FromFront-Behind r rest (ok p) (l, e) (k, q) =
      (l + k, q ∙ ap (λ xs. drop k xs) e ∙ drop-drop l k (l + k) r refl)
  FromFront-Behind r rest (err c) b f = tt
  FromFront-Behind r rest panic b f = HasHugeLength-Behind r rest b f

  FromFront->>= :
      {A B : Type 0} (r : Bytes) (m : Result (A × Bytes)) (f : A × Bytes → Result (B × Bytes))
      → FromFront r m
      → ((p : A × Bytes) → FromFront p.1 (f p))
      → FromFront r (m >>= f)
  FromFront->>= r (ok p) f h g = FromFront-Behind r p.1 (f p) h (g p)
  FromFront->>= r (err c) f h g = tt
  FromFront->>= r panic f h g = h

  read_varint-FromFront : (r : Bytes) → FromFront r (or_io_error (read_varint 64 r))
  read_varint-FromFront r = elim (Option-cases (read_varint 64 r)) [
    | inl e ↦ rw e tt
    | inr ((n, rest), e) ↦ rw e (ie.read_varint_drops 64 r n rest e)
  ]

  read_key-FromFront :
      (r : Bytes) (n : ℕ) (rest : Bytes)
      → read_varint 64 r ≡ some (n, rest)
      → FromFront r (read_key n rest)
  read_key-FromFront r n rest e = elim (Bool-cases (leb n (length rest))) [
    | inl t ↦ rw t (
        FromFront-Behind r rest (ok (take n rest, drop n rest)) (ie.read_varint_drops 64 r n rest e)
          (n, refl))
    | inr t ↦ elim (Bool-cases (ltb max_capacity n)) [
      | inl u ↦ rw (t, u) (0, n, rest, e, ground (arith, t), omega (arith, ltb→lt max_capacity n u))
      | inr u ↦ rw (t, u) tt
    ]
  ]

  read_length_prefixed-FromFront : (r : Bytes) → FromFront r (read_length_prefixed r)
  unfolding read_length_prefixed
  read_length_prefixed-FromFront r = elim (Option-cases (read_varint 64 r)) [
    | inl e ↦ rw e tt
    | inr ((n, rest), e) ↦ rw e (read_key-FromFront r n rest e)
  ]

  -- An action behind a number, or behind a string.
  number-FromFront :
      {B : Type 0} (r : Bytes) (f : ℕ × Bytes → Result (B × Bytes))
      → ((p : ℕ × Bytes) → FromFront p.1 (f p))
      → FromFront r (or_io_error (read_varint 64 r) >>= f)
  number-FromFront r f =
      FromFront->>= r (or_io_error (read_varint 64 r)) f (read_varint-FromFront r)

  prefixed-FromFront :
      {B : Type 0} (r : Bytes) (f : Bytes × Bytes → Result (B × Bytes))
      → ((p : Bytes × Bytes) → FromFront p.1 (f p))
      → FromFront r (read_length_prefixed r >>= f)
  prefixed-FromFront r f =
      FromFront->>= r (read_length_prefixed r) f (read_length_prefixed-FromFront r)

  utf8-FromFront :
      (b : Bool) (ve : VersionEdit) (rest : Bytes)
      → FromFront rest (if b then ok (ve, rest) else err corruption)
  utf8-FromFront true ve rest = (0, refl)
  utf8-FromFront false ve rest = tt

  decode_entry-FromFront :
      (ve : VersionEdit) (t : EditTag) (r : Bytes) → FromFront r (decode_entry ve t r)
  unfolding decode_entry
  decode_entry-FromFront ve comparator r =
      prefixed-FromFront r _ (λ p. utf8-FromFront (is_utf8 p.0) (set_comparator_name ve p.0) p.1)
  decode_entry-FromFront ve log_number r = number-FromFront r _ (λ p. (0, refl))
  decode_entry-FromFront ve prev_log_number r = number-FromFront r _ (λ p. (0, refl))
  decode_entry-FromFront ve next_file_number r = number-FromFront r _ (λ p. (0, refl))
  decode_entry-FromFront ve last_sequence r = number-FromFront r _ (λ p. (0, refl))
  decode_entry-FromFront ve compact_pointer r =
      number-FromFront r _ (λ p. prefixed-FromFront p.1 _ (λ q. (0, refl)))
  decode_entry-FromFront ve deleted_file r =
      number-FromFront r _ (λ p. number-FromFront p.1 _ (λ q. (0, refl)))
  decode_entry-FromFront ve new_file r = number-FromFront r _ (λ p. number-FromFront p.1 _ (λ q.
      number-FromFront q.1 _
        (λ s. prefixed-FromFront s.1 _ (λ t. prefixed-FromFront t.1 _ (λ u. (0, refl))))))

  -- How the loop ends: not out of fuel, and a panic has its length in the bytes.
  abbrev Ends : Bytes → Option (Result VersionEdit) → Type 0
  Ends r none = ⊥
  Ends r (some (ok ve)) = Unit
  Ends r (some (err c)) = Unit
  Ends r (some panic) = HasHugeLength r

  Ends-Behind :
      (r rest : Bytes) (o : Option (Result VersionEdit)) → Behind r rest → Ends rest o → Ends r o
  Ends-Behind r rest none b h = h
  Ends-Behind r rest (some (ok ve)) b h = tt
  Ends-Behind r rest (some (err c)) b h = tt
  Ends-Behind r rest (some panic) b h = HasHugeLength-Behind r rest b h

  -- What the loop makes of an entry behind the tag.
  abbrev after_entry : ℕ → Result (VersionEdit × Bytes) → Option (Result VersionEdit)
  after_entry fuel (ok p) = decode_loop fuel p.0 p.1
  after_entry fuel (err c) = some (err c)
  after_entry fuel panic = some panic

  -- With more fuel than bytes the loop ends.
  after_entry-Ends :
      (fuel : ℕ) (r : Bytes) (m : Result (VersionEdit × Bytes))
      → FromFront r m
      → ((ve : VersionEdit) (rest : Bytes)
          → length rest ≤ length r
          → Ends rest (decode_loop fuel ve rest))
      → Ends r (after_entry fuel m)
  after_entry-Ends fuel r (ok (ve, rest)) f ih =
      Ends-Behind r rest (decode_loop fuel ve rest) f (ih ve rest (Behind-le r rest f))
  after_entry-Ends fuel r (err c) f ih = tt
  after_entry-Ends fuel r panic f ih = f

  decode_loop-Ends :
      (fuel : ℕ) (ve : VersionEdit) (r : Bytes) → length r < fuel → Ends r (decode_loop fuel ve r)
  unfolding decode_loop
  decode_loop-Ends zero ve r h = absurd (omega arith)
  decode_loop-Ends (suc fuel) ve r h = elim (Option-cases (read_varint 32 r)) [
    | inl e ↦ rw (decode_loop, e) tt
    | inr ((n, r1), e) ↦ elim (Option-cases (tag_to_enum n)) [
      | inl t ↦ rw (decode_loop, e, t) tt
      | inr (tag, t) ↦
          rw (decode_loop, e, t)
            (Ends-Behind r r1 (after_entry fuel (decode_entry ve tag r1))
              (ie.read_varint_drops 32 r n r1 e)
              (after_entry-Ends fuel r1 (decode_entry ve tag r1) (decode_entry-FromFront ve tag r1)
                (λ ve' r2 le.
                  decode_loop-Ends fuel ve' r2
                    (omega (arith, ie.read_varint_takes 32 r n r1 e, le)))))
    ]
  ]

  Ends-cases :
      (src : Bytes) (o : Option (Result VersionEdit))
      → Ends src o
      → ((ve : VersionEdit) × (o ≡ some (ok ve)))
        ⊎ ((c : StatusCode) × (o ≡ some (err c)))
        ⊎ ((o ≡ some panic) × HasHugeLength src)
  Ends-cases src none h = absurd h
  Ends-cases src (some (ok ve)) h = inl (ve, refl)
  Ends-cases src (some (err c)) h = inr (inl (c, refl))
  Ends-cases src (some panic) h = inr (inr (refl, h))

  -- Where no allocation of isize::MAX bytes or less fails, decode_from ends on any bytes: with an edit,
  -- with an error, or with a panic; and with the panic only where somewhere in the bytes stands a length
  -- of 2^63 or more that fewer bytes follow.
  pub decode_from-ends :
      (src : Bytes)
      → ((ve : VersionEdit) × (decode_from src ≡ some (ok ve)))
        ⊎ ((c : StatusCode) × (decode_from src ≡ some (err c)))
        ⊎ ((decode_from src ≡ some panic) × HasHugeLength src)
  unfolding decode_from
  decode_from-ends src =
      Ends-cases src (decode_from src) (decode_loop-Ends (suc (length src)) new src (omega arith))

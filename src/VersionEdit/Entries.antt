-- ===== src/VersionEdit/Entries.antt =====
-- src/version_edit.rs: the loop of decode_from over one part of what encode wrote.
use leveldb_rs.VersionEdit.{tag_number}
use leveldb_rs.Base.{
  ℕ, zero, suc, ◌≤◌, ◌<◌, ◌≡◌, refl, ap, arith, true, false, Option, none, some, List, [], ◌∷◌,
  ◌++◌, length, length-append, append_assoc, append-nil, take_append, drop_append, All,
  Option-cases, inl, inr,
}
use leveldb_rs.Coding.{Bytes, IsU64, IntegerEncoding, encode_var, read_varint}
use leveldb_rs.VersionEdit.Utf8.{is_utf8}
use leveldb_rs.VersionEdit.Termination.{tag_to_enum-number, tag_number-lt}
use leveldb_rs.VersionEdit.{
  ok, or_io_error, CompactionPointer, FileMetaData, EditTag, comparator, log_number,
  next_file_number, last_sequence, compact_pointer, deleted_file, prev_log_number, VersionEdit,
  edit, new, contains, read_length_prefixed, write_tag, write_prefixed, write_comparator,
  write_number, write_ptrs, write_deleted, decode_entry, decode_loop, set_comparator_name,
}
use mathlib.Core.Path.{subst, subst⁻¹}

abbrev pub Fits : Option ℕ → Type 0
Fits none = Unit {0}
Fits (some n) = IsU64 n

abbrev pub IsName : Option Bytes → Type 0
IsName none = Unit {0}
IsName (some c) = (is_utf8 c ≡ true) × IsU64 (length c)

abbrev pub PtrFits : CompactionPointer → Type 0
PtrFits p = IsU64 p.level × IsU64 (length p.key)

abbrev pub PairFits : ℕ × ℕ → Type 0
PairFits d = IsU64 d.0 × IsU64 d.1

abbrev pub FileFits : ℕ × FileMetaData → Type 0
FileFits f =
    IsU64 f.0
    × IsU64 f.1.num
    × IsU64 f.1.size
    × IsU64 (length f.1.smallest)
    × IsU64 (length f.1.largest)

-- No pair of `ds` stands in `seen` or twice in `ds`.
abbrev pub Distinct : List (ℕ × ℕ) → List (ℕ × ℕ) → Type 0
Distinct seen [] = Unit {0}
Distinct seen (d ∷ ds) = (contains seen d ≡ false) × Distinct (seen ++ d ∷ []) ds

-- Every number is a u64, every length a usize, the comparator's name is UTF-8, and `deleted` is a set.
pub record Encodable (ve : VersionEdit) : Type 0 where
  pub name : IsName ve.comparator
  pub log : Fits ve.log_number
  pub prev_log : Fits ve.prev_log_number
  pub next_file : Fits ve.next_file_number
  pub last : Fits ve.last_seq
  pub ptrs : All PtrFits ve.compaction_ptrs
  pub pairs : All PairFits ve.deleted
  pub distinct : Distinct [] ve.deleted
  pub files : All FileFits ve.new_files

-- The budget of seeks is not written.
abbrev pub without_seeks : List (ℕ × FileMetaData) → List (ℕ × FileMetaData)
without_seeks [] = []
without_seeks ((level, f) ∷ fs) = (level, record f { allowed_seeks = 0 }) ∷ without_seeks fs

module _ ⦃ie : IntegerEncoding⦄ where
  -- The loop, entered with `ve` and with fuel for the bytes, answers `out`.
  abbrev pub Decodes : VersionEdit → Bytes → VersionEdit → Type 0
  Decodes ve src out = (fuel : ℕ) → length src < fuel → decode_loop fuel ve src ≡ some (ok out)

  read_varint-nil : (w : ℕ) → read_varint w [] ≡ none
  read_varint-nil w = elim (Option-cases (read_varint w [])) [
    | inl e ↦ e
    | inr ((n, rest), e) ↦ absurd (omega (arith, ie.read_varint_takes w [] n rest e))
  ]

  pub nothing_left : (ve : VersionEdit) → Decodes ve [] ve
  unfolding decode_loop
  nothing_left ve zero h = absurd (omega arith)
  nothing_left ve (suc fuel) h = rw (decode_loop, read_varint-nil 32) refl

  -- One entry.
  pub entry_step :
      (ve ve' out : VersionEdit) (t : EditTag) (body rest : Bytes)
      → decode_entry ve t body ≡ ok (ve', rest)
      → length rest ≤ length body
      → Decodes ve' rest out
      → Decodes ve (write_tag t ++ body) out
  unfolding write_tag decode_loop
  entry_step ve ve' out t body rest e l k zero h = absurd (omega arith)
  entry_step ve ve' out t body rest e l k (suc fuel) h =
      rw
        (
          decode_loop,
          ie.read-encode_var 32 (tag_number t) body (omega arith) (tag_number-lt t),
          tag_to_enum-number t,
          e,
        )
        (k fuel (
          omega (
            arith,
            l,
            length-append (encode_var (tag_number t)) body,
            ie.length-encode_var (tag_number t),
            ie.required_space_pos (tag_number t),
          )))

  pub length-rest : (a rest : Bytes) → length rest ≤ length (a ++ rest)
  length-rest a rest = omega (arith, length-append a rest)

  pub read_u64 :
      (n : ℕ) (rest : Bytes)
      → IsU64 n
      → or_io_error (read_varint 64 (encode_var n ++ rest)) ≡ ok (n, rest)
  read_u64 n rest h = ap or_io_error (ie.read-encode_var 64 n rest (omega arith) h)

  pub read-write_prefixed :
      (s rest : Bytes)
      → IsU64 (length s)
      → read_length_prefixed (write_prefixed s ++ rest) ≡ ok (s, rest)
  unfolding write_prefixed read_length_prefixed
  read-write_prefixed s rest h =
      rw
        (
          append_assoc (encode_var (length s)) s rest,
          read_length_prefixed,
          read_u64 (length s) (s ++ rest) h,
        )
        (ground (
          arith,
          length-append s rest,
          take_append (length s) s rest refl,
          drop_append (length s) s rest refl,
        ))

  comparator_step :
      (ve out : VersionEdit) (c rest : Bytes)
      → is_utf8 c ≡ true
      → IsU64 (length c)
      → Decodes (set_comparator_name ve c) rest out
      → Decodes ve ((write_tag comparator ++ write_prefixed c) ++ rest) out
  unfolding decode_entry
  comparator_step ve out c rest u h k =
      rw (append_assoc (write_tag comparator) (write_prefixed c) rest) (
        entry_step ve (set_comparator_name ve c) out comparator (write_prefixed c ++ rest) rest
          (rw (decode_entry, read-write_prefixed c rest h, u) refl)
          (length-rest (write_prefixed c) rest) k)

  -- The four entries of one number.
  number_step :
      (ve ve' out : VersionEdit) (t : EditTag) (n : ℕ) (rest : Bytes)
      → decode_entry ve t (encode_var n ++ rest) ≡ ok (ve', rest)
      → Decodes ve' rest out
      → Decodes ve ((write_tag t ++ encode_var n) ++ rest) out
  number_step ve ve' out t n rest e k =
      rw (append_assoc (write_tag t) (encode_var n) rest)
        (entry_step ve ve' out t (encode_var n ++ rest) rest e (length-rest (encode_var n) rest) k)

  pub name_part :
      (c : Option Bytes) (out : VersionEdit) (rest : Bytes)
      → IsName c
      → Decodes (edit c none none none none [] [] []) rest out
      → Decodes new (write_comparator c ++ rest) out
  unfolding write_comparator new
  name_part none out rest h k = k
  name_part (some c) out rest h k = comparator_step new out c rest h.0 h.1 k

  pub log_part :
      (c : Option Bytes) (l : Option ℕ) (out : VersionEdit) (rest : Bytes)
      → Fits l
      → Decodes (edit c l none none none [] [] []) rest out
      → Decodes (edit c none none none none [] [] []) (write_number log_number l ++ rest) out
  unfolding write_number decode_entry
  log_part c none out rest h k = k
  log_part c (some x) out rest h k =
      number_step _ (edit c (some x) none none none [] [] []) out log_number x rest
        (rw (decode_entry, read_u64 x rest h) refl) k

  pub prev_log_part :
      (c : Option Bytes) (l p : Option ℕ) (out : VersionEdit) (rest : Bytes)
      → Fits p
      → Decodes (edit c l p none none [] [] []) rest out
      → Decodes (edit c l none none none [] [] []) (write_number prev_log_number p ++ rest) out
  unfolding write_number decode_entry
  prev_log_part c l none out rest h k = k
  prev_log_part c l (some x) out rest h k =
      number_step _ (edit c l (some x) none none [] [] []) out prev_log_number x rest
        (rw (decode_entry, read_u64 x rest h) refl) k

  pub next_file_part :
      (c : Option Bytes) (l p n : Option ℕ) (out : VersionEdit) (rest : Bytes)
      → Fits n
      → Decodes (edit c l p n none [] [] []) rest out
      → Decodes (edit c l p none none [] [] []) (write_number next_file_number n ++ rest) out
  unfolding write_number decode_entry
  next_file_part c l p none out rest h k = k
  next_file_part c l p (some x) out rest h k =
      number_step _ (edit c l p (some x) none [] [] []) out next_file_number x rest
        (rw (decode_entry, read_u64 x rest h) refl) k

  pub last_seq_part :
      (c : Option Bytes) (l p n s : Option ℕ) (out : VersionEdit) (rest : Bytes)
      → Fits s
      → Decodes (edit c l p n s [] [] []) rest out
      → Decodes (edit c l p n none [] [] []) (write_number last_sequence s ++ rest) out
  unfolding write_number decode_entry
  last_seq_part c l p n none out rest h k = k
  last_seq_part c l p n (some x) out rest h k =
      number_step _ (edit c l p n (some x) [] [] []) out last_sequence x rest
        (rw (decode_entry, read_u64 x rest h) refl) k

  module _ (c : Option Bytes) (l p n s : Option ℕ) (out : VersionEdit) where
    pub ptrs_part :
        (before ps : List CompactionPointer) (rest : Bytes)
        → All PtrFits ps
        → Decodes (edit c l p n s (before ++ ps) [] []) rest out
        → Decodes (edit c l p n s before [] []) (write_ptrs ps rest) out
    unfolding write_ptrs decode_entry
    ptrs_part before [] rest h k =
        subst (λ t. Decodes (edit c l p n s t [] []) rest out) (append-nil before) k
    ptrs_part before (x ∷ ps) rest h k =
        let more = write_ptrs ps rest in
        entry_step (edit c l p n s before [] []) (edit c l p n s (before ++ x ∷ []) [] []) out
          compact_pointer (encode_var x.level ++ (write_prefixed x.key ++ more)) more
          (rw
            (
              decode_entry,
              read_u64 x.level (write_prefixed x.key ++ more) h.0.0,
              read-write_prefixed x.key more h.0.1,
            )
            refl)
          (omega (
            arith,
            length-rest (encode_var x.level) (write_prefixed x.key ++ more),
            length-rest (write_prefixed x.key) more,
          ))
          (ptrs_part (before ++ x ∷ []) ps rest h.1 (
            subst⁻¹ (λ t. Decodes (edit c l p n s t [] []) rest out)
              (append_assoc before (x ∷ []) ps) k))

    pub deleted_part :
        (ptrs : List CompactionPointer) (before ds : List (ℕ × ℕ)) (rest : Bytes)
        → All PairFits ds
        → Distinct before ds
        → Decodes (edit c l p n s ptrs (before ++ ds) []) rest out
        → Decodes (edit c l p n s ptrs before []) (write_deleted ds rest) out
    unfolding write_deleted decode_entry
    deleted_part ptrs before [] rest h d k =
        subst (λ t. Decodes (edit c l p n s ptrs t []) rest out) (append-nil before) k
    deleted_part ptrs before ((level, num) ∷ ds) rest h d k =
        let more = write_deleted ds rest in
        entry_step (edit c l p n s ptrs before [])
          (edit c l p n s ptrs (before ++ (level, num) ∷ []) []) out deleted_file
          (encode_var level ++ (encode_var num ++ more)) more
          (rw
            (
              decode_entry,
              read_u64 level (encode_var num ++ more) h.0.0,
              read_u64 num more h.0.1,
              d.0,
            )
            refl)
          (omega (
            arith,
            length-rest (encode_var level) (encode_var num ++ more),
            length-rest (encode_var num) more,
          ))
          (deleted_part ptrs (before ++ (level, num) ∷ []) ds rest h.1 d.1 (
            subst⁻¹ (λ t. Decodes (edit c l p n s ptrs t []) rest out)
              (append_assoc before ((level, num) ∷ []) ds) k))

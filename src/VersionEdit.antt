-- ===== src/VersionEdit.antt =====
-- src/version_edit.rs: changes to the set of tables and logs, and their encoding in the MANIFEST; and
-- FileMetaData of src/types.rs. Bytes are read from the front of a slice, as `&mut &[u8]` is.
mod Utf8
pub mod Termination
mod Entries
pub mod RoundTrip
pub mod Tests
use leveldb_rs.Base.{
  ℕ, zero, suc, ◌+◌, ◌-◌, Bool, true, false, ◌&&◌, Option, none, some, List, [], ◌∷◌, ◌++◌, length,
  take, drop, leb, ltb, ◌^◌, ◌==◌, if◌then◌else◌,
}
use leveldb_rs.Coding.{Bytes, IntegerEncoding, encode_var, read_varint}
use leveldb_rs.VersionEdit.Utf8.{is_utf8}

-- The status codes that decoding answers.
pub data StatusCode : Type 0 where
  corruption io_error : StatusCode

-- What a call comes to: an answer, an error, or a panic.
pub data Result (A : Type 0) : Type 0 where
  ok : A → Result A
  err : StatusCode → Result A
  panic : Result A

infixl 5 ◌>>=◌
abbrev pub ◌>>=◌ : {A B : Type 0} → Result A → (A → Result B) → Result B
ok a >>= f = f a
err e >>= f = err e
panic >>= f = panic

abbrev pub or_io_error : {A : Type 0} → Option A → Result A
or_io_error none = err io_error
or_io_error (some a) = ok a

pub record CompactionPointer : Type 0 where
  pub level : ℕ
  pub key : Bytes

pub record FileMetaData : Type 0 where
  pub allowed_seeks : ℕ
  pub num : ℕ
  pub size : ℕ
  pub smallest : Bytes
  pub largest : Bytes

pub data EditTag : Type 0 where
  comparator log_number next_file_number last_sequence compact_pointer deleted_file new_file
        prev_log_number :
      EditTag

unfoldable pub tag_number : EditTag → ℕ
tag_number comparator = 1
tag_number log_number = 2
tag_number next_file_number = 3
tag_number last_sequence = 4
tag_number compact_pointer = 5
tag_number deleted_file = 6
tag_number new_file = 7
tag_number prev_log_number = 9

unfoldable pub tag_to_enum : ℕ → Option EditTag
tag_to_enum t =
    if t == 1
    then some comparator
    else if t == 2
    then some log_number
    else if t == 3
    then some next_file_number
    else if t == 4
    then some last_sequence
    else if t == 5
    then some compact_pointer
    else if t == 6
    then some deleted_file
    else if t == 7
    then some new_file
    else if t == 9
    then some prev_log_number
    else none

-- `deleted` is a hash set: the list of its elements in the order of its iteration.
pub record VersionEdit : Type 0 where
  pub comparator : Option Bytes
  pub log_number : Option ℕ
  pub prev_log_number : Option ℕ
  pub next_file_number : Option ℕ
  pub last_seq : Option ℕ
  pub compaction_ptrs : List CompactionPointer
  pub deleted : List (ℕ × ℕ)
  pub new_files : List (ℕ × FileMetaData)

abbrev pub edit :
    Option Bytes
    → Option ℕ
    → Option ℕ
    → Option ℕ
    → Option ℕ
    → List CompactionPointer
    → List (ℕ × ℕ)
    → List (ℕ × FileMetaData)
    → VersionEdit
edit c l p n s ptrs del files = record {
  comparator = c;
  log_number = l;
  prev_log_number = p;
  next_file_number = n;
  last_seq = s;
  compaction_ptrs = ptrs;
  deleted = del;
  new_files = files;
}

unfoldable pub new : VersionEdit
new = edit none none none none none [] [] []

pub clear : VersionEdit → VersionEdit
clear ve = new

abbrev pub add_file : VersionEdit → ℕ → FileMetaData → VersionEdit
add_file ve level file = record ve { new_files = ve.new_files ++ (level, file) ∷ [] }

unfoldable pub contains : List (ℕ × ℕ) → ℕ × ℕ → Bool
contains [] e = false
contains (d ∷ ds) e =
    let rest = contains ds e in if (d.0 == e.0) && (d.1 == e.1) then true else rest

abbrev pub delete_file : VersionEdit → ℕ → ℕ → VersionEdit
delete_file ve level file_num =
    if contains ve.deleted (level, file_num)
    then ve
    else record ve { deleted = ve.deleted ++ (level, file_num) ∷ [] }

abbrev pub set_comparator_name : VersionEdit → Bytes → VersionEdit
set_comparator_name ve name = record ve { comparator = some name }

abbrev pub set_log_num : VersionEdit → ℕ → VersionEdit
set_log_num ve num = record ve { log_number = some num }

abbrev pub set_prev_log_num : VersionEdit → ℕ → VersionEdit
set_prev_log_num ve num = record ve { prev_log_number = some num }

abbrev pub set_last_seq : VersionEdit → ℕ → VersionEdit
set_last_seq ve num = record ve { last_seq = some num }

abbrev pub set_next_file : VersionEdit → ℕ → VersionEdit
set_next_file ve num = record ve { next_file_number = some num }

abbrev pub set_compact_pointer : VersionEdit → ℕ → Bytes → VersionEdit
set_compact_pointer ve level key = record ve {
  compaction_ptrs = ve.compaction_ptrs ++ record { level = level; key = key } ∷ [];
}

-- The length of a buffer that `resize` makes is at most isize::MAX.
abbrev pub max_capacity : ℕ
max_capacity = 2 ^ 63 - 1

-- The read takes what is there; a short read is an error. A buffer of more than `max_capacity` bytes
-- panics before the read; a slice is never as long, so this is asked where the slice is too short.
abbrev pub read_key : ℕ → Bytes → Result (Bytes × Bytes)
read_key klen rest =
    if leb klen (length rest)
    then ok (take klen rest, drop klen rest)
    else if ltb max_capacity klen
    then panic
    else err io_error

module _ ⦃ie : IntegerEncoding⦄ where
  unfoldable pub read_length_prefixed : Bytes → Result (Bytes × Bytes)
  read_length_prefixed reader = do
    (klen, rest) ← or_io_error (read_varint 64 reader)
    read_key klen rest

  unfoldable pub write_tag : EditTag → Bytes
  write_tag t = encode_var (tag_number t)

  unfoldable pub write_prefixed : Bytes → Bytes
  write_prefixed s = encode_var (length s) ++ s

  unfoldable pub write_comparator : Option Bytes → Bytes
  write_comparator none = []
  write_comparator (some c) = write_tag comparator ++ write_prefixed c

  unfoldable pub write_number : EditTag → Option ℕ → Bytes
  write_number t none = []
  write_number t (some n) = write_tag t ++ encode_var n

  unfoldable pub write_ptrs : List CompactionPointer → Bytes → Bytes
  write_ptrs [] rest = rest
  write_ptrs (p ∷ ps) rest =
      write_tag compact_pointer
      ++ (encode_var p.level ++ (write_prefixed p.key ++ write_ptrs ps rest))

  unfoldable pub write_deleted : List (ℕ × ℕ) → Bytes → Bytes
  write_deleted [] rest = rest
  write_deleted ((level, num) ∷ ds) rest =
      write_tag deleted_file ++ (encode_var level ++ (encode_var num ++ write_deleted ds rest))

  unfoldable pub write_files : List (ℕ × FileMetaData) → Bytes
  write_files [] = []
  write_files ((level, f) ∷ fs) =
      write_tag new_file
      ++ (encode_var level
          ++ (encode_var f.num
              ++ (encode_var f.size
                  ++ (write_prefixed f.smallest ++ (write_prefixed f.largest ++ write_files fs)))))

  -- `write_ptrs` and `write_deleted` take what is written behind them.
  unfoldable pub encode : VersionEdit → Bytes
  encode ve =
      write_comparator ve.comparator
      ++ (write_number log_number ve.log_number
          ++ (write_number prev_log_number ve.prev_log_number
              ++ (write_number next_file_number ve.next_file_number
                  ++ (write_number last_sequence ve.last_seq
                      ++ write_ptrs ve.compaction_ptrs
                          (write_deleted ve.deleted (write_files ve.new_files))))))

  -- The `match` on a tag: the edit and what is left of the slice.
  unfoldable pub decode_entry : VersionEdit → EditTag → Bytes → Result (VersionEdit × Bytes)
  decode_entry ve comparator reader = do
    (buf, rest) ← read_length_prefixed reader
    if is_utf8 buf then ok (set_comparator_name ve buf, rest) else err corruption
  decode_entry ve log_number reader = do
    (ln, rest) ← or_io_error (read_varint 64 reader)
    ok (set_log_num ve ln, rest)
  decode_entry ve prev_log_number reader = do
    (ln, rest) ← or_io_error (read_varint 64 reader)
    ok (set_prev_log_num ve ln, rest)
  decode_entry ve next_file_number reader = do
    (nfn, rest) ← or_io_error (read_varint 64 reader)
    ok (set_next_file ve nfn, rest)
  decode_entry ve last_sequence reader = do
    (ls, rest) ← or_io_error (read_varint 64 reader)
    ok (set_last_seq ve ls, rest)
  decode_entry ve compact_pointer reader = do
    (lvl, r1) ← or_io_error (read_varint 64 reader)
    (key, r2) ← read_length_prefixed r1
    ok (set_compact_pointer ve lvl key, r2)
  decode_entry ve deleted_file reader = do
    (lvl, r1) ← or_io_error (read_varint 64 reader)
    (num, r2) ← or_io_error (read_varint 64 r1)
    ok (delete_file ve lvl num, r2)
  decode_entry ve new_file reader = do
    (lvl, r1) ← or_io_error (read_varint 64 reader)
    (num, r2) ← or_io_error (read_varint 64 r1)
    (size, r3) ← or_io_error (read_varint 64 r2)
    (smallest, r4) ← read_length_prefixed r3
    (largest, r5) ← read_length_prefixed r4
    ok (
      add_file ve lvl (record {
        allowed_seeks = 0;
        num = num;
        size = size;
        smallest = smallest;
        largest = largest;
      }),
      r5,
    )

  -- The `while let` loop; the outer `none` is the model out of fuel. A tag that cannot be read ends it.
  unfoldable pub decode_loop : ℕ → VersionEdit → Bytes → Option (Result VersionEdit)
  decode_loop zero ve reader = none
  decode_loop (suc fuel) ve reader = elim (read_varint 32 reader) [
    | none ↦ some (ok ve)
    | some (n, r) ↦ elim (tag_to_enum n) [
      | none ↦ some (err corruption)
      | some tag ↦ elim (decode_entry ve tag r) [
        | err e ↦ some (err e)
        | panic ↦ some panic
        | ok (ve', r') ↦ decode_loop fuel ve' r'
      ]
    ]
  ]

  -- Every round takes a byte at least.
  unfoldable pub decode_from : Bytes → Option (Result VersionEdit)
  decode_from src = decode_loop (suc (length src)) new src

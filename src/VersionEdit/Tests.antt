-- ===== src/VersionEdit/Tests.antt =====
-- The edit of the source's own test, and the theorems at it and at bytes that do not decode.
use leveldb_rs.Base.{ℕ, ◌≡◌, refl, arith, some, none, ◌⊎◌, [], ◌∷◌}
use leveldb_rs.Coding.{Bytes}
use leveldb_rs.Coding.Leb128.{leb128, ungroup}
use leveldb_rs.VersionEdit.Utf8.{is_utf8_from}
use leveldb_rs.VersionEdit.{
  ok, err, panic, StatusCode, corruption, io_error, decode_entry, read_length_prefixed, VersionEdit,
  FileMetaData, CompactionPointer, edit, encode, decode_from, decode_loop, tag_to_enum, contains,
}
use leveldb_rs.VersionEdit.Entries.{Encodable, without_seeks}
use leveldb_rs.VersionEdit.RoundTrip.{decode_from-encode}
use leveldb_rs.VersionEdit.Termination.{decode_from-ends, HasHugeLength}

abbrev sample_file : FileMetaData
sample_file = record {
  allowed_seeks = 12345;
  num = 901;
  size = 234;
  smallest = 5 ∷ 6 ∷ 7 ∷ [];
  largest = 8 ∷ 9 ∷ 0 ∷ [];
}

abbrev ptr : ℕ → ℕ → CompactionPointer
ptr level n = record { level = level; key = n ∷ n ∷ [] }

-- "lvl", log 123, next file 456.
abbrev sample : VersionEdit
sample =
    edit (some (108 ∷ 118 ∷ 108 ∷ [])) (some 123) none (some 456) none (ptr 0 1 ∷ ptr 1 3 ∷ [])
      ((1, 132) ∷ (2, 132) ∷ []) ((0, sample_file) ∷ [])

sample-Encodable : Encodable sample
unfolding is_utf8_from contains
sample-Encodable = record {
  name = (refl, omega arith);
  log = omega arith;
  prev_log = tt;
  next_file = omega arith;
  last = tt;
  ptrs = ((omega arith, omega arith), ((omega arith, omega arith), tt));
  pairs = ((omega arith, omega arith), ((omega arith, omega arith), tt));
  distinct = (refl, (refl, tt));
  files = ((omega arith, omega arith, omega arith, omega arith, omega arith), tt);
}

bad_tag : decode_from (8 ∷ []) ≡ some (err corruption)
unfolding decode_from decode_loop ungroup tag_to_enum
bad_tag = refl

decode_from-encode_example :
    decode_from (encode sample)
    ≡ some (ok (record sample { new_files = without_seeks sample.new_files }))
decode_from-encode_example = decode_from-encode sample sample-Encodable

-- A comparator's name whose length says 2^64 - 1.
abbrev huge_name : Bytes
huge_name = 1 ∷ 255 ∷ 255 ∷ 255 ∷ 255 ∷ 255 ∷ 255 ∷ 255 ∷ 255 ∷ 255 ∷ 1 ∷ []

huge_name_panics : decode_from huge_name ≡ some panic
unfolding decode_from decode_loop decode_entry read_length_prefixed ungroup tag_to_enum
huge_name_panics = refl

-- A short one: an error.
short_name_fails : decode_from (1 ∷ 5 ∷ 97 ∷ []) ≡ some (err io_error)
unfolding decode_from decode_loop decode_entry read_length_prefixed ungroup tag_to_enum
short_name_fails = refl

decode_from-ends_example :
    ((ve : VersionEdit) × (decode_from huge_name ≡ some (ok ve)))
    ⊎ ((c : StatusCode) × (decode_from huge_name ≡ some (err c)))
    ⊎ ((decode_from huge_name ≡ some panic) × HasHugeLength huge_name)
decode_from-ends_example = decode_from-ends huge_name

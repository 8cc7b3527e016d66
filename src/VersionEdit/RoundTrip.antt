-- ===== src/VersionEdit/RoundTrip.antt =====
-- src/version_edit.rs: decode_from gives back what encode wrote.
use leveldb_rs.Base.{
  ℕ, suc, ◌≡◌, refl, arith, Option, some, List, [], ◌∷◌, ◌++◌, length, append_assoc, append-nil,
  All,
}
use leveldb_rs.Coding.{Bytes, IntegerEncoding, encode_var}
use leveldb_rs.VersionEdit.{
  ok, CompactionPointer, FileMetaData, new_file, VersionEdit, edit, write_prefixed, write_files,
  encode, decode_entry, decode_from, add_file,
}
use mathlib.Core.Path.{subst, subst⁻¹}
use leveldb_rs.VersionEdit.Entries.{
  FileFits, Encodable, without_seeks, Decodes, nothing_left, entry_step, length-rest, read_u64,
  read-write_prefixed, name_part, log_part, prev_log_part, next_file_part, last_seq_part, ptrs_part,
  deleted_part,
}

module _ ⦃ie : IntegerEncoding⦄ where
  file_read :
      (ve : VersionEdit) (level : ℕ) (f : FileMetaData) (more : Bytes)
      → FileFits (level, f)
      → decode_entry ve new_file (
          encode_var level
          ++ (encode_var f.num
              ++ (encode_var f.size
                  ++ (write_prefixed f.smallest ++ (write_prefixed f.largest ++ more)))))
        ≡ ok (add_file ve level (record f { allowed_seeks = 0 }), more)
  unfolding decode_entry
  file_read ve level f more h =
      let m4 = write_prefixed f.largest ++ more in
      let m3 = write_prefixed f.smallest ++ m4 in
      let m2 = encode_var f.size ++ m3 in
      let m1 = encode_var f.num ++ m2 in
      rw
        (
          read_u64 level m1 h.0,
          read_u64 f.num m2 h.1,
          read_u64 f.size m3 h.2,
          read-write_prefixed f.smallest m4 h.3,
          read-write_prefixed f.largest more h.4,
        )
        refl

  files_part :
      (c : Option Bytes) (l p n s : Option ℕ) (ptrs : List CompactionPointer) (del : List (ℕ × ℕ))
      (before fs : List (ℕ × FileMetaData))
      → All FileFits fs
      → Decodes
          (edit c l p n s ptrs del before)
          (write_files fs)
          (edit c l p n s ptrs del (before ++ without_seeks fs))
  unfolding write_files
  files_part c l p n s ptrs del before [] h =
      subst⁻¹ (λ t. Decodes (edit c l p n s ptrs del before) [] (edit c l p n s ptrs del t))
        (append-nil before) (nothing_left (edit c l p n s ptrs del before))
  files_part c l p n s ptrs del before ((level, f) ∷ fs) h =
      let more = write_files fs in
      let f' : FileMetaData = record f { allowed_seeks = 0 } in
      let m4 = write_prefixed f.largest ++ more in
      let m3 = write_prefixed f.smallest ++ m4 in
      let m2 = encode_var f.size ++ m3 in
      let m1 = encode_var f.num ++ m2 in
      entry_step (edit c l p n s ptrs del before)
        (edit c l p n s ptrs del (before ++ (level, f') ∷ []))
        (edit c l p n s ptrs del (before ++ ((level, f') ∷ without_seeks fs))) new_file
        (encode_var level ++ m1) more (file_read (edit c l p n s ptrs del before) level f more h.0)
        (omega (
          arith,
          length-rest (encode_var level) m1,
          length-rest (encode_var f.num) m2,
          length-rest (encode_var f.size) m3,
          length-rest (write_prefixed f.smallest) m4,
          length-rest (write_prefixed f.largest) more,
        ))
        (subst
          (λ t.
            Decodes (edit c l p n s ptrs del (before ++ (level, f') ∷ [])) more
              (edit c l p n s ptrs del t))
          (append_assoc before ((level, f') ∷ []) (without_seeks fs))
          (files_part c l p n s ptrs del (before ++ (level, f') ∷ []) fs h.1))

  -- An edit whose numbers and lengths fit 64 bits, whose comparator name is UTF-8 and whose deleted
  -- files are distinct is decoded from its encoding, with every file's allowed_seeks at 0.
  pub decode_from-encode :
      (ve : VersionEdit)
      → Encodable ve
      → decode_from (encode ve) ≡ some (ok (record ve { new_files = without_seeks ve.new_files }))
  unfolding decode_from encode
  decode_from-encode ve h =
      let c = ve.comparator in
      let l = ve.log_number in
      let p = ve.prev_log_number in
      let n = ve.next_file_number in
      let s = ve.last_seq in
      let ptrs = ve.compaction_ptrs in
      let del = ve.deleted in
      let out = record ve { new_files = without_seeks ve.new_files } in
      let k6 = files_part c l p n s ptrs del [] ve.new_files h.files in
      let k5 =
        deleted_part c l p n s out ptrs [] del (write_files ve.new_files) h.pairs h.distinct k6 in
      let k4 = ptrs_part c l p n s out [] ptrs _ h.ptrs k5 in
      let k3 = last_seq_part c l p n s out _ h.last k4 in
      let k2 = next_file_part c l p n out _ h.next_file k3 in
      let k1 = prev_log_part c l p out _ h.prev_log k2 in
      let k0 = log_part c l out _ h.log k1 in
      name_part c out _ h.name k0 (suc (length (encode ve))) (omega arith)

-- ===== src/FileName/Tests.antt =====
-- Runs from the source's own test.
use leveldb_rs.Base.{arith}
use leveldb_rs.FileName.Numbered.{ascii, parse_file_name-numbered}
use leveldb_rs.Base.{◌≡◌, refl, some, none, [], ◌∷◌, ◌++◌}
use leveldb_rs.FileName.{
  info_log, descriptor, table, same, starts_with, find, digits_from, from_str_radix, extension_type,
  parse_numbered, parse_manifest, parse_file_name, old_log_name, manifest_prefix,
}

parses_old_log : parse_file_name old_log_name ≡ some (0, info_log)
unfolding parse_file_name same
parses_old_log = refl

parses_manifest :
    parse_file_name (manifest_prefix ++ (b'0' ∷ b'1' ∷ b'2' ∷ [])) ≡ some (12, descriptor)
unfolding parse_file_name same starts_with parse_manifest find from_str_radix digits_from
parses_manifest = refl

parses_table :
    parse_file_name (b'0' ∷ b'1' ∷ b'1' ∷ b'.' ∷ b'l' ∷ b'd' ∷ b'b' ∷ []) ≡ some (11, table)
unfolding parse_file_name same starts_with parse_numbered find from_str_radix digits_from
    extension_type
parses_table = refl

refuses_letters : parse_file_name (b'0' ∷ b'a' ∷ b'.' ∷ b's' ∷ b's' ∷ b't' ∷ []) ≡ none
unfolding parse_file_name same starts_with parse_numbered find from_str_radix digits_from
    extension_type
refuses_letters = refl

parse_file_name-numbered_example :
    parse_file_name (ascii (0 ∷ 1 ∷ 1 ∷ []) ++ b'.' ∷ b'l' ∷ b'd' ∷ b'b' ∷ []) ≡ some (11, table)
unfolding extension_type same
parse_file_name-numbered_example =
    parse_file_name-numbered 0 (1 ∷ 1 ∷ []) (b'l' ∷ b'd' ∷ b'b' ∷ []) table
      (omega arith, (omega arith, (omega arith, tt))) (omega arith) refl

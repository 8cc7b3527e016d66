-- ===== src/FileName.antt =====
-- parse_file_name of src/types.rs. A name is the bytes of its UTF-8 encoding.
pub mod Numbered
mod Tests
use leveldb_rs.Base.{
  ℕ, suc, ◌+◌, ◌-◌, ◌*◌, ◌^◌, Bool, true, false, ◌&&◌, ◌||◌, Option, none, some, [], ◌∷◌, take,
  drop, leb, ltb, ◌==◌, if◌then◌else◌, assert, ◌>>=◌, ◌>>◌,
}
use leveldb_rs.Coding.{Bytes}
use mathlib.Core.Option

pub data FileType : Type 0 where
  log db_lock table descriptor current temp info_log : FileType

unfoldable pub same : Bytes → Bytes → Bool
same [] [] = true
same [] (y ∷ ys) = false
same (x ∷ xs) [] = false
same (x ∷ xs) (y ∷ ys) = x == y && same xs ys

unfoldable pub starts_with : Bytes → Bytes → Bool
starts_with xs [] = true
starts_with [] (y ∷ ys) = false
starts_with (x ∷ xs) (y ∷ ys) = x == y && starts_with xs ys

-- The index of the first byte `c`.
unfoldable pub find : Bytes → ℕ → Option ℕ
find [] c = none
find (x ∷ xs) c = let rest = find xs c in if x == c then some 0 else Option.map suc rest

-- `u64::from_str_radix(s, 10)` of the standard library: an optional plus sign and digits, one at least;
-- `none` for another character and for a number of more than 64 bits.
unfoldable pub digits_from : ℕ → Bytes → Option ℕ
digits_from n [] = some n
digits_from n (b ∷ bs) = do
  assert (leb 48 b && leb b 57)
  assert (ltb (n * 10 + (b - 48)) (2 ^ 64))
  digits_from (n * 10 + (b - 48)) bs

unfoldable pub from_str_radix : Bytes → Option ℕ
from_str_radix [] = none
from_str_radix (b ∷ []) = digits_from 0 (b ∷ [])
from_str_radix (b ∷ c ∷ bs) = if b == 43 then digits_from 0 (c ∷ bs) else digits_from 0 (b ∷ c ∷ bs)

abbrev pub current_name : Bytes
current_name = b'C' ∷ b'U' ∷ b'R' ∷ b'R' ∷ b'E' ∷ b'N' ∷ b'T' ∷ []

abbrev pub lock_name : Bytes
lock_name = b'L' ∷ b'O' ∷ b'C' ∷ b'K' ∷ []

abbrev pub log_name : Bytes
log_name = b'L' ∷ b'O' ∷ b'G' ∷ []

abbrev pub old_log_name : Bytes
old_log_name = b'L' ∷ b'O' ∷ b'G' ∷ b'.' ∷ b'o' ∷ b'l' ∷ b'd' ∷ []

abbrev pub manifest_prefix : Bytes
manifest_prefix = b'M' ∷ b'A' ∷ b'N' ∷ b'I' ∷ b'F' ∷ b'E' ∷ b'S' ∷ b'T' ∷ b'-' ∷ []

unfoldable pub extension_type : Bytes → Option FileType
extension_type ext =
    if same ext (b'l' ∷ b'o' ∷ b'g' ∷ [])
    then some log
    else if same ext (b's' ∷ b's' ∷ b't' ∷ []) || same ext (b'l' ∷ b'd' ∷ b'b' ∷ [])
    then some table
    else if same ext (b'd' ∷ b'b' ∷ b't' ∷ b'm' ∷ b'p' ∷ [])
    then some temp
    else none

-- 00012345.log 00123.sst ...
unfoldable pub parse_numbered : Bytes → Option (ℕ × FileType)
parse_numbered f = do
  ix ← find f b'.'
  num ← from_str_radix (take ix f)
  typ ← extension_type (drop (ix + 1) f)
  some (num, typ)

unfoldable pub parse_manifest : Bytes → Option (ℕ × FileType)
parse_manifest f = do
  ix ← find f b'-'
  num ← from_str_radix (drop (ix + 1) f)
  some (num, descriptor)

-- `none` is the status InvalidArgument, the only error.
unfoldable pub parse_file_name : Bytes → Option (ℕ × FileType)
parse_file_name f =
    if same f current_name
    then some (0, current)
    else if same f lock_name
    then some (0, db_lock)
    else if same f log_name || same f old_log_name
    then some (0, info_log)
    else if starts_with f manifest_prefix
    then parse_manifest f
    else parse_numbered f

-- ===== src/VersionEdit/Utf8.antt =====
-- `String::from_utf8` of Rust's standard library: which bytes are a string.
use leveldb_rs.Base.{
  ℕ, zero, suc, Bool, true, false, ◌&&◌, Option, none, some, [], ◌∷◌, leb, ltb, if◌then◌else◌,
}
use leveldb_rs.Coding.{Bytes}

-- How many bytes follow a first byte, and the bounds of the next one.
abbrev follow : ℕ → Option (ℕ × ℕ × ℕ)
follow b =
    if ltb b 0x80
    then some (0, 0x80, 0xbf)
    else if ltb b 0xc2
    then none
    else if ltb b 0xe0
    then some (1, 0x80, 0xbf)
    else if ltb b 0xe1
    then some (2, 0xa0, 0xbf)
    else if ltb b 0xed
    then some (2, 0x80, 0xbf)
    else if ltb b 0xee
    then some (2, 0x80, 0x9f)
    else if ltb b 0xf0
    then some (2, 0x80, 0xbf)
    else if ltb b 0xf1
    then some (3, 0x90, 0xbf)
    else if ltb b 0xf4
    then some (3, 0x80, 0xbf)
    else if ltb b 0xf5
    then some (3, 0x80, 0x8f)
    else none

-- `n` bytes of the current character are missing, the next between `lo` and `hi`.
unfoldable pub is_utf8_from : ℕ → ℕ → ℕ → Bytes → Bool
is_utf8_from zero lo hi [] = true
is_utf8_from (suc n) lo hi [] = false
is_utf8_from zero lo hi (b ∷ bs) = elim (follow b) [
  | none ↦ false
  | some (n, l, h) ↦ is_utf8_from n l h bs
]
is_utf8_from (suc n) lo hi (b ∷ bs) = (leb lo b && leb b hi) && is_utf8_from n 0x80 0xbf bs

abbrev pub is_utf8 : Bytes → Bool
is_utf8 s = is_utf8_from 0 0x80 0xbf s

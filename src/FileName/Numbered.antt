-- ===== src/FileName/Numbered.antt =====
-- parse_file_name of src/types.rs on the names of numbered files.
use leveldb_rs.Base.{
  ℕ, suc, ◌+◌, ◌-◌, ◌*◌, ◌≤◌, ◌<◌, ◌^◌, ◌≡◌, refl, ap, sym, ◌∙◌, arith, false, some, List, [], ◌∷◌,
  ◌++◌, length, All, ◌>>=◌, ◌==◌, take_append, drop-append_add,
}
use leveldb_rs.Coding.{Bytes}
use leveldb_rs.FileName.{
  FileType, same, starts_with, find, digits_from, from_str_radix, extension_type, parse_numbered,
  parse_file_name,
}

abbrev pub IsDigit : ℕ → Type 0
IsDigit d = d < 10

abbrev pub ascii : List ℕ → Bytes
ascii [] = []
ascii (d ∷ ds) = (48 + d) ∷ ascii ds

-- The number whose decimal digits follow those of `n`.
abbrev pub value_from : ℕ → List ℕ → ℕ
value_from n [] = n
value_from n (d ∷ ds) = value_from (n * 10 + d) ds

value_from-le : (n : ℕ) (ds : List ℕ) → n ≤ value_from n ds
value_from-le n [] = omega arith
value_from-le n (d ∷ ds) = omega (arith, value_from-le (n * 10 + d) ds)

length-ascii : (ds : List ℕ) → length (ascii ds) ≡ length ds
length-ascii [] = refl
length-ascii (d ∷ ds) = ap suc (length-ascii ds)

digits_from-ascii :
    (n : ℕ) (ds : List ℕ)
    → All IsDigit ds
    → value_from n ds < 2 ^ 64
    → digits_from n (ascii ds) ≡ some (value_from n ds)
unfolding digits_from
digits_from-ascii n [] h fits = refl
digits_from-ascii n (d ∷ ds) h fits =
    let m : n * 10 + (48 + d - 48) ≡ n * 10 + d = omega arith in
    let l = value_from-le (n * 10 + d) ds in
    let ih = digits_from-ascii (n * 10 + d) ds h.1 fits in
    ground (arith, h.0, m, l, ap (λ k. digits_from k (ascii ds)) m, ih)

from_str_radix-ascii :
    (d : ℕ) (ds : List ℕ)
    → All IsDigit (d ∷ ds)
    → value_from 0 (d ∷ ds) < 2 ^ 64
    → from_str_radix (ascii (d ∷ ds)) ≡ some (value_from 0 (d ∷ ds))
unfolding from_str_radix
from_str_radix-ascii d [] h fits = digits_from-ascii 0 (d ∷ []) h fits
from_str_radix-ascii d (e ∷ ds) h fits =
    let f : (48 + d == 43) ≡ false = ground arith in rw f (digits_from-ascii 0 (d ∷ e ∷ ds) h fits)

find-ascii :
    (ds : List ℕ) (ext : Bytes)
    → All IsDigit ds
    → find (ascii ds ++ b'.' ∷ ext) b'.' ≡ some (length ds)
unfolding find
find-ascii [] ext h = refl
find-ascii (d ∷ ds) ext h =
    let f : (48 + d == b'.') ≡ false = ground arith in rw (f, find-ascii ds ext h.1) refl

numbered_head :
    (d : ℕ) (rest : Bytes)
    → d < 10
    → parse_file_name ((48 + d) ∷ rest) ≡ parse_numbered ((48 + d) ∷ rest)
unfolding parse_file_name same starts_with
numbered_head d rest h =
    let c : (48 + d == b'C') ≡ false = ground arith in
    let l : (48 + d == b'L') ≡ false = ground arith in
    let m : (48 + d == b'M') ≡ false = ground arith in rw (c, l, m) refl

-- A name of decimal digits, one at least, of a number below 2^64, with a dot and a known extension
-- behind it, is parsed to the number and the extension's type.
pub parse_file_name-numbered :
    (d : ℕ) (ds : List ℕ) (ext : Bytes) (t : FileType)
    → All IsDigit (d ∷ ds)
    → value_from 0 (d ∷ ds) < 2 ^ 64
    → extension_type ext ≡ some t
    → parse_file_name (ascii (d ∷ ds) ++ b'.' ∷ ext) ≡ some (value_from 0 (d ∷ ds), t)
unfolding parse_numbered
parse_file_name-numbered d ds ext t h fits e =
    let n = length (d ∷ ds) in
    let name = ascii (d ∷ ds) in
    numbered_head d (ascii ds ++ b'.' ∷ ext) h.0
    ∙ rw
        (
          parse_numbered,
          find-ascii (d ∷ ds) ext h,
          ◌>>=◌,
          take_append n name (b'.' ∷ ext) (sym (length-ascii (d ∷ ds))),
          from_str_radix-ascii d ds h fits,
          drop-append_add (n + 1) 1 name (b'.' ∷ ext) (omega (arith, length-ascii (d ∷ ds))),
          e,
        )
        refl

-- ===== src/Coding.antt =====
-- What the code uses of the crate `integer_encoding`, which is not part of the repository: the
-- traits VarInt (`encode_var`, `decode_var`, `required_space`), FixedInt (`encode_fixed`,
-- `decode_fixed`) and VarIntReader over a byte slice. It is a parameter of every module that
-- encodes numbers; the laws are what the crate's documentation promises of them.
pub mod Leb128
use leveldb_rs.Base.{
  ℕ, ◌+◌, ◌^◌, ◌≤◌, ◌<◌, ◌≡◌, Option, some, List, ◌++◌, length, replicate, All, drop,
}

abbrev pub Bytes : Type 0
Bytes = List ℕ

abbrev pub IsByte : ℕ → Type 0
IsByte b = b < 256

-- A `usize` or `u64`.
abbrev pub IsU64 : ℕ → Type 0
IsU64 n = n < 2 ^ 64

abbrev pub IsU32 : ℕ → Type 0
IsU32 n = n < 2 ^ 32

-- `read_varint w` reads a number of `w` bits (a u32, u64 or usize) from the front of a slice and
-- leaves the rest; `none` is its error. `encode_fixed w n` has `w` bytes, the least significant first. `decode_var` answers the number
-- and the count of bytes that it takes, or nothing where no number ends inside the slice.
pub record IntegerEncoding : Type 0 where
  pub encode_var : ℕ → Bytes
  pub required_space : ℕ → ℕ
  pub decode_var : Bytes → Option (ℕ × ℕ)
  pub encode_fixed : ℕ → ℕ → Bytes
  pub decode_fixed : Bytes → ℕ
  pub read_varint : ℕ → Bytes → Option (ℕ × Bytes)
  pub encode_var-IsByte : (n : ℕ) → All IsByte (encode_var n)
  pub length-encode_var : (n : ℕ) → length (encode_var n) ≡ required_space n
  pub required_space_pos : (n : ℕ) → 0 < required_space n
  pub required_space-le : (n : ℕ) → IsU64 n → required_space n ≤ 10
  pub decode-encode_var :
      (n : ℕ) (rest : Bytes)
      → IsU64 n
      → decode_var (encode_var n ++ rest) ≡ some (n, required_space n)
  pub decode_var_nil : decode_var List.[] ≡ Option.none
  pub decode_var_takes :
      (src : Bytes) (n l : ℕ) → decode_var src ≡ some (n, l) → (0 < l) × (l ≤ length src)
  pub length-encode_fixed : (w n : ℕ) → length (encode_fixed w n) ≡ w
  pub encode_fixed-IsByte : (w n : ℕ) → All IsByte (encode_fixed w n)
  pub decode-encode_fixed : (w n : ℕ) → n < 256 ^ w → decode_fixed (encode_fixed w n) ≡ n
  pub decode_fixed_zeros : (w : ℕ) → decode_fixed (replicate w 0) ≡ 0
  pub read-encode_var :
      (w n : ℕ) (rest : Bytes)
      → w ≤ 64
      → n < 2 ^ w
      → read_varint w (encode_var n ++ rest) ≡ some (n, rest)
  pub read_varint_takes :
      (w : ℕ) (src : Bytes) (n : ℕ) (rest : Bytes)
      → read_varint w src ≡ some (n, rest)
      → length rest < length src
  pub read_varint_drops :
      (w : ℕ) (src : Bytes) (n : ℕ) (rest : Bytes)
      → read_varint w src ≡ some (n, rest)
      → (l : ℕ) × (rest ≡ drop l src)
  pub decode_fixed-lt : (src : Bytes) → All IsByte src → decode_fixed src < 256 ^ length src

module _ ⦃ie : IntegerEncoding⦄ where
  abbrev pub encode_var : ℕ → Bytes
  encode_var = ie.encode_var

  abbrev pub required_space : ℕ → ℕ
  required_space = ie.required_space

  abbrev pub decode_var : Bytes → Option (ℕ × ℕ)
  decode_var = ie.decode_var

  abbrev pub encode_fixed : ℕ → ℕ → Bytes
  encode_fixed = ie.encode_fixed

  abbrev pub decode_fixed : Bytes → ℕ
  decode_fixed = ie.decode_fixed

  abbrev pub read_varint : ℕ → Bytes → Option (ℕ × Bytes)
  read_varint = ie.read_varint

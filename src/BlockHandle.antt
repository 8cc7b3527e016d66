-- ===== src/BlockHandle.antt =====
-- src/blockhandle.rs: the place of a block in a table file, as two varints.
mod Tests
use leveldb_rs.Base.{drop_append, drop-drop, drop-append_add, take_append}
use leveldb_rs.Base.{
  ℕ, ◌+◌, ◌-◌, ◌<◌, ◌≤◌, ◌≡◌, refl, ap, sym, ◌∙◌, arith, Option, none, some, List, [], ◌∷◌, ◌++◌,
  length, length-append, append_assoc, drop, length-drop, take, leb, slice_from, slice_from_append,
  assert, ◌>>=◌, ◌>>◌, if◌then◌else◌,
}
use leveldb_rs.Coding.{Bytes, IsU64, IntegerEncoding, encode_var, required_space, decode_var}

pub record BlockHandle : Type 0 where
  pub offset : ℕ
  pub size : ℕ

module _ ⦃ie : IntegerEncoding⦄ where
  pub decode : Bytes → Option (BlockHandle × ℕ)
  decode from = do
    (off, offsize) ← decode_var from
    rest ← slice_from from offsize
    (sz, szsize) ← decode_var rest
    some (record { offset = off; size = sz }, offsize + szsize)

  -- `n.encode_var(&mut dst[at..])`: the bytes from `at` on are overwritten.
  abbrev write_var : ℕ → Bytes → ℕ → Bytes
  write_var n dst at = take at dst ++ (encode_var n ++ drop (at + required_space n) dst)

  -- The buffer after the call, and the count of bytes written.
  pub encode_to : BlockHandle → Bytes → Option (Bytes × ℕ)
  encode_to h dst = do
    assert (leb (required_space h.offset + required_space h.size) (length dst))
    let off = required_space h.offset
    some (write_var h.size (write_var h.offset dst 0) off, off + required_space h.size)

  -- What stands in the buffer: the two numbers, then what stood behind them before.
  encode_to-eq :
      (h : BlockHandle) (dst : Bytes)
      → required_space h.offset + required_space h.size ≤ length dst
      → encode_to h dst
        ≡ some (
          encode_var h.offset
              ++ (encode_var h.size ++ drop (required_space h.offset + required_space h.size) dst),
          required_space h.offset + required_space h.size,
        )
  unfolding encode_to
  encode_to-eq h dst fits =
      let a = required_space h.offset in
      let b = required_space h.size in
      let front = encode_var h.offset in
      let la : length front ≡ a = ie.length-encode_var h.offset in
      let tail : drop (a + b) (front ++ drop (0 + a) dst) ≡ drop (a + b) dst =
        drop-append_add (a + b) b front (drop (0 + a) dst) (omega arith)
        ∙ drop-drop (0 + a) b (a + b) dst (omega arith) in
      ground (arith, tail, take_append a front (drop (0 + a) dst) (sym la))

  -- Into a buffer with enough room, a handle with 64-bit fields is written in full; the bytes
  -- behind it stay, and decoding the buffer gives the handle and the count of bytes written.
  pub decode-encode_to :
      (h : BlockHandle) (dst : Bytes)
      → IsU64 h.offset
      → IsU64 h.size
      → required_space h.offset + required_space h.size ≤ length dst
      → (dst' : Bytes) × (n : ℕ) × (encode_to h dst ≡ some (dst', n))
        × (decode dst' ≡ some (h, n))
        × (length dst' ≡ length dst)
        × (drop n dst' ≡ drop n dst)
  unfolding decode
  decode-encode_to h dst ho hs fits =
      let a = required_space h.offset in
      let b = required_space h.size in
      let more = encode_var h.size ++ drop (a + b) dst in
      let la : length (encode_var h.offset) ≡ a = ie.length-encode_var h.offset in
      let lb : length (encode_var h.size) ≡ b = ie.length-encode_var h.size in
      (
        encode_var h.offset ++ more,
        a + b,
        encode_to-eq h dst fits,
        ground (
          arith,
          ie.decode-encode_var h.offset more ho,
          slice_from_append (encode_var h.offset) more a (sym la),
          ie.decode-encode_var h.size (drop (a + b) dst) hs,
        ),
        omega (
          arith,
          length-append (encode_var h.offset) more,
          length-append (encode_var h.size) (drop (a + b) dst),
          length-drop (a + b) dst,
        ),
        drop-append_add (a + b) b (encode_var h.offset) more (omega arith)
            ∙ drop_append b (encode_var h.size) (drop (a + b) dst) (sym lb),
      )

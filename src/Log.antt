-- ===== src/Log.antt =====
-- src/log.rs: records in blocks. A record is cut into fragments [checksum: 4, length: 2, type: 1,
-- data]; a fragment does not cross the end of a block, and fewer than 7 bytes there are filler.
-- The writer's sink takes every byte, as a `Vec<u8>` does; the reader's source is a byte slice.
pub mod Checksum
pub mod Fragments
pub mod RoundTrip
pub mod Tests
use leveldb_rs.Base.{
  ℕ, zero, suc, ◌+◌, ◌-◌, ◌*◌, ◌/◌, ◌%◌, ◌^◌, ◌≡◌, ◌<◌, Bool, true, false, not, ◌&&◌, Option, none,
  some, List, [], ◌∷◌, ◌++◌, length, replicate, get_or, take, drop, leb, ltb, ◌==◌, if◌then◌else◌,
  assert, checked_sub, ◌>>=◌, ◌>>◌,
}
use leveldb_rs.Coding.{Bytes, IsByte, IsU32, IntegerEncoding, encode_fixed, decode_fixed}
use Prim.Native.Nat.{bit_or}

-- The crate `crc`: the CRC-32C of the bytes written to a digest since its reset.
pub record Crc32 : Type 0 where
  pub sum32 : Bytes → ℕ
  pub sum32-IsU32 : (b : Bytes) → IsU32 (sum32 b)

abbrev pub block_size_default : ℕ
block_size_default = 32 * 1024

abbrev pub header_size : ℕ
header_size = 7

pub data RecordType : Type 0 where
  full first middle last : RecordType

abbrev pub type_byte : RecordType → ℕ
type_byte full = 1
type_byte first = 2
type_byte middle = 3
type_byte last = 4

abbrev pub mask_delta : ℕ
mask_delta = 0xa282ead8

-- Rotations in 32 bits.
pub mask_crc : ℕ → ℕ
mask_crc c = (bit_or (c / 2 ^ 15) (c * 2 ^ 17 % 2 ^ 32) + mask_delta) % 2 ^ 32

pub unmask_crc : ℕ → ℕ
unmask_crc mc =
    let rot = (mc + 2 ^ 32 - mask_delta) % 2 ^ 32 in bit_or (rot / 2 ^ 17) (rot * 2 ^ 15 % 2 ^ 32)

pub record LogWriter : Type 0 where
  pub dst : Bytes
  pub current_block_offset : ℕ
  pub block_size : ℕ

unfoldable pub new_writer : Bytes → LogWriter
new_writer dst = record { dst = dst; current_block_offset = 0; block_size = block_size_default }

unfoldable pub new_with_off : Bytes → ℕ → LogWriter
new_with_off dst off = record {
  dst = dst;
  current_block_offset = off % block_size_default;
  block_size = block_size_default;
}

-- Fill up the block and go to the next one, where the space left holds no header.
abbrev pub next_block : LogWriter → ℕ → LogWriter
next_block w space_left =
    if ltb space_left header_size
    then record w { dst = w.dst ++ replicate space_left 0; current_block_offset = 0 }
    else w

abbrev pub record_type : Bool → Bool → RecordType
record_type true true = full
record_type true false = first
record_type false true = last
record_type false false = middle

pub record LogReader : Type 0 where
  pub src : Bytes
  pub blk_off : ℕ
  pub blocksize : ℕ
  pub head_scratch : Bytes
  pub checksums : Bool

unfoldable pub new_reader : Bytes → Bool → LogReader
new_reader src chksum = record {
  src = src;
  blk_off = 0;
  blocksize = block_size_default;
  head_scratch = replicate 7 0;
  checksums = chksum;
}

-- `Ok(n)` with the reader and the `dst` after the call; the errors of the two early returns; a
-- panic; and, in the model alone, the end of the fuel.
pub data ReadResult : Type 0 where
  read_ok : ℕ → LogReader → Bytes → ReadResult
  unexpected_eof : ReadResult
  invalid_checksum : ReadResult
  panicked : ReadResult
  stuck : ReadResult

module _ ⦃ie : IntegerEncoding⦄ ⦃crc : Crc32⦄ where
  -- The bytes of a fragment.
  abbrev pub fragment : ℕ → Bytes → Bytes
  fragment t body =
      encode_fixed 4 (mask_crc (crc.sum32 (t ∷ body)))
      ++ (encode_fixed 2 (length body) ++ (t ∷ body))

  pub emit_record : LogWriter → RecordType → Bytes → ℕ → Option (LogWriter × ℕ)
  emit_record w t data' len = do
    assert (ltb len (256 * 256))
    let bytes = fragment (type_byte t) (take len data')
    let s = length bytes
    some (record w { dst = w.dst ++ bytes; current_block_offset = w.current_block_offset + s }, s)

  -- The first part of a round of the `while` loop: the writer is where a header fits.
  pub enter_block : LogWriter → Option LogWriter
  enter_block w = do
    assert (ltb header_size w.block_size)
    space_left ← checked_sub w.block_size w.current_block_offset
    some (next_block w space_left)

  -- The second part: one fragment, with its size in the log and the length of its data.
  pub write_fragment : LogWriter → Bytes → Bool → Option (LogWriter × ℕ × ℕ)
  write_fragment w r first_frag = do
    avail ← checked_sub (w.block_size - w.current_block_offset) header_size
    let data_frag_len = if ltb (length r) avail then length r else avail
    (w', s) ← emit_record w (record_type first_frag (data_frag_len == length r)) r data_frag_len
    some (w', s, data_frag_len)

  -- The loop, on fuel; `RoundTrip` shows that `add_record` gives it enough.
  pub add_loop : ℕ → LogWriter → Bytes → Bool → ℕ → Option (LogWriter × ℕ)
  add_loop fuel w [] first_frag result = some (w, result)
  add_loop zero w (x ∷ xs) first_frag result = none
  add_loop (suc fuel) w (x ∷ xs) first_frag result = do
    w1 ← enter_block w
    (w2, s, n) ← write_fragment w1 (x ∷ xs) first_frag
    add_loop fuel w2 (drop n (x ∷ xs)) false s

  pub add_record : LogWriter → Bytes → Option (LogWriter × ℕ)
  unfolding add_loop enter_block write_fragment emit_record
  add_record w r = add_loop (length r + 1) w r true 0

  pub check_integrity : ℕ → Bytes → ℕ → Bool
  check_integrity typ data' expected = unmask_crc expected == crc.sum32 (typ ∷ data')

  -- The part of a round behind the header's fields; `more` is the next round of the loop.
  read_body : LogReader → Bytes → (LogReader → Bytes → ReadResult) → ℕ → ℕ → ℕ → ReadResult
  unfolding check_integrity
  read_body r dst more checksum len typ =
      let body = take len r.src in
      let dst' = dst ++ (body ++ replicate (len - length body) 0) in
      let r' = record r { src = drop len r.src; blk_off = r.blk_off + length body } in
      if r.checksums && not (check_integrity typ body checksum)
      then invalid_checksum
      else if typ == 1
      then read_ok (length dst') r' dst'
      else if typ == 4
      then read_ok (length dst') r' dst'
      else more r' dst'

  read_data : LogReader → Bytes → (LogReader → Bytes → ReadResult) → ReadResult
  unfolding read_body
  read_data r dst more =
      read_body r dst more (decode_fixed (take 4 r.head_scratch))
        (decode_fixed (take 2 (drop 4 r.head_scratch))) (get_or r.head_scratch 6 0)

  -- The header: up to 7 bytes are read over the ones in `head_scratch`.
  read_header : LogReader → Bytes → (LogReader → Bytes → ReadResult) → ReadResult
  unfolding read_data
  read_header r dst more =
      let head = take 7 r.src in
      if length head == 0
      then read_ok 0 r dst
      else read_data
          (record r {
            src = drop 7 r.src;
            blk_off = r.blk_off + length head;
            head_scratch = head ++ drop (length head) r.head_scratch;
          })
          dst more

  -- Skip to the next block. `self.blocksize - self.blk_off` underflows if a length was too large.
  pub read_round : LogReader → Bytes → (LogReader → Bytes → ReadResult) → ReadResult
  unfolding read_header
  read_round r dst more =
      let left = r.blocksize - r.blk_off in
      if ltb r.blocksize r.blk_off
      then panicked
      else if ltb left header_size
      then (if ltb (length r.src) left
          then unexpected_eof
          else read_header
              (record r {
                src = drop left r.src;
                blk_off = 0;
                head_scratch = take left r.src ++ drop left r.head_scratch;
              })
              dst more)
      else read_header r dst more

  pub read_loop : ℕ → LogReader → Bytes → ReadResult
  unfolding read_round
  read_loop zero r dst = stuck
  read_loop (suc fuel) r dst = read_round r dst (λ r' dst'. read_loop fuel r' dst')

  -- `dst.clear()`, then the loop. Every round but the last takes a byte at least.
  pub read : LogReader → ReadResult
  unfolding read_loop
  read r = read_loop (length r.src + 1) r []

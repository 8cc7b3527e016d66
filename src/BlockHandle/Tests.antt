-- ===== src/BlockHandle/Tests.antt =====
-- The run of the source's own test, and the theorem at its handle.
use leveldb_rs.Base.{ℕ, ◌≡◌, refl, arith, some, [], ◌∷◌, length, drop, replicate, slice_from}
use leveldb_rs.Coding.{Bytes}
use leveldb_rs.Coding.Leb128.{leb128, groups, ungroup}
use leveldb_rs.BlockHandle.{BlockHandle, decode, encode_to, decode-encode_to}

abbrev handle : BlockHandle
handle = record { offset = 890; size = 777 }

abbrev buffer : Bytes
buffer = replicate 16 0

handle_decodes : decode (0xfa ∷ 6 ∷ 0x89 ∷ 6 ∷ 1 ∷ []) ≡ some (handle, 4)
unfolding decode ungroup slice_from
handle_decodes = refl

decode-encode_to_example :
    (dst' : Bytes) × (n : ℕ) × (encode_to handle buffer ≡ some (dst', n))
    × (decode dst' ≡ some (handle, n))
    × (length dst' ≡ length buffer)
    × (drop n dst' ≡ drop n buffer)
unfolding groups
decode-encode_to_example = decode-encode_to handle buffer (omega arith) (omega arith) (omega arith)

-- ===== src/Log/Tests.antt =====
-- Runs, and the theorems at concrete inputs.
use leveldb_rs.Base.{◌%◌, ◌^◌}
use leveldb_rs.Base.{ℕ, ◌≡◌, refl, arith, true, some, [], ◌∷◌, ◌++◌, length, replicate}
use leveldb_rs.Coding.{Bytes, IsU32}
use leveldb_rs.Coding.Leb128.{leb128}
use leveldb_rs.Log.{Crc32, LogWriter, add_record, mask_crc, unmask_crc, read, read_ok}
use leveldb_rs.Log.Checksum.{unmask-mask_crc}
use leveldb_rs.Log.RoundTrip.{read-add_record, IsBlock}

-- A digest for the runs: any function into 32 bits will do.
instance abbrev length_digest : Crc32
length_digest = record { sum32 = λ b. length b % 2 ^ 32; sum32-IsU32 = λ b. omega arith }

-- Blocks of 12 bytes: 5 bytes fit the first, 1 the second.
abbrev small : LogWriter
small = record { dst = []; current_block_offset = 0; block_size = 12 }

unmask-mask_crc_example :
    (unmask_crc (mask_crc 0xdeadbeef) ≡ 0xdeadbeef) × IsU32 (mask_crc 0xdeadbeef)
unmask-mask_crc_example = unmask-mask_crc 0xdeadbeef (omega arith)

empty_log :
    read (record {
      src = [];
      blk_off = 0;
      blocksize = 12;
      head_scratch = replicate 7 0;
      checksums = true;
    })
    ≡ read_ok 0
        (record {
          src = [];
          blk_off = 0;
          blocksize = 12;
          head_scratch = replicate 7 0;
          checksums = true;
        })
        []
unfolding read
empty_log = refl

read-add_record_example :
    (w' : LogWriter) × (n : ℕ) × (bytes : Bytes) × (scratch' : Bytes) × (add_record small
        (1 ∷ 2 ∷ 3 ∷ 4 ∷ 5 ∷ 6 ∷ [])
      ≡ some (w', n))
    × (w'.dst ≡ bytes)
    × (w'.block_size ≡ 12)
    × IsBlock w'.block_size w'.current_block_offset
    × (length scratch' ≡ 7)
    × (read (record {
      src = bytes ++ 9 ∷ [];
      blk_off = 0;
      blocksize = 12;
      head_scratch = replicate 7 0;
      checksums = true;
    })
        ≡ read_ok 6
            (record {
              src = 9 ∷ [];
              blk_off = w'.current_block_offset;
              blocksize = 12;
              head_scratch = scratch';
              checksums = true;
            })
            (1 ∷ 2 ∷ 3 ∷ 4 ∷ 5 ∷ 6 ∷ []))
read-add_record_example =
    read-add_record small (1 ∷ 2 ∷ 3 ∷ 4 ∷ 5 ∷ 6 ∷ []) (9 ∷ []) (replicate 7 0) true (omega arith)
      (λ e. cc) refl

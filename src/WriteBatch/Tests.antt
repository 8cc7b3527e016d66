-- ===== src/WriteBatch/Tests.antt =====
-- Runs from the source's own test, and the theorems at concrete inputs.
use leveldb_rs.WriteBatch.Contents.{clear_loses_header}
use leveldb_rs.Base.{
  ℕ, ◌≡◌, ◌≢◌, refl, arith, some, none, Option, List, [], ◌∷◌, ◌++◌, ◌>>=◌, slice,
}
use leveldb_rs.Coding.{Bytes}
use leveldb_rs.Coding.Leb128.{leb128, groups, little_endian, from_little_endian}
use leveldb_rs.KeyTypes.{ValueType}
use leveldb_rs.WriteBatch.{
  WriteBatch, new, put, delete, count, sequence, clear, encode, set_contents, byte_size, done,
  stuck, iter, insert_into_memtable,
}
use leveldb_rs.WriteBatch.RoundTrip.{
  Op, write, write_round_trip, numbered, add_each, insert_into_memtable-write,
}
use leveldb_rs.WriteBatch.Iteration.{iter-ne-stuck}

abbrev abc : Bytes
abc = b'a' ∷ b'b' ∷ b'c' ∷ []

abbrev ops : List Op
ops = (abc, some (b'd' ∷ [])) ∷ (abc, none) ∷ ([], some []) ∷ []

ops_size : (write ops new >>= λ b. some (byte_size b)) ≡ some 27
unfolding write put delete new groups little_endian from_little_endian slice byte_size
ops_size = refl

-- A log of the calls, as a memtable.
abbrev log_call :
    List (ℕ × ValueType × Bytes × Bytes)
    → ℕ
    → ValueType
    → Bytes
    → Bytes
    → Option (List (ℕ × ValueType × Bytes × Bytes))
log_call l s t k v = some (l ++ (s, t, k, v) ∷ [])

write_round_trip_example :
    (b : WriteBatch) × (bytes : Bytes) × (write ops new ≡ some b)
    × (count b ≡ some 3)
    × (iter b ≡ done ops)
    × (encode b 7 ≡ some bytes)
    × (sequence (set_contents new bytes) ≡ some 7)
    × (count (set_contents new bytes) ≡ some 3)
    × (iter (set_contents new bytes) ≡ done ops)
write_round_trip_example = write_round_trip ops 7 (omega arith) (omega arith) (omega arith)

insert_into_memtable-write_example :
    (write ops new >>= λ b. insert_into_memtable log_call b 7 [])
    ≡ add_each log_call (numbered 7 ops) []
insert_into_memtable-write_example =
    insert_into_memtable-write log_call ops 7 [] (omega arith) (omega arith) (omega arith)

iter-ne-stuck_example : iter (record { entries = 1 ∷ 2 ∷ [] }) ≢ stuck
iter-ne-stuck_example = iter-ne-stuck (record { entries = 1 ∷ 2 ∷ [] })

clear_loses_header_example : (count (clear new) ≡ none) × (put (clear new) abc [] ≡ none)
unfolding groups
clear_loses_header_example = clear_loses_header new abc [] (omega arith)

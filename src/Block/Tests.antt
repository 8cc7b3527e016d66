-- ===== src/Block/Tests.antt =====
-- Blocks that the builder writes and the iterator reads, and the theorem at an entry.
use leveldb_rs.Base.{
  ◌+◌, ◌≡◌, refl, arith, Option, some, [], ◌∷◌, ◌++◌, length, slice, slice_from, ◌>>=◌, Ordering,
}
use leveldb_rs.Coding.{Bytes}
use leveldb_rs.Coding.Leb128.{leb128, groups, ungroup, little_endian, from_little_endian}
use leveldb_rs.Cmp.{cmp_bytes}
use leveldb_rs.Block.Builder.{
  entry, write_entry, enter_restart, shared_prefix, add, write_restarts, finish,
}
use leveldb_rs.Block.Builder
use leveldb_rs.Block.Iter.{
  BlockIter, Head, parse_entry_and_advance, assemble_key, number_restarts, iter, get_restart_point,
  adjust_restart_ix, advance, valid, current, reset, next, seek_to_restart_point, search_restarts,
  linear_search, seek, advance_to_end, seek_to_last, back_up, advance_until, prev,
}
use leveldb_rs.Block.Iter.Entries.{parse-entry}

abbrev cmp : Bytes → Bytes → Option Ordering
cmp a b = some (cmp_bytes a b)

-- ab ↦ 1, ac ↦ 2, b ↦ 3 with a restart after two entries.
abbrev built : Option Bytes
built = do
  b1 ← add cmp 2 Builder.new (97 ∷ 98 ∷ []) (1 ∷ [])
  b2 ← add cmp 2 b1 (97 ∷ 99 ∷ []) (2 ∷ [])
  b3 ← add cmp 2 b2 (98 ∷ []) (3 ∷ [])
  some (finish b3)

abbrev contents : Bytes
contents =
    0 ∷ 2 ∷ 1 ∷ 97 ∷ 98 ∷ 1 ∷ 1 ∷ 1 ∷ 1 ∷ 99 ∷ 2 ∷ 0 ∷ 1 ∷ 1 ∷ 98 ∷ 3 ∷ 0 ∷ 0 ∷ 0 ∷ 0 ∷ 11 ∷ 0 ∷ 0
    ∷ 0 ∷ 2 ∷ 0 ∷ 0 ∷ 0 ∷ []

built-eq : built ≡ some contents
unfolding groups little_endian add enter_restart shared_prefix write_entry entry write_restarts
    finish Builder.new
built-eq = refl

abbrev seek_and_read : Bytes → Option (Option (Bytes × Bytes))
seek_and_read key = do it ← iter contents; it' ← seek cmp it key; current it'

seek_ac : seek_and_read (97 ∷ 99 ∷ []) ≡ some (some (97 ∷ 99 ∷ [], 2 ∷ []))
unfolding ungroup from_little_endian slice slice_from iter seek search_restarts linear_search next
    advance seek_to_restart_point parse_entry_and_advance assemble_key number_restarts
    get_restart_point adjust_restart_ix valid current reset
seek_ac = refl

abbrev last_then_prev : Option (Option (Bytes × Bytes))
last_then_prev = do
  it ← iter contents
  (it1, found) ← seek_to_last it
  (it2, moved) ← prev it1
  current it2

prev_of_last : last_then_prev ≡ some (some (97 ∷ 99 ∷ [], 2 ∷ []))
unfolding ungroup from_little_endian slice slice_from iter seek_to_last advance_to_end prev back_up
    advance_until advance seek_to_restart_point parse_entry_and_advance assemble_key number_restarts
    get_restart_point adjust_restart_ix valid current reset
prev_of_last = refl

-- The iterator behind the entry of `ab`.
abbrev at_ac : BlockIter
at_ac = record {
  block = (0 ∷ 2 ∷ 1 ∷ 97 ∷ 98 ∷ 1 ∷ []) ++ (entry 1 (97 ∷ 99 ∷ []) (2 ∷ []) ++ (0 ∷ []));
  restarts_off = 11;
  offset = 6;
  current_entry_offset = 0;
  current_restart_ix = 0;
  key = 97 ∷ 98 ∷ [];
  val_offset = 5;
}

parse-entry_example :
    (it1 : BlockIter) × (it2 : BlockIter) × (h : Head) × (parse_entry_and_advance at_ac
      ≡ some (some (it1, h)))
    × (h.shared ≡ 1)
    × (assemble_key it1 (6 + h.head_len) h.shared h.non_shared ≡ some it2)
    × (it2.key ≡ 97 ∷ 99 ∷ [])
    × (it2.offset ≡ 6 + length (entry 1 (97 ∷ 99 ∷ []) (2 ∷ [])))
    × (slice it2.block it2.val_offset it2.offset ≡ some (2 ∷ []))
parse-entry_example =
    parse-entry at_ac (0 ∷ 2 ∷ 1 ∷ 97 ∷ 98 ∷ 1 ∷ []) (0 ∷ []) (97 ∷ 99 ∷ []) (2 ∷ []) 1 refl refl
      (omega arith) refl (omega arith) (omega arith)

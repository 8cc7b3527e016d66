-- ===== src/InternalCmp.antt =====
-- src/cmp.rs: InternalKeyCmp and MemtableKeyCmp, which wrap a user comparator.
pub mod Separator
pub mod Tests
use leveldb_rs.Base.{
  ℕ, Bool, true, false, Option, none, some, length, ltb, if◌then◌else◌, Ordering, is_lt, ◌>>=◌,
}
use leveldb_rs.Coding.{Bytes, IntegerEncoding}
use leveldb_rs.Cmp.{Cmp, bytes_eq}
use leveldb_rs.KeyTypes.{
  cmp_internal_key, cmp_memtable_key, parse_internal_key, new, internal_key, max_sequence_number,
}
use mathlib.Core.Option

module _ ⦃ie : IntegerEncoding⦄ where
  -- `sep.len() < keya.len() && self.0.cmp(keya, &sep) == Ordering::Less`.
  abbrev is_shorter_above : Cmp → Bytes → Bytes → Option Bool
  is_shorter_above c keya sep =
      if ltb (length sep) (length keya) then Option.map is_lt (c.cmp keya sep) else some false

  unfoldable pub find_internal_sep : Cmp → Bytes → Bytes → Option Bytes
  find_internal_sep c a b = elim (bytes_eq a b) [
    | true ↦ some a
    | false ↦ do
      (_, seqa, keya) ← parse_internal_key a
      (_, _, keyb) ← parse_internal_key b
      sep ← c.find_shortest_sep keya keyb
      shorter ← is_shorter_above c keya sep
      l ← new sep (if shorter then max_sequence_number else seqa)
      internal_key l
  ]

  unfoldable pub find_internal_succ : Cmp → Bytes → Option Bytes
  find_internal_succ c a = do
    (_, seq, key) ← parse_internal_key a
    succ ← c.find_short_succ key
    l ← new succ seq
    internal_key l

  abbrev pub internal_key_cmp : Cmp → Cmp
  internal_key_cmp c = record {
    cmp = cmp_internal_key c;
    find_shortest_sep = find_internal_sep c;
    find_short_succ = find_internal_succ c;
  }

  -- The two `find*` methods panic.
  abbrev pub memtable_key_cmp : Cmp → Cmp
  memtable_key_cmp c = record {
    cmp = cmp_memtable_key c;
    find_shortest_sep = λ a b. none;
    find_short_succ = λ a. none;
  }

-- `cmp_inner` compares user keys.
unfoldable pub cmp_inner : Cmp → Bytes → Bytes → Option Ordering
cmp_inner c = c.cmp

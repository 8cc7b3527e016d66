-- ===== src/MemTable.antt =====
-- src/memtable.rs: the table of the latest writes, a skip list of memtable keys, each of which holds
-- its value as well.
pub mod Keys
pub mod Shift
pub mod Versions
pub mod Get
pub mod Table
pub mod Lookup
pub mod Add
pub mod Log
pub mod Scan
mod Tests
use leveldb_rs.Base.{
  ℕ, zero, suc, ◌+◌, ◌-◌, Bool, true, false, not, Option, none, some, List, [], ◌∷◌, length, take,
  get_or, set, ◌==◌, if◌then◌else◌, slice, ◌>>=◌, ◌>>◌, Ordering,
}
use leveldb_rs.Coding.{Bytes, IntegerEncoding}
use leveldb_rs.Cmp.{Cmp, bytes_eq}
use leveldb_rs.KeyTypes.{
  ValueType, type_value, discriminant, LookupKey, build_memtable_key, parse_memtable_key,
  parse_internal_key, memtable_key, user_key, u64_space,
}
use leveldb_rs.KeyTypes
use leveldb_rs.InternalCmp.{memtable_key_cmp}
use leveldb_rs.SkipMap.{SkipMap, head, insert}
use leveldb_rs.SkipMap
use Prim.Native.Nat.{bit_and}

pub record MemTable (R : Type 0) : Type 0 where
  pub map : SkipMap R

-- The loop of shift_left: `n` rounds from `i`.
unfoldable pub shift_from : ℕ → ℕ → ℕ → Bytes → Bytes
shift_from zero i mid s = s
shift_from (suc n) i mid s =
    shift_from n (i + 1) mid (set (set s i (get_or s (i - mid) 0)) (i - mid) (get_or s i 0))

-- `s.swap(i, i - mid)` for all `i` from `mid` on; `mid` is an offset inside the vector.
unfoldable pub shift_left : Bytes → ℕ → Bytes
shift_left s mid = take (length s - mid) (shift_from (length s - mid) mid mid s)

-- `R` is the state of the random generator.
module _ {R : Type 0} where
  unfoldable pub new : R → ℕ → MemTable R
  new seed base = record { map = SkipMap.new seed base }

  pub len : MemTable R → ℕ
  len mt = mt.map.len

  pub approx_mem_usage : MemTable R → ℕ
  approx_mem_usage mt = mt.map.approx_mem

-- `tag & 0xff == ValueType::TypeValue as u64`.
abbrev pub is_value : ℕ → Bool
is_value tag = bit_and tag 0xff == discriminant type_value

module _ ⦃ie : IntegerEncoding⦄ where
  -- The answer for the entry that the search found.
  unfoldable pub get_found : LookupKey → Bytes → Option (Option Bytes × Bool)
  get_found key foundkey = do
    parts ← parse_memtable_key foundkey
    wanted ← user_key key
    found ← slice foundkey parts.keyoff (parts.keyoff + parts.keylen)
    elim (bytes_eq wanted found) [
      | false ↦ some (none, false)
      | true ↦ elim (is_value parts.tag) [
        | false ↦ some (none, true)
        | true ↦ do
          value ← slice foundkey parts.valoff (parts.valoff + parts.vallen)
          some (some value, false)
      ]
    ]

  -- `MemtableKeyCmp(cmp)`, the comparator of the map.
  abbrev pub wrapped : Cmp → Bytes → Bytes → Option Ordering
  wrapped ucmp = (memtable_key_cmp ucmp).cmp

  module _ {R : Type 0} where
    unfoldable pub add :
        (R → ℕ × R) → Cmp → ℕ → ℕ → MemTable R → ℕ → ValueType → Bytes → Bytes → Option (MemTable R)
    add next_u32 ucmp node_size link_size mt seq t key value = do
      mkey ← build_memtable_key key value t seq
      map ← insert next_u32 (wrapped ucmp) node_size link_size mt.map mkey []
      some (record { map = map })

    -- The iterator of the table is that of the skip list.
    unfoldable pub advance : MemTable R → ℕ → ℕ × Bool
    advance mt it =
        let (it', moved) = SkipMap.advance mt.map it in
        if moved then (it', SkipMap.valid it') else (it', false)

    -- The internal key and the value; the inner `none` is the answer false.
    unfoldable pub current : MemTable R → ℕ → Option (Option (Bytes × Bytes))
    current mt it = elim (SkipMap.current mt.map it) [
      | none ↦ some none
      | some (key, _) ↦ do
        parts ← parse_memtable_key key
        value ← slice key parts.valoff (parts.valoff + parts.vallen)
        some (some (take (parts.keylen + u64_space) (shift_left key parts.keyoff), value))
    ]

    module _ (ucmp : Cmp) (mt : MemTable R) where
      unfoldable pub get : LookupKey → Option (Option Bytes × Bool)
      get key = do
        it ← SkipMap.seek mt.map (wrapped ucmp) (memtable_key key)
        elim (SkipMap.current mt.map it) [
          | none ↦ some (none, false)
          | some (foundkey, _) ↦ get_found key foundkey
        ]

      -- The loop goes back over deletions; the fuel is for one round for each entry and one more.
      unfoldable pub prev_loop : ℕ → ℕ → Option (ℕ × Bool)
      prev_loop zero it = none
      prev_loop (suc fuel) it = do
        (it', moved) ← SkipMap.prev mt.map (wrapped ucmp) it
        elim moved [
          | false ↦ some (it', false)
          | true ↦ elim (SkipMap.current mt.map it') [
            | none ↦ some (it', false)
            | some (key, _) ↦ do
              parts ← parse_memtable_key key
              elim (is_value parts.tag) [ true ↦ some (it', true) | false ↦ prev_loop fuel it' ]
          ]
        ]

      unfoldable pub prev : ℕ → Option (ℕ × Bool)
      prev it = prev_loop (suc mt.map.len) it

      -- The seek takes an internal key.
      unfoldable pub seek : Bytes → Option ℕ
      seek to = do
        (_, seq, ukey) ← parse_internal_key to
        l ← KeyTypes.new ukey seq
        SkipMap.seek mt.map (wrapped ucmp) (memtable_key l)

-- ===== src/Block/Iter.antt =====
-- src/block.rs.
pub mod Entries
use leveldb_rs.Base.{
  ℕ, zero, suc, ◌+◌, ◌-◌, ◌*◌, ◌/◌, ◌^◌, Bool, true, false, not, ◌&&◌, ◌||◌, Option, none, some,
  List, [], ◌∷◌, ◌++◌, length, take, drop, ltb, leb, ◌==◌, is_lt, if◌then◌else◌, checked_sub, slice,
  slice_from, position, assert, ◌>>=◌, ◌>>◌, Ordering,
}
use leveldb_rs.Coding.{Bytes, IntegerEncoding, decode_var, decode_fixed}

pub record BlockIter : Type 0 where
  pub block : Bytes
  pub restarts_off : ℕ
  pub offset : ℕ
  pub current_entry_offset : ℕ
  pub current_restart_ix : ℕ
  pub key : Bytes
  pub val_offset : ℕ

-- Block::new.
unfoldable pub new_block : Bytes → Option Bytes
new_block contents = do assert (ltb 4 (length contents)); some contents

abbrev pub is_empty : Bytes → Bool
is_empty [] = true
is_empty (b ∷ bs) = false

unfoldable pub valid : BlockIter → Bool
valid it = not (is_empty it.key) && ltb 0 it.val_offset && leb it.val_offset it.restarts_off

unfoldable pub reset : BlockIter → BlockIter
reset it = record it { offset = 0; val_offset = 0; current_restart_ix = 0; key = [] }

-- The key and value, or `none` inside where the iterator is not valid.
unfoldable pub current : BlockIter → Option (Option (Bytes × Bytes))
current it = elim (valid it) [
  | true ↦ do val ← slice it.block it.val_offset it.offset; some (some (it.key, val))
  | false ↦ some none
]

unfoldable pub assemble_key : BlockIter → ℕ → ℕ → ℕ → Option BlockIter
assemble_key it off shared non_shared = do
  part ← slice it.block off (off + non_shared)
  some (record it { key = take shared it.key ++ part })

-- SHARED, NON_SHARED, VALSIZE and the header's length.
pub record Head : Type 0 where
  pub shared : ℕ
  pub non_shared : ℕ
  pub valsize : ℕ
  pub head_len : ℕ

module _ ⦃ie : IntegerEncoding⦄ where
  unfoldable pub number_restarts : Bytes → Option ℕ
  number_restarts block = do
    n ← checked_sub (length block) 4
    bytes ← slice_from block n
    some (decode_fixed bytes)

  unfoldable pub iter : Bytes → Option BlockIter
  iter block = do
    restarts ← number_restarts block
    n ← checked_sub (length block) 4
    restart_offset ← checked_sub n (4 * restarts)
    some (record {
      block = block;
      restarts_off = restart_offset;
      offset = 0;
      current_entry_offset = 0;
      current_restart_ix = 0;
      key = [];
      val_offset = 0;
    })

  unfoldable pub get_restart_point : BlockIter → ℕ → Option ℕ
  get_restart_point it ix = do
    bytes ← slice it.block (it.restarts_off + 4 * ix) (it.restarts_off + 4 * ix + 4)
    some (decode_fixed bytes)

  -- The inner `none`: a number that does not decode. The iterator is changed only at the end.
  unfoldable pub parse_entry_and_advance : BlockIter → Option (Option (BlockIter × Head))
  parse_entry_and_advance it = do
    r1 ← slice_from it.block it.offset
    elim (decode_var r1) [
      | none ↦ some none
      | some (shared, sharedlen) ↦ do
        r2 ← slice_from it.block (it.offset + sharedlen)
        elim (decode_var r2) [
          | none ↦ some none
          | some (non_shared, non_sharedlen) ↦ do
            r3 ← slice_from it.block (it.offset + (sharedlen + non_sharedlen))
            elim (decode_var r3) [
              | none ↦ some none
              | some (valsize, valsizelen) ↦ do
                let i = sharedlen + non_sharedlen + valsizelen
                offset ← position it.block (it.offset + i + non_shared + valsize)
                some (
                    some (
                      record it { val_offset = it.offset + i + non_shared; offset = offset },
                      record {
                        shared = shared;
                        non_shared = non_shared;
                        valsize = valsize;
                        head_len = i;
                      },
                    ))
            ]
        ]
    ]

  -- The inner `none` leaves the iterator as the source does: placed, with nothing parsed.
  unfoldable pub seek_to_restart_point : BlockIter → ℕ → Option (BlockIter × Bool)
  seek_to_restart_point it ix = do
    off ← get_restart_point it ix
    let placed = record it { offset = off; current_entry_offset = off; current_restart_ix = ix }
    parsed ← parse_entry_and_advance placed
    elim parsed [
      | none ↦ some (placed, false)
      | some (it1, h) ↦ do
        assert (h.shared == 0)
        it2 ← assemble_key it1 (off + h.head_len) h.shared h.non_shared
        assert (valid it2)
        some (it2, true)
    ]

  -- The loop that moves `current_restart_ix` up; one round for each restart at most.
  unfoldable pub adjust_restart_ix : ℕ → BlockIter → ℕ → Option BlockIter
  adjust_restart_ix zero it num_restarts = some it
  adjust_restart_ix (suc fuel) it num_restarts =
      elim (ltb (it.current_restart_ix + 1) num_restarts) [
        | false ↦ some it
        | true ↦ do
          off ← get_restart_point it (it.current_restart_ix + 1)
          let next =
              adjust_restart_ix fuel (record it { current_restart_ix = it.current_restart_ix + 1 })
                num_restarts
          if ltb off it.current_entry_offset then next else some it
      ]

  -- With debug assertions an entry that does not parse panics.
  unfoldable pub advance : BlockIter → Option (BlockIter × Bool)
  advance it = elim (leb it.restarts_off it.offset) [
    | true ↦ some (reset it, false)
    | false ↦ do
      parsed ← parse_entry_and_advance (record it { current_entry_offset = it.offset })
      (it1, h) ← parsed
      it2 ← assemble_key it1 (it.offset + h.head_len) h.shared h.non_shared
      num_restarts ← number_restarts it.block
      it3 ← adjust_restart_ix num_restarts it2 num_restarts
      some (it3, true)
  ]

  -- `while self.offset < self.restarts_off`; with more fuel than bytes it ends.
  unfoldable pub advance_to_end : ℕ → BlockIter → Option BlockIter
  advance_to_end zero it = none
  advance_to_end (suc fuel) it = elim (ltb it.offset it.restarts_off) [
    | false ↦ some it
    | true ↦ do (it', moved) ← advance it; advance_to_end fuel it'
  ]

  -- The Boolean is false where the source returns early with `None`.
  unfoldable pub seek_to_last : BlockIter → Option (BlockIter × Bool)
  seek_to_last it = do
    n ← number_restarts it.block
    (it1, found) ← elim (ltb 0 n) [
      | true ↦ seek_to_restart_point it (n - 1)
      | false ↦ some (reset it, true)
    ]
    elim found [
      | false ↦ some (it1, false)
      | true ↦ do
        it2 ← advance_to_end (suc (length it.block)) it1
        assert (valid it2)
        some (it2, true)
    ]

  -- The loop of `prev` that goes back over the restarts.
  unfoldable pub back_up : ℕ → BlockIter → ℕ → Option BlockIter
  back_up zero it orig_offset = none
  back_up (suc fuel) it orig_offset = do
    off ← get_restart_point it it.current_restart_ix
    elim (leb orig_offset off) [
      | false ↦ some it
      | true ↦ elim (it.current_restart_ix == 0) [
        | true ↦ do
          n ← number_restarts it.block
          some (record it { offset = it.restarts_off; current_restart_ix = n })
        | false ↦
            back_up fuel (record it { current_restart_ix = it.current_restart_ix - 1 }) orig_offset
      ]
    ]

  -- The loop of `prev` that stops where the next entry is the original one.
  unfoldable pub advance_until : ℕ → BlockIter → ℕ → Option (BlockIter × Bool)
  advance_until zero it orig_offset = none
  advance_until (suc fuel) it orig_offset = do
    (it', result) ← advance it
    elim (leb orig_offset it'.offset) [
      | true ↦ some (it', result)
      | false ↦ advance_until fuel it' orig_offset
    ]

  unfoldable pub prev : BlockIter → Option (BlockIter × Bool)
  prev it = elim (it.current_entry_offset == 0) [
    | true ↦ some (reset it, false)
    | false ↦ do
      it1 ← back_up (suc it.current_restart_ix) it it.current_entry_offset
      off ← get_restart_point it1 it1.current_restart_ix
      let it2 = record it1 { offset = off }
      assert (ltb it2.offset it.current_entry_offset)
      advance_until (suc (length it.block)) it2 it.current_entry_offset
  ]

  -- The trait's default `next`: the inner `none` is its end.
  unfoldable pub next : BlockIter → Option (BlockIter × Option (Bytes × Bytes))
  next it = do
    (it', moved) ← advance it
    elim moved [ false ↦ some (it', none) | true ↦ do entry ← current it'; some (it', entry) ]

  module _ (cmp : Bytes → Bytes → Option Ordering) where
    -- The binary search; its seeks' answers are not looked at.
    unfoldable pub search_restarts : ℕ → BlockIter → ℕ → ℕ → Bytes → Option (BlockIter × ℕ × ℕ)
    search_restarts zero it left right to = none
    search_restarts (suc fuel) it left right to = elim (ltb left right) [
      | false ↦ some (it, left, right)
      | true ↦ do
        let middle = (left + right + 1) / 2
        (it1, found) ← seek_to_restart_point it middle
        c ← cmp it1.key to
        elim (is_lt c) [
          | true ↦ search_restarts fuel it1 middle right to
          | false ↦ search_restarts fuel it1 left (middle - 1) to
        ]
    ]

    unfoldable pub linear_search : ℕ → BlockIter → Bytes → Option BlockIter
    linear_search zero it to = none
    linear_search (suc fuel) it to = do
      (it', item) ← next it
      elim item [
        | none ↦ some it'
        | some (k, v) ↦ do
          c ← cmp k to
          elim (is_lt c) [ true ↦ linear_search fuel it' to | false ↦ some it' ]
      ]

    unfoldable pub seek : BlockIter → Bytes → Option BlockIter
    seek it to = do
      let it0 = reset it
      n ← number_restarts it0.block
      (it1, left, right) ← search_restarts (suc n) it0 0 (n - 1) to
      assert (left == right)
      off ← get_restart_point it1 left
      linear_search (suc (length it.block)) (record it1 { current_restart_ix = left; offset = off })
          to

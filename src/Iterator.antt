-- ===== src/Iterator.antt =====
-- src/types.rs: the trait LdbIterator with laws that its comments ask for, and the directions of an
-- iterator.
pub mod Rows
use leveldb_rs.Base.{◌≡◌, Bool, true, false, Option, none, some, List, [], ◌∷◌}
use leveldb_rs.Coding.{Bytes}

pub data Direction : Type 0 where
  forward reverse : Direction

-- Panics are `none`; the two buffers that `current` fills are its answer.
pub record LdbIterator (T : Type 0) : Type 0 where
  pub advance : T → Option (Bool × T)
  pub current : T → Option (Option (Bytes × Bytes))
  pub seek : T → Bytes → Option T
  pub reset : T → T
  pub valid : T → Bool
  pub prev : T → Option (Bool × T)

-- A key and its value.
abbrev pub Row : Type 0
Row = Bytes × Bytes

-- What a client relies on: `Ahead t rows` says that the iterator stands at the first of `rows`, with the
-- others behind it, or at no entry if there are none.
pub record IsForward {T : Type 0} (iter : LdbIterator T) (Ahead : T → List Row → Type 0)
    : Type 0 where
  pub current_more :
      (t : T) (e : Row) (es : List Row) → Ahead t (e ∷ es) → iter.current t ≡ some (some e)
  pub current_end : (t : T) → Ahead t [] → iter.current t ≡ some none
  pub valid_more : (t : T) (e : Row) (es : List Row) → Ahead t (e ∷ es) → iter.valid t ≡ true
  pub valid_end : (t : T) → Ahead t [] → iter.valid t ≡ false
  pub advance_more :
      (t : T) (e e' : Row) (es : List Row)
      → Ahead t (e ∷ e' ∷ es)
      → (t' : T) × (iter.advance t ≡ some (true, t')) × Ahead t' (e' ∷ es)
  pub advance_end :
      (t : T) (e : Row)
      → Ahead t (e ∷ [])
      → (t' : T) × (iter.advance t ≡ some (false, t')) × Ahead (iter.reset t') []

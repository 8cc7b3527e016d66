-- ===== src/Iterator/Rows.antt =====
-- An iterator over a list, which has the laws of LdbIterator.
use leveldb_rs.Base.{
  ◌-◌, ◌||◌, ◌==◌, length, drop, is_lt, if◌then◌else◌, ◌≡◌, refl, ap, Bool, true, false, Option,
  none, some, List, [], ◌∷◌,
}
use leveldb_rs.Coding.{Bytes}
use leveldb_rs.Cmp.{cmp_bytes}
use leveldb_rs.Iterator.{LdbIterator, Row, IsForward}

abbrev pub first_of : List Row → Option Row
first_of [] = none
first_of (e ∷ es) = some e

abbrev pub is_some_row : List Row → Bool
is_some_row [] = false
is_some_row (e ∷ es) = true

-- All rows, and those from the current one on, if there is one.
abbrev pub Rows : Type 0
Rows = List Row × List Row

abbrev pub restart : List Row → Option (Bool × Rows)
restart [] = some (false, ([], []))
restart (e ∷ es) = some (true, (e ∷ es, e ∷ es))

abbrev pub advance_rows : List Row → List Row → Option (Bool × Rows)
advance_rows l [] = restart l
advance_rows l (e ∷ []) = some (false, (l, []))
advance_rows l (e ∷ e' ∷ es) = some (true, (l, e' ∷ es))

-- The first row from which on no key is below the one sought.
abbrev pub seek_rows : List Row → Bytes → List Row
seek_rows [] key = []
seek_rows (e ∷ es) key = if is_lt (cmp_bytes e.0 key) then seek_rows es key else e ∷ es

abbrev pub prev_rows : List Row → List Row → Bool × Rows
prev_rows l rest =
    if length rest == 0 || length rest == length l
    then (false, (l, []))
    else (true, (l, drop (length l - length rest - 1) l))

abbrev pub rows_iter : LdbIterator Rows
rows_iter = record {
  advance = λ r. advance_rows r.0 r.1;
  current = λ r. some (first_of r.1);
  seek = λ r key. some (r.0, seek_rows r.0 key);
  reset = λ r. (r.0, []);
  valid = λ r. is_some_row r.1;
  prev = λ r. some (prev_rows r.0 r.1);
}

abbrev pub Ahead : Rows → List Row → Type 0
Ahead r l = r.1 ≡ l

pub forward_rows : IsForward rows_iter Ahead
forward_rows = record {
  current_more = λ t e es h. ap (λ l. some (first_of l)) h;
  current_end = λ t h. ap (λ l. some (first_of l)) h;
  valid_more = λ t e es h. ap is_some_row h;
  valid_end = λ t h. ap is_some_row h;
  advance_more = λ t e e' es h. ((t.0, e' ∷ es), ap (λ l. advance_rows t.0 l) h, refl);
  advance_end = λ t e h. ((t.0, []), ap (λ l. advance_rows t.0 l) h, refl);
}

-- ===== src/MergingIter/Tests.antt =====
-- The theorems at concrete inputs.
use leveldb_rs.Base.{◌>>=◌, false, Option, Bool, ℕ, ◌≡◌, refl, ap, All, some, List, [], ◌∷◌}
use leveldb_rs.Cmp.{default_cmp}
use leveldb_rs.Cmp.Order.{default_cmp-IsTotal}
use leveldb_rs.Iterator.{forward, Row}
use leveldb_rs.Iterator.Rows.{Rows, restart, rows_iter, Ahead, forward_rows}
use leveldb_rs.MergingIter.{
  prev, prev_from, update_direction, turn, to_before, exhaust, each_other, each, init, init_one,
  find, find_loop, valid, step_current, MergingIter, new, advance, current,
}
use leveldb_rs.MergingIter.Smallest.{Leads}
use leveldb_rs.MergingIter.Forward.{Shows, is_more, head, advance-Shows}
use leveldb_rs.MergingIter.Start.{IsFresh, advance-new}

abbrev Holds : Rows → List Row → Type 0
Holds r l = r.0 ≡ l

fresh_rows : IsFresh rows_iter Ahead Holds
fresh_rows = record {
  start_more = λ t e es h. ((e ∷ es, e ∷ es), ap restart h, refl);
  start_end = λ t h. (([], []), ap restart h, refl, refl);
}

abbrev row : ℕ → Row
row n = (n ∷ [], [])

-- Keys 1 and 4, and key 2.
abbrev odd_rows : List Row
odd_rows = row 1 ∷ row 4 ∷ []

abbrev two_iters : List Rows
two_iters = (odd_rows, []) ∷ (row 2 ∷ [], []) ∷ []

advance-new_example :
    (m : MergingIter Rows) × (s : Shows default_cmp-IsTotal forward_rows m
      (odd_rows ∷ (row 2 ∷ []) ∷ []))
    × (advance rows_iter default_cmp 10 (new two_iters) ≡ some (is_more s.rows, m))
    × (current rows_iter default_cmp m ≡ some (head s.rows))
advance-new_example =
    advance-new default_cmp-IsTotal forward_rows fresh_rows 10 two_iters odd_rows
      ((row 2 ∷ []) ∷ []) (refl, (refl, tt))

abbrev at_first : MergingIter Rows
at_first = record {
  iters = (odd_rows, odd_rows) ∷ (row 2 ∷ [], row 2 ∷ []) ∷ [];
  current = some 0;
  direction = forward;
}

odd_in_front : All (Leads default_cmp-IsTotal odd_rows) (odd_rows ∷ (row 2 ∷ []) ∷ [])
odd_in_front = (λ e. cc, (λ e. cc, tt))

abbrev shows_first : Shows default_cmp-IsTotal forward_rows at_first (odd_rows ∷ (row 2 ∷ []) ∷ [])
shows_first = record {
  stand = (refl, (refl, tt));
  is_forward = refl;
  ix = 0;
  rows = odd_rows;
  current_ix = refl;
  rows_at = refl;
  lead = odd_in_front;
}

advance-Shows_example :
    (m' : MergingIter Rows) × (s' : Shows default_cmp-IsTotal forward_rows m'
      ((row 4 ∷ []) ∷ (row 2 ∷ []) ∷ []))
    × (advance rows_iter default_cmp 10 at_first ≡ some (is_more s'.rows, m'))
    × (current rows_iter default_cmp m' ≡ some (head s'.rows))
advance-Shows_example =
    advance-Shows default_cmp-IsTotal forward_rows 10 at_first (odd_rows ∷ (row 2 ∷ []) ∷ [])
      shows_first (row 1) (row 4 ∷ []) refl

-- Behind rows 1, 2 and 3 the way back shows row 2, and then ends: the iterator of row 1 was moved past its
-- end when the direction changed.
abbrev three_rows : MergingIter Rows
three_rows = new ((row 1 ∷ [], []) ∷ (row 2 ∷ row 3 ∷ [], []) ∷ [])

there_and_back : Option (Option Row × Option Row × Bool)
there_and_back = do
  (_, m1) ← advance rows_iter default_cmp 10 three_rows
  (_, m2) ← advance rows_iter default_cmp 10 m1
  (_, m3) ← advance rows_iter default_cmp 10 m2
  shown3 ← current rows_iter default_cmp m3
  (_, m4) ← prev rows_iter default_cmp 10 m3
  shown2 ← current rows_iter default_cmp m4
  (more, m5) ← prev rows_iter default_cmp 10 m4
  some (shown3, shown2, more)

lost_row : there_and_back ≡ some (some (row 3), some (row 2), false)
unfolding there_and_back advance current prev prev_from new update_direction turn to_before exhaust
    each_other each init init_one find find_loop valid step_current
lost_row = refl

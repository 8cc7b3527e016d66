-- ===== src/Version/Scan.antt =====
-- VersionIter of src/version.rs: a scan of a level is the rows of its tables, one table after the other.
use leveldb_rs.Base.{
  ℕ, zero, suc, ◌+◌, ◌-◌, ◌<◌, ◌≡◌, refl, ap, sym, ◌∙◌, arith, true, false, Option, some, List, [],
  ◌∷◌, ◌++◌, append_assoc, All, length, length-append, leb, ◌==◌, ◌>>=◌, ◌>>◌,
}
use leveldb_rs.Iterator.{LdbIterator, Row, IsForward}
use leveldb_rs.SkipMap.{at}
use leveldb_rs.VersionEdit.{FileMetaData}
use leveldb_rs.Version.Level.{at-middle}
use leveldb_rs.Version.Iter.{
  VersionIter, new_version_iter, current, open_table, advance_loop, advance,
}

two_rounds : (n : ℕ) → n + 2 ≡ suc (suc n)
two_rounds n = omega arith

module _ {T : Type 0} {table : LdbIterator T} {Ahead : T → List Row → Type 0}
    (fwd : IsForward table Ahead) (get_table : ℕ → Option T) (meta : ℕ → FileMetaData)
    (rows : ℕ → List Row) where
  -- The file's table can be opened and has rows; the first advance of its iterator is to the first row.
  pub record Opens (f : ℕ) : Type 0 where
    pub first : Row
    pub others : List Row
    pub opened : T
    pub started : T
    pub rows_eq : rows f ≡ first ∷ others
    pub get_eq : get_table (meta f).num ≡ some opened
    pub advance_eq : table.advance opened ≡ some (true, started)
    pub ahead : Ahead started (first ∷ others)

  abbrev pub all_rows : List ℕ → List Row
  all_rows [] = []
  all_rows (f ∷ fs) = rows f ++ all_rows fs

  abbrev standing : List ℕ → ℕ → T → VersionIter T
  standing fs ix t = record { files = fs; current = some t; current_ix = ix }

  advance-within :
      (fs : List ℕ) (ix : ℕ) (t : T) (e e' : Row) (es : List Row)
      → 0 < length fs
      → Ahead t (e ∷ e' ∷ es)
      → (t' : T) × (advance table get_table meta (standing fs ix t)
          ≡ some (true, standing fs ix t'))
        × Ahead t' (e' ∷ es)
  unfolding advance advance_loop
  advance-within fs ix t e e' es n a =
      let (t', q, a') = fwd.advance_more t e e' es a in
      let some_files : (length fs == 0) ≡ false = ground (arith, n) in
      (t', rw (advance, two_rounds (length fs), advance_loop, some_files, ◌>>◌, q, ◌>>=◌) refl, a')

  advance-last :
      (fs : List ℕ) (ix : ℕ) (t : T) (e : Row)
      → length fs ≡ ix + 1
      → Ahead t (e ∷ [])
      → (it : VersionIter T) × (advance table get_table meta (standing fs ix t) ≡ some (false, it))
  unfolding advance advance_loop
  advance-last fs ix t e n a =
      let (t', q, a') = fwd.advance_end t e a in
      let some_files : (length fs == 0) ≡ false = ground (arith, n) in
      let at_last : leb (length fs - 1) ix ≡ true = ground (arith, n) in
      (
        standing fs ix t',
        rw (advance, two_rounds (length fs), advance_loop, some_files, ◌>>◌, q, ◌>>=◌, at_last)
            refl,
      )

  advance-next :
      (fs : List ℕ) (ix k : ℕ) (t : T) (e : Row) (g : ℕ) (op : Opens g)
      → length fs ≡ ix + 2 + k
      → at fs (ix + 1) ≡ some g
      → Ahead t (e ∷ [])
      → advance table get_table meta (standing fs ix t)
        ≡ some (true, standing fs (ix + 1) op.started)
  unfolding advance advance_loop open_table
  advance-next fs ix k t e g op n next a =
      let (t', q, a') = fwd.advance_end t e a in
      let some_files : (length fs == 0) ≡ false = ground (arith, n) in
      let more_files : leb (length fs - 1) ix ≡ false = ground (arith, n) in
      rw
        (
          advance,
          two_rounds (length fs),
          advance_loop,
          some_files,
          ◌>>◌,
          q,
          ◌>>=◌,
          more_files,
          open_table,
          next,
          ◌>>=◌,
          op.get_eq,
          advance_loop,
          some_files,
          ◌>>◌,
          op.advance_eq,
          ◌>>=◌,
        )
        refl

  advance-first :
      (f : ℕ) (fs : List ℕ) (op : Opens f)
      → advance table get_table meta (new_version_iter (f ∷ fs))
        ≡ some (true, standing (f ∷ fs) 0 op.started)
  unfolding advance advance_loop open_table new_version_iter
  advance-first f fs op =
      let some_files : (suc (length fs) == 0) ≡ false = ground (arith) in
      rw
        (
          advance,
          new_version_iter,
          two_rounds (suc (length fs)),
          advance_loop,
          some_files,
          ◌>>◌,
          ◌>>=◌,
          open_table,
          op.get_eq,
          advance_loop,
          some_files,
          ◌>>◌,
          op.advance_eq,
          ◌>>=◌,
        )
        refl

  -- At most `n` calls of advance, as long as they answer true, and the row that is current after each.
  unfoldable pub scan : ℕ → VersionIter T → Option (List Row)
  scan zero it = some []
  scan (suc n) it = do
    (more, it') ← advance table get_table meta it
    elim more [
      | false ↦ some []
      | true ↦ do
        here ← current table get_table meta it'
        row ← here
        rest ← scan n it'
        some (row ∷ rest)
    ]

  scan-step :
      (n : ℕ) (it : VersionIter T) (fs : List ℕ) (ix : ℕ) (t : T) (e : Row) (es left : List Row)
      → advance table get_table meta it ≡ some (true, standing fs ix t)
      → Ahead t (e ∷ es)
      → scan n (standing fs ix t) ≡ some left
      → scan (suc n) it ≡ some (e ∷ left)
  unfolding scan current
  scan-step n it fs ix t e es left q a r =
      rw (scan, q, ◌>>=◌, current, fwd.current_more t e es a, ◌>>=◌, r, ◌>>=◌) refl

  scan-behind :
      (n : ℕ) (fs pre : List ℕ) (f : ℕ) (post : List ℕ) (ix : ℕ) (t : T) (e : Row) (es : List Row)
      → fs ≡ pre ++ f ∷ post
      → ix ≡ length pre
      → Ahead t (e ∷ es)
      → All Opens post
      → length (es ++ all_rows post) < n
      → scan n (standing fs ix t) ≡ some (es ++ all_rows post)
  unfolding scan
  scan-behind zero fs pre f post ix t e es q i a ops h = absurd (omega (arith, h))
  scan-behind (suc n) fs pre f post ix t e (e' ∷ es) q i a ops h =
      let some_files : 0 < length fs = omega (arith, ap length q, length-append pre (f ∷ post)) in
      let (t', z, a') = advance-within fs ix t e e' es some_files a in
      scan-step n (standing fs ix t) fs ix t' e' es (es ++ all_rows post) z a'
        (scan-behind n fs pre f post ix t' e' es q i a' ops (omega (arith, h)))
  scan-behind (suc n) fs pre f [] ix t e [] q i a ops h =
      let last : length fs ≡ ix + 1 = omega (arith, ap length q, length-append pre (f ∷ []), i) in
      let (it, z) = advance-last fs ix t e last a in rw (scan, z, ◌>>=◌) refl
  scan-behind (suc n) fs pre f (g ∷ post) ix t e [] q i a ops h =
      let op = ops.0 in
      let more : length fs ≡ ix + 2 + length post =
        omega (arith, ap length q, length-append pre (f ∷ g ∷ post), i) in
      let q' : fs ≡ (pre ++ f ∷ []) ++ g ∷ post = q ∙ sym (append_assoc pre (f ∷ []) (g ∷ post)) in
      let i' : ix + 1 ≡ length (pre ++ f ∷ []) = omega (arith, length-append pre (f ∷ []), i) in
      let next : at fs (ix + 1) ≡ some g =
        (λ k. at (q' k) (i' k)) ∙ at-middle (pre ++ f ∷ []) g post in
      let rows_left : rows g ++ all_rows post ≡ op.first ∷ (op.others ++ all_rows post) =
        ap (λ l. l ++ all_rows post) op.rows_eq in
      let rest =
        scan-behind n fs (pre ++ f ∷ []) g post (ix + 1) op.started op.first op.others q' i'
          op.ahead ops.1 (omega (arith, h, ap length rows_left)) in
      scan-step n (standing fs ix t) fs (ix + 1) op.started op.first op.others
        (op.others ++ all_rows post) (advance-next fs ix (length post) t e g op more next a)
        op.ahead rest
      ∙ ap some (sym rows_left)

  -- Let the tables of the files of a level, one file at least, open and hold rows, one each at least. A new
  -- iterator over the files, advanced more often than there are rows, shows the rows of all tables, those of
  -- the first file first, and then ends.
  pub scan-all_rows :
      (n f : ℕ) (fs : List ℕ)
      → All Opens (f ∷ fs)
      → length (all_rows (f ∷ fs)) < n
      → scan n (new_version_iter (f ∷ fs)) ≡ some (all_rows (f ∷ fs))
  unfolding scan
  scan-all_rows zero f fs ops h = absurd (omega (arith, h))
  scan-all_rows (suc n) f fs ops h =
      let op = ops.0 in
      let rows_left : rows f ++ all_rows fs ≡ op.first ∷ (op.others ++ all_rows fs) =
        ap (λ l. l ++ all_rows fs) op.rows_eq in
      let rest =
        scan-behind n (f ∷ fs) [] f fs 0 op.started op.first op.others refl refl op.ahead ops.1
          (omega (arith, h, ap length rows_left)) in
      scan-step n (new_version_iter (f ∷ fs)) (f ∷ fs) 0 op.started op.first op.others
        (op.others ++ all_rows fs) (advance-first f fs op) op.ahead rest
      ∙ ap some (sym rows_left)

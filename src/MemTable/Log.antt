-- ===== src/MemTable/Log.antt =====
-- The table of src/memtable.rs against the list of its writes, in the order in which they came.
use leveldb_rs.Base.{
  ℕ, ◌+◌, ◌^◌, ◌<◌, ◌≡◌, ◌≢◌, refl, ap, sym, ◌∙◌, arith, Bool, true, false, Option, none, some,
  List, [], ◌∷◌, ◌++◌, All, length, if◌then◌else◌, Bool-cases, inl, inr, ◌>>=◌,
}
use leveldb_rs.Coding.{Bytes, IsU64, IntegerEncoding}
use leveldb_rs.Cmp.{Cmp}
use leveldb_rs.Cmp.Order.{IsTotal, bytes_eq_iff}
use leveldb_rs.KeyTypes
use leveldb_rs.SkipMap.Order.{All-left}
use leveldb_rs.MemTable.{MemTable, add, get, new}
use leveldb_rs.MemTable.Versions.{Entry, version, newer, is_visible, visible, report}
use leveldb_rs.MemTable.Get.{EntryFits}
use leveldb_rs.MemTable.Table.{IsTable}
use leveldb_rs.MemTable.Lookup.{get-eq}
use leveldb_rs.MemTable.Add.{add-IsTable, new-IsTable}
use mathlib.Core.Path.{subst}

newer_swap :
    (a b : Entry) (x : Option Entry) → a.seq ≢ b.seq → newer a (newer b x) ≡ newer b (newer a x)
newer_swap a b none h = ground (arith, h)
newer_swap a b (some x) h = ground (arith, h)

module _ (k : Bytes) (s : ℕ) where
  same_key : (e : Entry) → is_visible k s e ≡ true → k ≡ e.user
  same_key e h = (bytes_eq_iff k e.user).0 (ground (arith, h))

  visible_step :
      (e : Entry) (es : List Entry) (b : Bool)
      → is_visible k s e ≡ b
      → visible k s (e ∷ es) ≡ (if b then newer e (visible k s es) else visible k s es)
  unfolding visible
  visible_step e es b h = ap (λ x. if x then newer e (visible k s es) else visible k s es) h

  -- Writes of different versions can be exchanged.
  visible_swap :
      (a b : Entry) (es : List Entry)
      → version a ≢ version b
      → visible k s (a ∷ b ∷ es) ≡ visible k s (b ∷ a ∷ es)
  visible_swap a b es h = elim (Bool-cases (is_visible k s a)) [
    | inr f ↦ elim (Bool-cases (is_visible k s b)) [
      | inr g ↦
          visible_step a (b ∷ es) false f
          ∙ visible_step b es false g
          ∙ sym (visible_step b (a ∷ es) false g ∙ visible_step a es false f)
      | inl g ↦
          visible_step a (b ∷ es) false f
          ∙ visible_step b es true g
          ∙ sym (visible_step b (a ∷ es) true g ∙ ap (newer b) (visible_step a es false f))
    ]
    | inl f ↦ elim (Bool-cases (is_visible k s b)) [
      | inr g ↦
          visible_step a (b ∷ es) true f
          ∙ ap (newer a) (visible_step b es false g)
          ∙ sym (visible_step b (a ∷ es) false g ∙ visible_step a es true f)
      | inl g ↦
          visible_step a (b ∷ es) true f
          ∙ ap (newer a) (visible_step b es true g)
          ∙ newer_swap a b (visible k s es) (λ z.
            h (ap (λ u. (u, a.seq)) (sym (same_key a f) ∙ same_key b g) ∙ ap (λ n. (b.user, n)) z))
          ∙ sym (visible_step b (a ∷ es) true g ∙ ap (newer b) (visible_step a es true f))
    ]
  ]

  visible_cons :
      (e : Entry) (xs ys : List Entry)
      → visible k s xs ≡ visible k s ys
      → visible k s (e ∷ xs) ≡ visible k s (e ∷ ys)
  unfolding visible
  visible_cons e xs ys h = ap (λ v. if is_visible k s e then newer e v else v) h

  visible_insert :
      (e : Entry) (em er : List Entry)
      → All (λ e'. version e' ≢ version e) em
      → visible k s (em ++ e ∷ er) ≡ visible k s (e ∷ (em ++ er))
  visible_insert e [] er h = refl
  visible_insert e (a ∷ em) er h =
      visible_cons a (em ++ e ∷ er) (e ∷ (em ++ er)) (visible_insert e em er h.1)
      ∙ visible_swap a e (em ++ er) h.0

All_insert :
    (P : Entry → Type 0) (e : Entry) (em er : List Entry)
    → P e
    → All P (em ++ er)
    → All P (em ++ e ∷ er)
All_insert P e [] er p h = (p, h)
All_insert P e (a ∷ em) er p h = (h.0, All_insert P e em er p h.1)

-- No two writes are of the same user key and sequence number.
abbrev pub HaveVersions : List Entry → Type 0
HaveVersions [] = Unit {0}
HaveVersions (e ∷ log) = All (λ e'. version e' ≢ version e) log × HaveVersions log

module _ ⦃ie : IntegerEncoding⦄ {R : Type 0} (c : Cmp) (next_u32 : R → ℕ × R)
    (node_size link_size : ℕ) where
  -- The writes, the last first, put into a new table one after the other.
  unfoldable pub add_all : R → ℕ → List Entry → Option (MemTable R)
  add_all seed base [] = some (new seed base)
  add_all seed base (e ∷ log) = do
    mt ← add_all seed base log
    add next_u32 c node_size link_size mt e.seq e.type e.user e.value

module _ ⦃ie : IntegerEncoding⦄ {R : Type 0} {c : Cmp} (o : IsTotal c) where
  -- The table holds what was written, the last write first.
  pub record HoldsLog (mt : MemTable R) (log : List Entry) : Type 1 where
    pub entries : List Entry
    pub table : IsTable o mt entries
    pub seen : (k : Bytes) (s : ℕ) → visible k s entries ≡ visible k s log
    pub writes : (P : Entry → Type 0) → All P log → All P entries

  module _ (next_u32 : R → ℕ × R) (node_size link_size : ℕ) where
    add_all-HoldsLog :
        (seed : R) (base : ℕ) (log : List Entry)
        → All EntryFits log
        → HaveVersions log
        → (mt : MemTable R) × (add_all c next_u32 node_size link_size seed base log ≡ some mt)
          × HoldsLog mt log
    unfolding add_all
    add_all-HoldsLog seed base [] f v = (
      new seed base,
      refl,
      record {
        entries = [];
        table = new-IsTable o seed base;
        seen = λ k s. refl;
        writes = λ P h. h;
      },
    )
    add_all-HoldsLog seed base (e ∷ log) f v =
        let (mt, q, h) = add_all-HoldsLog seed base log f.1 v.1 in
        let other = h.writes (λ e'. version e' ≢ version e) v.0 in
        let (mt', em, er, ee, a, t) =
          add-IsTable o next_u32 node_size link_size mt h.entries e h.table f.0 other in
        let apart = subst (λ l. All (λ e'. version e' ≢ version e) l) ee other in
        (
          mt',
          rw (add_all, q, ◌>>=◌) a,
          record {
            entries = em ++ e ∷ er;
            table = t;
            seen = λ k s.
                visible_insert k s e em er (All-left (λ e'. version e' ≢ version e) em er apart)
                ∙ visible_cons k s e (em ++ er) log (ap (visible k s) (sym ee) ∙ h.seen k s);
            writes = λ P p. All_insert P e em er p.0 (subst (λ l. All P l) ee (h.writes P p.1));
          },
        )

    -- Let the user comparator be total, and let no two writes be of the same user key and sequence number,
    -- every sequence number be below 2^56 and every length fit 64 bits. Then no add panics, whatever
    -- the generator answers, and in the table that the adds make, in whatever order they come, get
    -- with any lookup key, of a sequence number below 2^56 and a user key whose length plus 8 fits 64
    -- bits, answers the newest write of the user key up to the sequence number: its value, or that it
    -- is a deletion, or nothing when there is no such write.
    pub get-add_all :
        (seed : R) (base : ℕ) (log : List Entry) (k : Bytes) (s : ℕ)
        → All EntryFits log
        → HaveVersions log
        → s < 2 ^ 56
        → IsU64 (length k + 8)
        → (mt : MemTable R) × (add_all c next_u32 node_size link_size seed base log ≡ some mt)
          × ((KeyTypes.new k s >>= λ key. get c mt key) ≡ some (report (visible k s log)))
    get-add_all seed base log k s f v hs hk =
        let (mt, q, h) = add_all-HoldsLog seed base log f v in
        (mt, q, get-eq o mt h.entries k s h.table hs hk ∙ ap (λ x. some (report x)) (h.seen k s))

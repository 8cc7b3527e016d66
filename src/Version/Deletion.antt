-- ===== src/Version/Deletion.antt =====
-- get of src/version.rs where a table answers the deletion of another key.
use leveldb_rs.Base.{
  ℕ, ◌^◌, ◌<◌, ◌≡◌, ◌≢◌, refl, arith, false, Option, none, some, List, [], ◌∷◌, ==_refl, ◌==◌,
  if◌then◌else◌, ◌>>=◌,
}
use leveldb_rs.Coding.{Bytes, IntegerEncoding}
use leveldb_rs.Cmp.{Cmp}
use leveldb_rs.Cmp.Order.{IsTotal}
use leveldb_rs.KeyTypes.{ValueType, type_value, type_deletion}
use leveldb_rs.KeyTypes.Formats.{internal_bytes, parse_internal_key-eq}
use leveldb_rs.VersionEdit.{FileMetaData}
use leveldb_rs.Version.{Version}
use leveldb_rs.Version.Get.{GetStats, done, get_overlapping, get_found, get_level, get_levels, get}
use leveldb_rs.Version.Ranges.{user_part-eq}

-- The same tables, but for one that answers nothing.
abbrev pub without : (ℕ → Bytes → Option (Bytes × Bytes)) → ℕ → ℕ → Bytes → Option (Bytes × Bytes)
without table_get n m k = if m == n then none else table_get m k

module _ ⦃ie : IntegerEncoding⦄ {c : Cmp} (o : IsTotal c) (meta : ℕ → FileMetaData) where
  found_deletion :
      (tables : ℕ → Bytes → Option (Bytes × Bytes)) (u u' v : Bytes) (s : ℕ) (stats : GetStats)
      → s < 2 ^ 56
      → get_found c meta tables u (internal_bytes u' s type_deletion) v stats ≡ some (done none)
  unfolding get_found
  found_deletion tables u u' v s stats h =
      rw (get_found, parse_internal_key-eq u' s type_deletion h, ◌>>=◌) refl

  found_value :
      (tables : ℕ → Bytes → Option (Bytes × Bytes)) (u v : Bytes) (s : ℕ) (stats : GetStats)
      → s < 2 ^ 56
      → get_found c meta tables u (internal_bytes u s type_value) v stats
        ≡ some (done (some (v, stats)))
  unfolding get_found
  found_value tables u v s stats h =
      rw
        (
          get_found,
          parse_internal_key-eq u s type_value h,
          ◌>>=◌,
          o.cmp_order u u,
          ◌>>=◌,
          o.order_refl u,
        )
        refl

  -- Let the table of a file that get reads first answer the deletion of another user key, and that of the
  -- file of the next level the key's value. Then get answers nothing, although it answers the value if the
  -- first table has no such entry.
  pub get_hidden_by_deletion :
      (table_get : ℕ → Bytes → Option (Bytes × Bytes)) (v : Version) (u u' value value' : Bytes)
      (s s' s'' : ℕ) (t : ValueType) (f g : ℕ) (deeper : List (List ℕ))
      → get_overlapping c meta v (internal_bytes u s t) ≡ some ((f ∷ []) ∷ (g ∷ []) ∷ deeper)
      → s < 2 ^ 56
      → s' < 2 ^ 56
      → s'' < 2 ^ 56
      → u' ≢ u
      → (meta g).num ≢ (meta f).num
      → table_get (meta f).num (internal_bytes u s t)
        ≡ some (internal_bytes u' s' type_deletion, value')
      → table_get (meta g).num (internal_bytes u s t)
        ≡ some (internal_bytes u s'' type_value, value)
      → (get c meta table_get v (internal_bytes u s t) ≡ some none)
        × (get c meta (without table_get (meta f).num) v (internal_bytes u s t)
            ≡ some (some (value, record { file = none; level = 0 })))
  unfolding get get_levels get_level
  get_hidden_by_deletion table_get v u u' value value' s s' s'' t f g deeper over h h' h'' ne num tf
        tg =
      let start : GetStats = record { file = none; level = 0 } in
      let other : ((meta g).num == (meta f).num) ≡ false = ground (arith, num) in
      (
        rw
            (
              get,
              over,
              user_part-eq u s t h,
              ◌>>=◌,
              tf,
              found_deletion table_get u u' value' s' start h',
            )
            refl,
        rw
            (
              get,
              over,
              user_part-eq u s t h,
              ◌>>=◌,
              ==_refl (meta f).num,
              other,
              tg,
              found_value (without table_get (meta f).num) u value s'' start h'',
            )
            refl,
      )

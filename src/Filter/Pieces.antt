-- ===== src/Filter/Pieces.antt =====
-- src/filter.rs: keys that lie one behind the other, and the policy over internal keys.
use leveldb_rs.Base.{
  ℕ, ◌+◌, ◌*◌, ◌≤◌, ◌≡◌, refl, ap, sym, ◌∙◌, arith, some, List, [], ◌∷◌, ◌++◌, length,
  length-append, append_assoc, take_append, slice, slice_middle, checked_sub, checked_sub-some,
  ◌>>=◌, All,
}
use leveldb_rs.Coding.{Bytes}
use leveldb_rs.Filter.{
  FilterPolicy, offset_data_iterate, user_keys, concat, offsets_from, create_internal_filter,
  internal_key_may_match,
}

slice_first :
    (pre key rest : Bytes) (hi : ℕ)
    → hi ≡ length pre + length key
    → slice (pre ++ (key ++ rest)) (length pre) hi ≡ some key
slice_first pre key rest hi h = slice_middle pre key rest (length pre) hi refl h

-- The pieces of a concatenation, behind any bytes.
pub pieces_behind :
    (pre : Bytes) (keys : List Bytes)
    → offset_data_iterate (pre ++ concat keys) (offsets_from (length pre) keys) ≡ some keys
unfolding offset_data_iterate offsets_from
pieces_behind pre [] = refl
pieces_behind pre (key ∷ []) =
    rw
      (slice_first pre key [] (length (pre ++ (key ++ [])))
        (omega (arith, length-append pre (key ++ []), length-append key [])))
      refl
pieces_behind pre (key ∷ key' ∷ keys) =
    let ih = pieces_behind (pre ++ key) (key' ∷ keys) in
    let ih' : offset_data_iterate (pre ++ (key ++ concat (key' ∷ keys)))
          (offsets_from (length pre + length key) (key' ∷ keys))
        ≡ some (key' ∷ keys) =
      ap (λ t. offset_data_iterate t (offsets_from (length pre + length key) (key' ∷ keys)))
        (sym (append_assoc pre key (concat (key' ∷ keys))))
      ∙ ap
          (λ n.
            offset_data_iterate ((pre ++ key) ++ concat (key' ∷ keys))
              (offsets_from n (key' ∷ keys)))
          (sym (length-append pre key))
      ∙ ih in
    rw (slice_first pre key (concat (key' ∷ keys)) (length pre + length key) refl, ◌>>=◌, ih') refl

-- An internal key's parts: the user key and the tag.
abbrev pub IsTagged : Bytes × Bytes → Type 0
IsTagged p = length p.1 ≡ 8

abbrev pub internal_keys : List (Bytes × Bytes) → List Bytes
internal_keys [] = []
internal_keys ((u, t) ∷ l) = (u ++ t) ∷ internal_keys l

abbrev pub first_parts : List (Bytes × Bytes) → List Bytes
first_parts [] = []
first_parts ((u, t) ∷ l) = u ∷ first_parts l

strip_tag : (u t : Bytes) → length t ≡ 8 → checked_sub (length (u ++ t)) 8 ≡ some (length u)
strip_tag u t h =
    checked_sub-some (length (u ++ t)) 8 (omega (arith, length-append u t))
    ∙ ap some (omega (arith, length-append u t))

user_keys-internal_keys :
    (l : List (Bytes × Bytes)) → All IsTagged l → user_keys (internal_keys l) ≡ some (first_parts l)
unfolding user_keys
user_keys-internal_keys [] h = refl
user_keys-internal_keys ((u, t) ∷ l) h =
    rw (strip_tag u t h.0, ◌>>=◌, user_keys-internal_keys l h.1)
      (ap (λ k. some (k ∷ first_parts l)) (take_append (length u) u t refl))

capacity_fits :
    (l : List (Bytes × Bytes)) (n : ℕ)
    → All IsTagged l
    → length (offsets_from n (internal_keys l)) * 8 ≤ length (concat (internal_keys l))
unfolding offsets_from
capacity_fits [] n h = omega arith
capacity_fits ((u, t) ∷ l) n h = omega (
  arith,
  h.0,
  length-append u t,
  length-append (u ++ t) (concat (internal_keys l)),
  capacity_fits l (n + length (u ++ t)) h.1,
)

-- Over internal keys that lie one behind the other, the policy creates the filter of their user keys,
-- and it matches an internal key as the wrapped policy matches its user key.
pub internal_filter-user_keys :
    (internal : FilterPolicy) (l : List (Bytes × Bytes)) (u t filter : Bytes)
    → All IsTagged l
    → length t ≡ 8
    → (create_internal_filter internal (concat (internal_keys l)) (offsets_from 0 (internal_keys l))
        ≡ internal.create_filter (concat (first_parts l)) (offsets_from 0 (first_parts l)))
      × (internal_key_may_match internal (u ++ t) filter ≡ internal.key_may_match u filter)
unfolding create_internal_filter internal_key_may_match
internal_filter-user_keys internal l u t filter h ht = (
  rw
      (
        checked_sub-some (length (concat (internal_keys l)))
            (length (offsets_from 0 (internal_keys l)) * 8) (capacity_fits l 0 h),
        ◌>>=◌,
        pieces_behind [] (internal_keys l),
        user_keys-internal_keys l h,
      )
      refl,
  rw (strip_tag u t ht, ◌>>=◌)
      (ap (λ k. internal.key_may_match k filter) (take_append (length u) u t refl)),
)

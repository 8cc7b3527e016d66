-- ===== src/FilterBlock/Builder.antt =====
-- The builder of src/filter_block.rs against the filters that it holds and the keys that wait for one.
use leveldb_rs.Base.{
  ℕ, ◌+◌, ◌<◌, ◌≡◌, refl, ap, sym, ◌∙◌, arith, true, false, some, List, [], ◌∷◌, ◌++◌, append-nil,
  append_assoc, length, length-append, ◌==◌, ◌>>=◌,
}
use leveldb_rs.Coding.{Bytes}
use leveldb_rs.Filter.{FilterPolicy, concat, offsets_from}
use leveldb_rs.FilterBlock.{FilterBlockBuilder, new, add_key, generate_filter}

pub concat-append : (xs ys : List Bytes) → concat (xs ++ ys) ≡ concat xs ++ concat ys
concat-append [] ys = refl
concat-append (x ∷ xs) ys =
    ap (λ t. x ++ t) (concat-append xs ys) ∙ sym (append_assoc x (concat xs) (concat ys))

pub offsets_from-append :
    (n : ℕ) (xs ys : List Bytes)
    → offsets_from n (xs ++ ys) ≡ offsets_from n xs ++ offsets_from (n + length (concat xs)) ys
unfolding offsets_from
offsets_from-append n [] ys = ap (λ m. offsets_from m ys) (omega arith)
offsets_from-append n (x ∷ xs) ys =
    ap (λ t. n ∷ t)
      (offsets_from-append (n + length x) xs ys
        ∙ ap (λ m. offsets_from (n + length x) xs ++ offsets_from m ys)
            (omega (arith, length-append x (concat xs))))

concat-snoc : (xs : List Bytes) (x : Bytes) → concat (xs ++ x ∷ []) ≡ concat xs ++ x
concat-snoc xs x = concat-append xs (x ∷ []) ∙ ap (λ t. concat xs ++ t) (append-nil x)

offsets_from-snoc :
    (xs : List Bytes) (x : Bytes)
    → offsets_from 0 (xs ++ x ∷ []) ≡ offsets_from 0 xs ++ length (concat xs) ∷ []
unfolding offsets_from
offsets_from-snoc xs x =
    offsets_from-append 0 xs (x ∷ []) ∙ ap (λ m. offsets_from 0 xs ++ m ∷ []) (omega arith)

-- The builder holds the filters `fs`, and the keys `ks` wait for theirs.
pub record IsBuilt (b : FilterBlockBuilder) (fs : List Bytes) (ks : List Bytes) : Type 0 where
  pub filters_eq : b.filters ≡ concat fs
  pub offsets_eq : b.filter_offsets ≡ offsets_from 0 fs
  pub key_offsets_eq : b.key_offsets ≡ offsets_from 0 ks
  pub keys_eq : b.keys ≡ concat ks

pub new-IsBuilt : IsBuilt new [] []
unfolding new offsets_from
new-IsBuilt = record { filters_eq = refl; offsets_eq = refl; key_offsets_eq = refl; keys_eq = refl }

pub add_key-IsBuilt :
    (b : FilterBlockBuilder) (fs ks : List Bytes) (key : Bytes)
    → IsBuilt b fs ks
    → IsBuilt (add_key b key) fs (ks ++ key ∷ [])
unfolding add_key
add_key-IsBuilt b fs ks key h = record {
  filters_eq = h.filters_eq;
  offsets_eq = h.offsets_eq;
  key_offsets_eq =
      ap (λ o. o ++ length b.keys ∷ []) h.key_offsets_eq
      ∙ ap (λ k. offsets_from 0 ks ++ length k ∷ []) h.keys_eq
      ∙ sym (offsets_from-snoc ks key);
  keys_eq = ap (λ k. k ++ key) h.keys_eq ∙ sym (concat-snoc ks key);
}

module _ (policy : FilterPolicy) (b : FilterBlockBuilder) (fs ks : List Bytes)
    (h : IsBuilt b fs ks) where
  -- The offset that generate_filter adds is that of the filter behind the others.
  offset_added :
      (f : Bytes) → b.filter_offsets ++ length b.filters ∷ [] ≡ offsets_from 0 (fs ++ f ∷ [])
  offset_added f =
      ap (λ o. o ++ length b.filters ∷ []) h.offsets_eq
      ∙ ap (λ t. offsets_from 0 fs ++ length t ∷ []) h.filters_eq
      ∙ sym (offsets_from-snoc fs f)

  -- With no bytes of keys an empty filter is added, and the keys stay.
  pub generate_filter-empty :
      length (concat ks) ≡ 0
      → (b' : FilterBlockBuilder) × (generate_filter policy b ≡ some b')
        × IsBuilt b' (fs ++ [] ∷ []) ks
  unfolding generate_filter
  generate_filter-empty e =
      let z : (length b.keys == 0) ≡ true = ground (arith, ap length h.keys_eq, e) in
      (
        record b { filter_offsets = b.filter_offsets ++ length b.filters ∷ [] },
        rw (generate_filter, z) refl,
        record {
          filters_eq = h.filters_eq ∙ sym (concat-snoc fs [] ∙ append-nil (concat fs));
          offsets_eq = offset_added [];
          key_offsets_eq = h.key_offsets_eq;
          keys_eq = h.keys_eq;
        },
      )

  pub generate_filter-IsBuilt :
      (f : Bytes)
      → 0 < length (concat ks)
      → policy.create_filter (concat ks) (offsets_from 0 ks) ≡ some f
      → (b' : FilterBlockBuilder) × (generate_filter policy b ≡ some b')
        × IsBuilt b' (fs ++ f ∷ []) []
  unfolding generate_filter offsets_from
  generate_filter-IsBuilt f n e =
      let z : (length b.keys == 0) ≡ false = ground (arith, ap length h.keys_eq, n) in
      let c : policy.create_filter b.keys b.key_offsets ≡ some f =
        ap (λ k. policy.create_filter k b.key_offsets) h.keys_eq
        ∙ ap (policy.create_filter (concat ks)) h.key_offsets_eq
        ∙ e in
      (
        record {
          filters = b.filters ++ f;
          filter_offsets = b.filter_offsets ++ length b.filters ∷ [];
          key_offsets = [];
          keys = [];
        },
        rw (generate_filter, z, c, ◌>>=◌) refl,
        record {
          filters_eq = ap (λ t. t ++ f) h.filters_eq ∙ sym (concat-snoc fs f);
          offsets_eq = offset_added f;
          key_offsets_eq = refl;
          keys_eq = refl;
        },
      )

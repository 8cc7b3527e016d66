-- ===== src/WriteBatch/Iteration.antt =====
-- The iterator reads one entry after the other, and it comes to an end on any bytes.
use leveldb_rs.Base.{get_or_append}
use leveldb_rs.Base.{◌⊎◌}
use leveldb_rs.Base.{
  ℕ, zero, suc, ◌+◌, ◌-◌, ◌<◌, ◌≤◌, ◌≡◌, ◌≢◌, refl, ap, sym, ◌∙◌, arith, Option, none, some, [],
  ◌∷◌, ◌++◌, length, length-append, append_assoc, slice, slice_middle, slice_from_append, inl, inr,
}
use leveldb_rs.Coding.{Bytes, IsU64, IntegerEncoding, encode_var, required_space}
use leveldb_rs.WriteBatch.{
  WriteBatch, Step, item, finished, panicked, Items, done, failed, stuck, add_item, next_value,
  next_entry, next, iterate, iter,
}
use leveldb_rs.WriteBatch.Contents.{entry_bytes}

module _ ⦃ie : IntegerEncoding⦄ where
  -- A length-prefixed string in the middle of the bytes.
  abbrev prefixed : Bytes → Bytes
  prefixed k = encode_var (length k) ++ k

  slice_prefixed :
      (pre k rest : Bytes) (i : ℕ)
      → i ≡ length pre
      → slice
          (pre ++ (encode_var (length k) ++ (k ++ rest)))
          (i + required_space (length k))
          (i + required_space (length k) + length k)
        ≡ some k
  slice_prefixed pre k rest i h =
      ap (λ l. slice l (i + required_space (length k)) (i + required_space (length k) + length k))
        (sym (append_assoc pre (encode_var (length k)) (k ++ rest)))
      ∙ slice_middle (pre ++ encode_var (length k)) k rest _ _
          (omega
            (arith, length-append pre (encode_var (length k)), ie.length-encode_var (length k)))
          refl

  next_value-eq :
      (pre key v rest : Bytes) (ix : ℕ)
      → ix ≡ length pre
      → IsU64 (length v)
      → next_value (pre ++ (encode_var (length v) ++ (v ++ rest))) key ix
        ≡ item key (some v) (ix + required_space (length v) + length v)
  unfolding next_value
  next_value-eq pre key v rest ix h fits = ground (
    arith,
    slice_from_append pre (encode_var (length v) ++ (v ++ rest)) ix h,
    ie.decode-encode_var (length v) (v ++ rest) fits,
    slice_prefixed pre v rest ix h,
  )

  next_entry_value :
      (pre k v rest : Bytes) (ix : ℕ)
      → ix ≡ length pre
      → IsU64 (length k)
      → IsU64 (length v)
      → next_entry
          (pre ++ (encode_var (length k) ++ (k ++ (encode_var (length v) ++ (v ++ rest)))))
          1
          ix
        ≡ item k
            (some v)
            (ix + required_space (length k) + length k + required_space (length v) + length v)
  unfolding next_entry
  next_entry_value pre k v rest ix h hk hv =
      let more = encode_var (length v) ++ (v ++ rest) in
      let regroup : (pre ++ (encode_var (length k) ++ k)) ++ more
          ≡ pre ++ (encode_var (length k) ++ (k ++ more)) =
        simp append_assoc in
      ground (
        arith,
        slice_from_append pre (encode_var (length k) ++ (k ++ more)) ix h,
        ie.decode-encode_var (length k) (k ++ more) hk,
        slice_prefixed pre k more ix h,
        ap (λ l. next_value l k (ix + required_space (length k) + length k)) regroup,
        next_value-eq (pre ++ (encode_var (length k) ++ k)) k v rest
            (ix + required_space (length k) + length k)
            (omega (
              arith,
              length-append pre (encode_var (length k) ++ k),
              length-append (encode_var (length k)) k,
              ie.length-encode_var (length k),
            ))
            hv,
      )

  next_entry_deletion :
      (pre k rest : Bytes) (ix : ℕ)
      → ix ≡ length pre
      → IsU64 (length k)
      → next_entry (pre ++ (encode_var (length k) ++ (k ++ rest))) 0 ix
        ≡ item k none (ix + required_space (length k) + length k)
  unfolding next_entry
  next_entry_deletion pre k rest ix h hk = ground (
    arith,
    slice_from_append pre (encode_var (length k) ++ (k ++ rest)) ix h,
    ie.decode-encode_var (length k) (k ++ rest) hk,
    slice_prefixed pre k rest ix h,
  )

  abbrev pub IsSmall : Bytes × Option Bytes → Type 0
  IsSmall (k, some v) = IsU64 (length k) × IsU64 (length v)
  IsSmall (k, none) = IsU64 (length k)

  pub next-entry_bytes :
      (pre k : Bytes) (v : Option Bytes) (rest : Bytes) (ix : ℕ)
      → ix ≡ length pre
      → IsSmall (k, v)
      → next (pre ++ (entry_bytes k v ++ rest)) ix ≡ item k v (ix + length (entry_bytes k v))
  unfolding next
  next-entry_bytes pre k (some v) rest ix h small =
      let body = encode_var (length k) ++ (k ++ (encode_var (length v) ++ v)) in
      let e : pre ++ 1 ∷ (body ++ rest)
          ≡ (pre ++ 1 ∷ [])
            ++ (encode_var (length k) ++ (k ++ (encode_var (length v) ++ (v ++ rest)))) =
        simp append_assoc in
      ground (
        arith,
        length-append pre (1 ∷ (body ++ rest)),
        get_or_append pre 1 (body ++ rest) ix 0 h,
        ap (λ l. next_entry l 1 (ix + 1)) e,
        next_entry_value (pre ++ 1 ∷ []) k v rest (ix + 1)
            (omega (arith, length-append pre (1 ∷ []))) small.0 small.1,
        length-append (encode_var (length k)) (k ++ (encode_var (length v) ++ v)),
        length-append k (encode_var (length v) ++ v),
        length-append (encode_var (length v)) v,
        ie.length-encode_var (length k),
        ie.length-encode_var (length v),
      )
  next-entry_bytes pre k none rest ix h small =
      let body = encode_var (length k) ++ k in
      let e : pre ++ 0 ∷ (body ++ rest)
          ≡ (pre ++ 0 ∷ []) ++ (encode_var (length k) ++ (k ++ rest)) =
        simp append_assoc in
      ground (
        arith,
        length-append pre (0 ∷ (body ++ rest)),
        get_or_append pre 0 (body ++ rest) ix 0 h,
        ap (λ l. next_entry l 0 (ix + 1)) e,
        next_entry_deletion (pre ++ 0 ∷ []) k rest (ix + 1)
            (omega (arith, length-append pre (0 ∷ []))) small,
        length-append (encode_var (length k)) k,
        ie.length-encode_var (length k),
      )

  pub next-end : (entries : Bytes) (ix : ℕ) → length entries ≤ ix → next entries ix ≡ finished
  unfolding next
  next-end entries ix h = ground arith

  next_value-gt :
      (entries key : Bytes) (ix : ℕ) {k : Bytes} {v : Option Bytes} {ix' : ℕ}
      → next_value entries key ix ≡ item k v ix'
      → ix ≤ ix'
  unfolding next_value
  next_value-gt entries key ix h = ground arith

  next_entry-gt :
      (entries : Bytes) (tag ix : ℕ) {k : Bytes} {v : Option Bytes} {ix' : ℕ}
      → next_entry entries tag ix ≡ item k v ix'
      → ix ≤ ix'
  unfolding next_entry
  next_entry-gt entries tag ix h = ground arith

  -- Every item takes a byte at least.
  pub next-gt :
      (entries : Bytes) (ix : ℕ) {k : Bytes} {v : Option Bytes} {ix' : ℕ}
      → next entries ix ≡ item k v ix'
      → (ix < ix') × (ix < length entries)
  unfolding next
  next-gt entries ix h = ground arith

  add_item-ne-stuck :
      (k : Bytes) (v : Option Bytes) (l : Items) → l ≢ stuck → add_item k v l ≢ stuck
  add_item-ne-stuck k v (done l) n = λ e. cc
  add_item-ne-stuck k v failed n = λ e. cc
  add_item-ne-stuck k v stuck n = absurd (n refl)

  step-cases :
      (s : Step)
      → ((k : Bytes) × (v : Option Bytes) × (ix : ℕ) × (s ≡ item k v ix))
        ⊎ (s ≡ finished)
        ⊎ (s ≡ panicked)
  step-cases (item k v ix) = inl (k, v, ix, refl)
  step-cases finished = inr (inl refl)
  step-cases panicked = inr (inr refl)

  iterate-ne-stuck :
      (fuel : ℕ) (entries : Bytes) (ix : ℕ)
      → length entries - ix < fuel
      → iterate fuel entries ix ≢ stuck
  unfolding iterate
  iterate-ne-stuck zero entries ix h = absurd (omega arith)
  iterate-ne-stuck (suc fuel) entries ix h = elim (step-cases (next entries ix)) [
    | inl (k, v, ix', e) ↦
        rw (e, iterate)
          (add_item-ne-stuck k v _
            (iterate-ne-stuck fuel entries ix' (omega (arith, next-gt entries ix e))))
    | inr (inl e) ↦ rw (e, iterate) (λ p. cc)
    | inr (inr e) ↦ rw (e, iterate) (λ p. cc)
  ]

  -- On any contents, well formed or not, the iteration ends: by a last item or by a panic.
  pub iter-ne-stuck : (b : WriteBatch) → iter b ≢ stuck
  unfolding iter
  iter-ne-stuck b = iterate-ne-stuck (suc (length b.entries)) b.entries 12 (omega arith)

-- ===== src/WriteBatch/RoundTrip.antt =====
-- A batch gives back the operations that were put into it, also after it was sent as bytes.
use leveldb_rs.Base.{Option-cases, inl, inr}
use mathlib.Core.Path.{subst₂}
use leveldb_rs.WriteBatch.Iteration.{next-gt}
use leveldb_rs.WriteBatch.{next}
use leveldb_rs.Base.{
  ℕ, zero, suc, ◌+◌, ◌^◌, ◌<◌, ◌≡◌, refl, ap, sym, ◌∙◌, arith, Option, none, some, List, [], ◌∷◌,
  ◌++◌, length, length-append, append_assoc, append-nil, All, ◌>>=◌,
}
use leveldb_rs.Coding.{Bytes, IsU64, IntegerEncoding}
use leveldb_rs.KeyTypes.{ValueType, type_value, type_deletion}
use leveldb_rs.WriteBatch.{
  WriteBatch, new, put, delete, count, sequence, encode, set_contents, done, item, iterate, iter,
  insert_all, insert_into_memtable,
}
use leveldb_rs.WriteBatch.Contents.{
  Holds, entry_bytes, new-Holds, put-Holds, delete-Holds, count-Holds, sequence-Holds,
  set_sequence-Holds,
}
use leveldb_rs.WriteBatch.Iteration.{IsSmall, next-entry_bytes, next-end}

-- An operation on a batch: a key with a value to put, or a key to delete.
abbrev pub Op : Type 0
Op = Bytes × Option Bytes

module _ ⦃ie : IntegerEncoding⦄ where
  unfoldable pub write : List Op → WriteBatch → Option WriteBatch
  write [] b = some b
  write ((k, some v) ∷ ops) b = put b k v >>= write ops
  write ((k, none) ∷ ops) b = delete b k >>= write ops

  abbrev body_bytes : List Op → Bytes
  body_bytes [] = []
  body_bytes ((k, v) ∷ ops) = entry_bytes k v ++ body_bytes ops

  Holds-cast :
      {b : WriteBatch} {seq n m : ℕ} {body body' : Bytes}
      → n ≡ m
      → body ≡ body'
      → Holds b seq n body
      → Holds b seq m body'
  Holds-cast {b} {seq} p q h = subst₂ (λ n body. Holds b seq n body) p q h

  write-Holds :
      (ops : List Op) {b : WriteBatch} {seq n : ℕ} {body : Bytes}
      → Holds b seq n body
      → n + length ops < 2 ^ 32
      → (b' : WriteBatch) × (write ops b ≡ some b')
        × Holds b' seq (n + length ops) (body ++ body_bytes ops)
  unfolding write
  write-Holds [] {b} {seq} {n} {body} h fits =
      (b, refl, Holds-cast (omega arith) (sym (append-nil body)) h)
  write-Holds ((k, some v) ∷ ops) {b} {seq} {n} {body} h fits =
      let (b', e, h') = put-Holds k v h (omega arith) in
      let (b'', e', h'') = write-Holds ops h' (omega arith) in
      (
        b'',
        rw (e, ◌>>=◌) e',
        Holds-cast (omega arith) (append_assoc body (entry_bytes k (some v)) (body_bytes ops)) h'',
      )
  write-Holds ((k, none) ∷ ops) {b} {seq} {n} {body} h fits =
      let (b', e, h') = delete-Holds k h (omega arith) in
      let (b'', e', h'') = write-Holds ops h' (omega arith) in
      (
        b'',
        rw (e, ◌>>=◌) e',
        Holds-cast (omega arith) (append_assoc body (entry_bytes k none) (body_bytes ops)) h'',
      )

  write_fresh :
      (ops : List Op)
      → length ops < 2 ^ 32
      → (b : WriteBatch) × (write ops new ≡ some b) × Holds b 0 (length ops) (body_bytes ops)
  write_fresh ops fits =
      let (b, e, h) = write-Holds ops new-Holds (omega arith) in
      (b, e, Holds-cast (omega arith) refl h)

  iterate-body_bytes :
      (ops : List Op) (fuel : ℕ) (pre entries : Bytes) (ix : ℕ)
      → All IsSmall ops
      → entries ≡ pre ++ body_bytes ops
      → ix ≡ length pre
      → length (body_bytes ops) < fuel
      → iterate fuel entries ix ≡ done ops
  unfolding iterate
  iterate-body_bytes ops zero pre entries ix small e h enough = absurd (omega arith)
  iterate-body_bytes [] (suc fuel) pre entries ix small e h enough =
      rw (next-end entries ix (omega (arith, ap length e, length-append pre [])), iterate) refl
  iterate-body_bytes ((k, v) ∷ ops) (suc fuel) pre entries ix small e h enough =
      let here : next entries ix ≡ item k v (ix + length (entry_bytes k v)) =
        ap (λ l. next l ix) e ∙ next-entry_bytes pre k v (body_bytes ops) ix h small.0 in
      let size : length (body_bytes ((k, v) ∷ ops))
          ≡ length (entry_bytes k v) + length (body_bytes ops) =
        length-append (entry_bytes k v) (body_bytes ops) in
      let rest : iterate fuel entries (ix + length (entry_bytes k v)) ≡ done ops =
        iterate-body_bytes ops fuel (pre ++ entry_bytes k v) entries _ small.1
          (e ∙ sym (append_assoc pre (entry_bytes k v) (body_bytes ops)))
          (omega (arith, length-append pre (entry_bytes k v)))
          (omega (arith, size, next-gt entries ix here)) in
      rw (here, iterate) (rw rest)

  iter-Holds :
      (ops : List Op) {b : WriteBatch} {seq n : ℕ}
      → Holds b seq n (body_bytes ops)
      → All IsSmall ops
      → iter b ≡ done ops
  unfolding iter
  iter-Holds ops {b} h small =
      iterate-body_bytes ops (suc (length b.entries)) (h.header ++ h.counter) b.entries 12 small
        (h.parts ∙ sym (append_assoc h.header h.counter (body_bytes ops)))
        (omega (arith, length-append h.header h.counter, h.header_length, h.counter_length))
        (omega (
          arith,
          ap length h.parts,
          length-append h.header (h.counter ++ body_bytes ops),
          length-append h.counter (body_bytes ops),
        ))

  -- Fewer than 2^32 operations, on keys and values whose lengths fit 64 bits, can be written into a
  -- fresh batch; the batch counts them and iterates over them in order, and so does a batch that
  -- is filled with its encoding under a 64-bit sequence number, which it then carries.
  pub write_round_trip :
      (ops : List Op) (seq : ℕ)
      → All IsSmall ops
      → length ops < 2 ^ 32
      → IsU64 seq
      → (b : WriteBatch) × (bytes : Bytes) × (write ops new ≡ some b)
        × (count b ≡ some (length ops))
        × (iter b ≡ done ops)
        × (encode b seq ≡ some bytes)
        × (sequence (set_contents new bytes) ≡ some seq)
        × (count (set_contents new bytes) ≡ some (length ops))
        × (iter (set_contents new bytes) ≡ done ops)
  unfolding encode set_contents
  write_round_trip ops seq small fits hs =
      let (b, e, h) = write_fresh ops fits in
      let (b', e', h') = set_sequence-Holds seq h hs in
      (
        b,
        b'.entries,
        e,
        count-Holds h,
        iter-Holds ops h small,
        rw e',
        sequence-Holds h',
        count-Holds h',
        iter-Holds ops h' small,
      )

  -- The operations as they reach the memtable: each with its own sequence number, from `seq` on.
  pub numbered : ℕ → List Op → List (ℕ × ValueType × Bytes × Bytes)
  numbered seq [] = []
  numbered seq ((k, some v) ∷ ops) = (seq, type_value, k, v) ∷ numbered (seq + 1) ops
  numbered seq ((k, none) ∷ ops) = (seq, type_deletion, k, []) ∷ numbered (seq + 1) ops

  module _ {M : Type 0} (add : M → ℕ → ValueType → Bytes → Bytes → Option M) where
    pub add_each : List (ℕ × ValueType × Bytes × Bytes) → M → Option M
    add_each [] mt = some mt
    add_each ((s, t, k, v) ∷ l) mt = add mt s t k v >>= add_each l

    insert_all-numbered :
        (ops : List Op) (seq : ℕ) (mt : M)
        → seq + length ops < 2 ^ 64
        → insert_all add ops seq mt ≡ add_each (numbered seq ops) mt
    unfolding insert_all add_each numbered
    insert_all-numbered [] seq mt h = refl
    insert_all-numbered ((k, some v) ∷ ops) seq mt h =
        elim (Option-cases (add mt seq type_value k v)) [
          | inl e ↦ ground (arith, e)
          | inr (mt', e) ↦ ground (arith, e, insert_all-numbered ops (seq + 1) mt' (omega arith))
        ]
    insert_all-numbered ((k, none) ∷ ops) seq mt h =
        elim (Option-cases (add mt seq type_deletion k [])) [
          | inl e ↦ ground (arith, e)
          | inr (mt', e) ↦ ground (arith, e, insert_all-numbered ops (seq + 1) mt' (omega arith))
        ]

    -- The operations written into a fresh batch reach the memtable in order, with consecutive
    -- sequence numbers from `seq` on, if these stay below 2^64.
    pub insert_into_memtable-write :
        (ops : List Op) (seq : ℕ) (mt : M)
        → All IsSmall ops
        → length ops < 2 ^ 32
        → seq + length ops < 2 ^ 64
        → (write ops new >>= λ b. insert_into_memtable add b seq mt)
          ≡ add_each (numbered seq ops) mt
    unfolding insert_into_memtable
    insert_into_memtable-write ops seq mt small fits hs =
        let (b, e, h) = write_fresh ops fits in
        rw (e, ◌>>=◌)
          (rw (iter-Holds ops h small, insert_into_memtable) (insert_all-numbered ops seq mt hs))

-- ===== src/WriteBatch/Contents.antt =====
-- A batch is a header and a body: what each operation does to the three parts.
use leveldb_rs.WriteBatch.{clear}
use leveldb_rs.Base.{
  ℕ, ◌+◌, ◌^◌, ◌<◌, ◌≡◌, refl, ap, ◌∙◌, arith, Option, none, some, [], ◌∷◌, ◌++◌, length,
  length-append, append_assoc, replicate, take_append, drop-append_add, slice, slice_middle,
}
use leveldb_rs.Coding.{Bytes, IsU64, IntegerEncoding, encode_var, encode_fixed, decode_fixed}
use leveldb_rs.KeyTypes.{type_value, type_deletion, discriminant}
use leveldb_rs.WriteBatch.{
  WriteBatch, new, set_count, count, set_sequence, sequence, increment, put, delete, overwrite,
}

module _ ⦃ie : IntegerEncoding⦄ where
  -- The entries are the bytes of `seq`, of `n`, and the body.
  pub record Holds (b : WriteBatch) (seq n : ℕ) (body : Bytes) : Type 0 where
    pub header : Bytes
    pub counter : Bytes
    pub parts : b.entries ≡ header ++ (counter ++ body)
    pub header_length : length header ≡ 8
    pub counter_length : length counter ≡ 4
    pub header_value : decode_fixed header ≡ seq
    pub counter_value : decode_fixed counter ≡ n

  pub new-Holds : Holds new 0 0 []
  unfolding new
  new-Holds = record {
    header = replicate 8 0;
    counter = replicate 4 0;
    parts = refl;
    header_length = refl;
    counter_length = refl;
    header_value = ie.decode_fixed_zeros 8;
    counter_value = ie.decode_fixed_zeros 4;
  }

  pub count-Holds :
      {b : WriteBatch} {seq n : ℕ} {body : Bytes} → Holds b seq n body → count b ≡ some n
  unfolding count
  count-Holds {body = body} h = ground (
    arith,
    ap (λ l. slice l 8 12) h.parts,
    slice_middle h.header h.counter body 8 12 (omega arith) (omega arith),
  )

  pub sequence-Holds :
      {b : WriteBatch} {seq n : ℕ} {body : Bytes} → Holds b seq n body → sequence b ≡ some seq
  unfolding sequence
  sequence-Holds {body = body} h = ground (
    arith,
    ap (λ l. slice l 0 8) h.parts,
    slice_middle [] h.header (h.counter ++ body) 0 8 refl (omega arith),
  )

  -- Overwriting one part of a concatenation.
  overwrite_middle :
      (pre old src rest : Bytes) (lo : ℕ)
      → lo ≡ length pre
      → length src ≡ length old
      → overwrite (pre ++ (old ++ rest)) lo src ≡ some (pre ++ (src ++ rest))
  overwrite_middle pre old src rest lo p q = ground (
    arith,
    length-append pre (old ++ rest),
    length-append old rest,
    take_append lo pre (old ++ rest) p,
    drop-append_add (lo + length src) (length src) pre (old ++ rest) (omega arith),
    drop-append_add (length src) 0 old rest (omega arith),
  )

  pub set_count-Holds :
      {b : WriteBatch} {seq n : ℕ} {body : Bytes} (m : ℕ)
      → Holds b seq n body
      → m < 2 ^ 32
      → (b' : WriteBatch) × (set_count b m ≡ some b') × Holds b' seq m body
  unfolding set_count
  set_count-Holds {body = body} m h fits =
      let l : length (encode_fixed 4 m) ≡ 4 = ie.length-encode_fixed 4 m in
      (
        record { entries = h.header ++ (encode_fixed 4 m ++ body) },
        ground (
          arith,
          ap (λ e. overwrite e 8 (encode_fixed 4 m)) h.parts,
          overwrite_middle h.header h.counter (encode_fixed 4 m) body 8 (omega arith) (omega arith),
        ),
        record {
          header = h.header;
          counter = encode_fixed 4 m;
          parts = refl;
          header_length = h.header_length;
          counter_length = l;
          header_value = h.header_value;
          counter_value = ie.decode-encode_fixed 4 m fits;
        },
      )

  pub set_sequence-Holds :
      {b : WriteBatch} {seq n : ℕ} {body : Bytes} (s : ℕ)
      → Holds b seq n body
      → IsU64 s
      → (b' : WriteBatch) × (set_sequence b s ≡ some b') × Holds b' s n body
  unfolding set_sequence
  set_sequence-Holds {body = body} s h fits =
      let l : length (encode_fixed 8 s) ≡ 8 = ie.length-encode_fixed 8 s in
      (
        record { entries = encode_fixed 8 s ++ (h.counter ++ body) },
        ground (
          arith,
          ap (λ e. overwrite e 0 (encode_fixed 8 s)) h.parts,
          overwrite_middle [] h.header (encode_fixed 8 s) (h.counter ++ body) 0 refl (omega arith),
        ),
        record {
          header = encode_fixed 8 s;
          counter = h.counter;
          parts = refl;
          header_length = l;
          counter_length = h.counter_length;
          header_value = ie.decode-encode_fixed 8 s fits;
          counter_value = h.counter_value;
        },
      )

  increment-Holds :
      {b : WriteBatch} {seq n : ℕ} {body : Bytes}
      → Holds b seq n body
      → n + 1 < 2 ^ 32
      → (b' : WriteBatch) × (increment b ≡ some b') × Holds b' seq (n + 1) body
  unfolding increment
  increment-Holds {n = n} h fits =
      let (b', e, h') = set_count-Holds (n + 1) h fits in (b', ground (arith, count-Holds h, e), h')

  append-Holds :
      {b : WriteBatch} {seq n : ℕ} {body : Bytes} (more : Bytes)
      → Holds b seq n body
      → Holds (record { entries = b.entries ++ more }) seq n (body ++ more)
  append-Holds {body = body} more h = record {
    header = h.header;
    counter = h.counter;
    parts =
        ap (λ e. e ++ more) h.parts
        ∙ append_assoc h.header (h.counter ++ body) more
        ∙ ap (λ e. h.header ++ e) (append_assoc h.counter body more);
    header_length = h.header_length;
    counter_length = h.counter_length;
    header_value = h.header_value;
    counter_value = h.counter_value;
  }

  -- The bytes of one entry.
  abbrev pub entry_bytes : Bytes → Option Bytes → Bytes
  entry_bytes k (some v) =
      discriminant type_value ∷ encode_var (length k) ++ (k ++ (encode_var (length v) ++ v))
  entry_bytes k none = discriminant type_deletion ∷ encode_var (length k) ++ k

  pub put-Holds :
      {b : WriteBatch} {seq n : ℕ} {body : Bytes} (k v : Bytes)
      → Holds b seq n body
      → n + 1 < 2 ^ 32
      → (b' : WriteBatch) × (put b k v ≡ some b')
        × Holds b' seq (n + 1) (body ++ entry_bytes k (some v))
  unfolding put
  put-Holds k v h fits = increment-Holds (append-Holds (entry_bytes k (some v)) h) fits

  pub delete-Holds :
      {b : WriteBatch} {seq n : ℕ} {body : Bytes} (k : Bytes)
      → Holds b seq n body
      → n + 1 < 2 ^ 32
      → (b' : WriteBatch) × (delete b k ≡ some b')
        × Holds b' seq (n + 1) (body ++ entry_bytes k none)
  unfolding delete
  delete-Holds k h fits = increment-Holds (append-Holds (entry_bytes k none) h) fits

  -- `clear` drops the header too: the count of a cleared batch cannot be read, and an entry of
  -- fewer than 12 bytes cannot be put into it; both panic.
  pub clear_loses_header :
      (b : WriteBatch) (k v : Bytes)
      → length (entry_bytes k (some v)) < 12
      → (count (clear b) ≡ none) × (put (clear b) k v ≡ none)
  unfolding count clear put slice
  clear_loses_header b k v h = (refl, ground arith)

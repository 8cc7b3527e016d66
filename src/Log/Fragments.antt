-- ===== src/Log/Fragments.antt =====
-- One fragment: what the reader does on what the writer wrote.
use leveldb_rs.Base.{le→ltb, ltb→lt, length-drop}
use leveldb_rs.Base.{drop_all}
use leveldb_rs.Log.{read_body}
use leveldb_rs.Base.{Bool-cases, inl, inr}
use leveldb_rs.Base.{get_or_append}
use leveldb_rs.Base.{
  ℕ, ◌+◌, ◌-◌, ◌≡◌, ◌<◌, ◌≤◌, refl, ap, sym, ◌∙◌, arith, true, false, [], ◌∷◌, ◌++◌, length,
  replicate, get_or, take, drop, ltb, ◌==◌, if◌then◌else◌, length-append, append_assoc, append-nil,
  take_append, drop_append, length-replicate,
}
use leveldb_rs.Coding.{Bytes, IntegerEncoding, encode_fixed, decode_fixed}
use leveldb_rs.Log.{
  Crc32, fragment, LogReader, ReadResult, read_ok, read_data, read_header, read_round,
  check_integrity, mask_crc,
}
use leveldb_rs.Log.Checksum.{unmask-mask_crc}

-- The reader's answer to a fragment of type `t`: the record ends, or the next round begins.
abbrev pub after_fragment : ℕ → LogReader → Bytes → (LogReader → Bytes → ReadResult) → ReadResult
after_fragment t r dst more =
    if t == 1
    then read_ok (length dst) r dst
    else if t == 4
    then read_ok (length dst) r dst
    else more r dst

-- The filler that stands before the next fragment at an offset, and where that fragment starts.
abbrev pub skip : ℕ → ℕ → ℕ
skip bs off = if ltb (bs - off) 7 then bs - off else 0

abbrev pub start : ℕ → ℕ → ℕ
start bs off = if ltb (bs - off) 7 then 0 else off

module _ ⦃ie : IntegerEncoding⦄ ⦃crc : Crc32⦄ where
  abbrev pub head_bytes : ℕ → Bytes → Bytes
  head_bytes t body =
      encode_fixed 4 (mask_crc (crc.sum32 (t ∷ body))) ++ (encode_fixed 2 (length body) ++ (t ∷ []))

  abbrev checksum_bytes : ℕ → Bytes → Bytes
  checksum_bytes t body = encode_fixed 4 (mask_crc (crc.sum32 (t ∷ body)))

  pub length-head_bytes : (t : ℕ) (body : Bytes) → length (head_bytes t body) ≡ 7
  length-head_bytes t body = omega (
    arith,
    length-append (checksum_bytes t body) (encode_fixed 2 (length body) ++ (t ∷ [])),
    length-append (encode_fixed 2 (length body)) (t ∷ []),
    ie.length-encode_fixed 4 (mask_crc (crc.sum32 (t ∷ body))),
    ie.length-encode_fixed 2 (length body),
  )

  pub fragment-head :
      (t : ℕ) (body rest : Bytes) → fragment t body ++ rest ≡ head_bytes t body ++ (body ++ rest)
  fragment-head t body rest = simp append_assoc

  pub length-fragment : (t : ℕ) (body : Bytes) → length (fragment t body) ≡ length body + 7
  length-fragment t body = omega (
    arith,
    ap length (append-nil (fragment t body)),
    ap length (fragment-head t body []),
    length-head_bytes t body,
    length-append (head_bytes t body) (body ++ []),
    ap length (append-nil body),
  )

  -- The three fields of the header.
  head_fields :
      (t : ℕ) (body : Bytes)
      → length body < 65536
      → (decode_fixed (take 4 (head_bytes t body)) ≡ mask_crc (crc.sum32 (t ∷ body)))
        × (decode_fixed (take 2 (drop 4 (head_bytes t body))) ≡ length body)
        × (get_or (head_bytes t body) 6 0 ≡ t)
  head_fields t body h =
      let c = mask_crc (crc.sum32 (t ∷ body)) in
      let len = encode_fixed 2 (length body) in
      let lc : length (checksum_bytes t body) ≡ 4 = ie.length-encode_fixed 4 c in
      let ll : length len ≡ 2 = ie.length-encode_fixed 2 (length body) in
      (
        ap decode_fixed (take_append 4 (checksum_bytes t body) (len ++ t ∷ []) (sym lc))
            ∙ ie.decode-encode_fixed 4 c
                (unmask-mask_crc (crc.sum32 (t ∷ body)) (crc.sum32-IsU32 (t ∷ body))).1,
        ap (λ l. decode_fixed (take 2 l))
              (drop_append 4 (checksum_bytes t body) (len ++ t ∷ []) (sym lc))
            ∙ ap decode_fixed (take_append 2 len (t ∷ []) (sym ll))
            ∙ ie.decode-encode_fixed 2 (length body) h,
        ap (λ l. get_or l 6 0) (sym (append_assoc (checksum_bytes t body) len (t ∷ [])))
            ∙ get_or_append (checksum_bytes t body ++ len) t [] 6 0
                (omega (arith, length-append (checksum_bytes t body) len)),
      )

  check_integrity-same :
      (t : ℕ) (body : Bytes) → check_integrity t body (mask_crc (crc.sum32 (t ∷ body))) ≡ true
  unfolding check_integrity
  check_integrity-same t body =
      ground (arith, (unmask-mask_crc (crc.sum32 (t ∷ body)) (crc.sum32-IsU32 (t ∷ body))).0)

  -- The reader behind a fragment.
  abbrev pub behind : LogReader → ℕ → Bytes → Bytes → LogReader
  behind r t body rest = record r {
    src = rest;
    blk_off = r.blk_off + 7 + length body;
    head_scratch = head_bytes t body;
  }

  read_body-fragment :
      (r : LogReader) (t : ℕ) (body rest dst : Bytes) (more : LogReader → Bytes → ReadResult)
      → r.src ≡ body ++ rest
      → read_body r dst more (mask_crc (crc.sum32 (t ∷ body))) (length body) t
        ≡ after_fragment t
            (record r { src = rest; blk_off = r.blk_off + length body })
            (dst ++ body)
            more
  unfolding read_body
  read_body-fragment r t body rest dst more hr =
      let tk : take (length body) r.src ≡ body =
        ap (take (length body)) hr ∙ take_append (length body) body rest refl in
      let dp : drop (length body) r.src ≡ rest =
        ap (drop (length body)) hr ∙ drop_append (length body) body rest refl in
      let z : length body - length body ≡ 0 = omega arith in
      let pad : body ++ replicate (length body - length body) 0 ≡ body =
        ap (λ n. body ++ replicate n 0) z ∙ append-nil body in
      elim (Bool-cases r.checksums) [
        | inl e ↦ simp (tk, dp, pad, e, check_integrity-same t body)
        | inr e ↦ simp (tk, dp, pad, e)
      ]

  read_data-fragment :
      (r : LogReader) (t : ℕ) (body rest dst : Bytes) (more : LogReader → Bytes → ReadResult)
      → length body < 65536
      → r.head_scratch ≡ head_bytes t body
      → r.src ≡ body ++ rest
      → read_data r dst more
        ≡ after_fragment t
            (record r { src = rest; blk_off = r.blk_off + length body })
            (dst ++ body)
            more
  unfolding read_data
  read_data-fragment r t body rest dst more h hs hr =
      let (f1, f2, f3) = head_fields t body h in
      (λ i.
        read_body r dst more (decode_fixed (take 4 (hs i))) (decode_fixed (take 2 (drop 4 (hs i))))
          (get_or (hs i) 6 0))
      ∙ (λ i. read_body r dst more (f1 i) (f2 i) (f3 i))
      ∙ read_body-fragment r t body rest dst more hr

  read_header-fragment :
      (r : LogReader) (t : ℕ) (body rest dst : Bytes) (more : LogReader → Bytes → ReadResult)
      → length body < 65536
      → length r.head_scratch ≡ 7
      → r.src ≡ fragment t body ++ rest
      → read_header r dst more ≡ after_fragment t (behind r t body rest) (dst ++ body) more
  unfolding read_header
  read_header-fragment r t body rest dst more h hs hr =
      let e : r.src ≡ head_bytes t body ++ (body ++ rest) = hr ∙ fragment-head t body rest in
      let lh = length-head_bytes t body in
      let tk : take 7 r.src ≡ head_bytes t body =
        ap (take 7) e ∙ take_append 7 (head_bytes t body) (body ++ rest) (sym lh) in
      let dp : drop 7 r.src ≡ body ++ rest =
        ap (drop 7) e ∙ drop_append 7 (head_bytes t body) (body ++ rest) (sym lh) in
      let full : head_bytes t body ++ drop (length (head_bytes t body)) r.head_scratch
          ≡ head_bytes t body =
        ap (λ l. head_bytes t body ++ l) (drop_all _ r.head_scratch (omega (arith, lh)))
        ∙ append-nil (head_bytes t body) in
      let some_bytes : (length (head_bytes t body) == 0) ≡ false = ground (arith, lh) in
      simp (tk, dp, full, some_bytes)
        (rw lh (
          read_data-fragment
            (record r {
              src = body ++ rest;
              blk_off = r.blk_off + 7;
              head_scratch = head_bytes t body;
            })
            t body rest dst more h refl refl))

  -- One round of the reader: the filler is skipped, and one fragment is read.
  pub read_round-fragment :
      (r : LogReader) (t : ℕ) (body rest dst : Bytes) (more : LogReader → Bytes → ReadResult)
      → length body < 65536
      → length r.head_scratch ≡ 7
      → r.blk_off ≤ r.blocksize
      → r.src ≡ replicate (skip r.blocksize r.blk_off) 0 ++ (fragment t body ++ rest)
      → read_round r dst more
        ≡ after_fragment t
            (behind (record r { blk_off = start r.blocksize r.blk_off }) t body rest)
            (dst ++ body)
            more
  unfolding read_round
  read_round-fragment r t body rest dst more h hs hb hr =
      let left = r.blocksize - r.blk_off in
      let fits : ltb r.blocksize r.blk_off ≡ false = le→ltb r.blocksize r.blk_off hb in
      elim (Bool-cases (ltb left 7)) [
        | inr e ↦
            let hr' : r.src ≡ fragment t body ++ rest = rw e at hr in
            simp (fits, e) (read_header-fragment r t body rest dst more h hs hr')
        | inl e ↦
            let hr' : r.src ≡ replicate left 0 ++ (fragment t body ++ rest) = rw e at hr in
            let n : left ≡ length (replicate {A = ℕ} left 0) = sym (length-replicate left 0) in
            let enough : ltb (length r.src) left ≡ false = le→ltb (length r.src) left (
              omega (
                arith,
                ap length hr',
                length-append (replicate {A = ℕ} left 0) (fragment t body ++ rest),
                n,
              )) in
            let dp : drop left r.src ≡ fragment t body ++ rest =
              ap (drop left) hr'
              ∙ drop_append left (replicate left 0) (fragment t body ++ rest) n in
            let tk : take left r.src ≡ replicate left 0 =
              ap (take left) hr'
              ∙ take_append left (replicate left 0) (fragment t body ++ rest) n in
            simp (fits, e, enough, dp, tk)
              (read_header-fragment
                (record r {
                  src = fragment t body ++ rest;
                  blk_off = 0;
                  head_scratch = replicate left 0 ++ drop left r.head_scratch;
                })
                t body rest dst more h
                (omega (
                  arith,
                  length-append (replicate {A = ℕ} left 0) (drop left r.head_scratch),
                  n,
                  length-drop left r.head_scratch,
                  ltb→lt left 7 e,
                ))
                refl)
      ]

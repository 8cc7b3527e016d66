-- ===== src/FilterBlock/Reader.antt =====
-- The reader of src/filter_block.rs at a block that the builder wrote.
use leveldb_rs.Base.{
  ℕ, suc, ◌+◌, ◌-◌, ◌*◌, ◌%◌, ◌^◌, ◌≤◌, ◌<◌, ◌≡◌, refl, ap, sym, ◌∙◌, arith, true, false, none,
  some, List, [], ◌∷◌, ◌++◌, append-nil, append_assoc, length, length-append, get_or, get_or_append,
  leb, ltb, slice, slice_middle, checked_sub, checked_sub-some, ◌>>=◌, ◌>>◌,
}
use leveldb_rs.Coding.{Bytes, IntegerEncoding, encode_fixed}
use leveldb_rs.Filter.{FilterPolicy, concat, offsets_from}
use leveldb_rs.FilterBlock.{
  FilterBlockReader, encode_offsets, offsets_array, get_filter_index, new_reader, num, offset_of,
  key_may_match,
}
use leveldb_rs.FilterBlock.Builder.{concat-append, offsets_from-append}

length-offsets : (n : ℕ) (fs : List Bytes) → length (offsets_from n fs) ≡ length fs
unfolding offsets_from
length-offsets n [] = refl
length-offsets n (f ∷ fs) = ap suc (length-offsets (n + length f) fs)

module _ ⦃ie : IntegerEncoding⦄ where
  encode_offsets-append :
      (xs ys : List ℕ) → encode_offsets (xs ++ ys) ≡ encode_offsets xs ++ encode_offsets ys
  unfolding encode_offsets
  encode_offsets-append [] ys = refl
  encode_offsets-append (x ∷ xs) ys =
      ap (λ t. encode_fixed 4 (x % 2 ^ 32) ++ t) (encode_offsets-append xs ys)
      ∙ sym (append_assoc (encode_fixed 4 (x % 2 ^ 32)) (encode_offsets xs) (encode_offsets ys))

  length-encode_offsets : (xs : List ℕ) → length (encode_offsets xs) ≡ 4 * length xs
  unfolding encode_offsets
  length-encode_offsets [] = refl
  length-encode_offsets (x ∷ xs) = omega (
    arith,
    length-append (encode_fixed 4 (x % 2 ^ 32)) (encode_offsets xs),
    ie.length-encode_fixed 4 (x % 2 ^ 32),
    length-encode_offsets xs,
  )

  -- The offsets of the filters, and the offset of these offsets behind them.
  abbrev table : List Bytes → List ℕ
  table fs = offsets_from 0 fs ++ length (concat fs) ∷ []

  abbrev pub written : List Bytes → Bytes
  written fs = concat fs ++ offsets_array (offsets_from 0 fs) (length (concat fs))

  written-table :
      (fs : List Bytes) → written fs ≡ concat fs ++ (encode_offsets (table fs) ++ 11 ∷ [])
  unfolding offsets_array encode_offsets
  written-table fs =
      let total = length (concat fs) in
      ap (λ t. concat fs ++ t)
        (ap (λ t. encode_offsets (offsets_from 0 fs) ++ (t ++ 11 ∷ []))
            (sym (append-nil (encode_fixed 4 (total % 2 ^ 32))))
          ∙ sym (
              append_assoc (encode_offsets (offsets_from 0 fs)) (encode_offsets (total ∷ []))
                (11 ∷ []))
          ∙ ap (λ t. t ++ 11 ∷ []) (sym (encode_offsets-append (offsets_from 0 fs) (total ∷ []))))

  length-written : (fs : List Bytes) → length (written fs) ≡ length (concat fs) + 4 * length fs + 5
  length-written fs = omega (
    arith,
    ap length (written-table fs),
    length-append (concat fs) (encode_offsets (table fs) ++ 11 ∷ []),
    length-append (encode_offsets (table fs)) (11 ∷ []),
    length-encode_offsets (table fs),
    length-append (offsets_from 0 fs) (length (concat fs) ∷ []),
    length-offsets 0 fs,
  )

  abbrev pub reader : List Bytes → FilterBlockReader
  reader fs = record {
    block = written fs;
    offsets_offset = length (concat fs);
    filter_base_lg2 = 11;
  }

  module _ (fs : List Bytes) (small : length (concat fs) < 2 ^ 32) where
    abbrev front : Bytes
    front = concat fs ++ encode_offsets (offsets_from 0 fs)

    written-front : written fs ≡ front ++ (encode_fixed 4 (length (concat fs) % 2 ^ 32) ++ 11 ∷ [])
    unfolding offsets_array
    written-front = sym (
        append_assoc (concat fs) (encode_offsets (offsets_from 0 fs))
          (encode_fixed 4 (length (concat fs) % 2 ^ 32) ++ 11 ∷ []))

    length-front : length front ≡ length (concat fs) + 4 * length fs
    length-front = omega (
      arith,
      length-append (concat fs) (encode_offsets (offsets_from 0 fs)),
      length-encode_offsets (offsets_from 0 fs),
      length-offsets 0 fs,
    )

    decode-offset : (o : ℕ) → o < 2 ^ 32 → ie.decode_fixed (encode_fixed 4 (o % 2 ^ 32)) ≡ o
    decode-offset o h =
        ap (λ (n : ℕ). ie.decode_fixed (encode_fixed 4 n))
          (let e : o % 2 ^ 32 ≡ o = omega (arith, h) in e)
        ∙ ie.decode-encode_fixed 4 o (omega (arith, h))

    pub new_reader-written : new_reader (written fs) ≡ some (reader fs)
    unfolding new_reader
    new_reader-written =
        let e = encode_fixed 4 (length (concat fs) % 2 ^ 32) in
        let le : length e ≡ 4 = ie.length-encode_fixed 4 (length (concat fs) % 2 ^ 32) in
        let lw = length-written fs in
        let ok : leb 5 (length (written fs)) ≡ true = ground (arith, lw) in
        let last : get_or (written fs) (length (written fs) - 1) 0 ≡ 11 =
          ap (λ b. get_or b (length (written fs) - 1) 0)
            (written-front ∙ sym (append_assoc front e (11 ∷ [])))
          ∙ get_or_append (front ++ e) 11 [] (length (written fs) - 1) 0
              (omega (arith, lw, length-append front e, le, length-front)) in
        let cut : slice (written fs) (length (written fs) - 5) (length (written fs) - 1) ≡ some e =
          ap (λ b. slice b (length (written fs) - 5) (length (written fs) - 1)) written-front
          ∙ slice_middle front e (11 ∷ []) (length (written fs) - 5) (length (written fs) - 1)
              (omega (arith, lw, length-front)) (omega (arith, lw, le)) in
        rw (new_reader, ok, ◌>>◌, last, cut, ◌>>=◌)
          (ap (λ o. some (record { block = written fs; offsets_offset = o; filter_base_lg2 = 11 }))
            (decode-offset (length (concat fs)) small))

    pub num-reader : length fs < 2 ^ 32 → num (reader fs) ≡ some (length fs)
    unfolding num
    num-reader h =
        let lw = length-written fs in
        let a : checked_sub (length (written fs)) (length (concat fs)) ≡ some (4 * length fs + 5) =
          checked_sub-some (length (written fs)) (length (concat fs)) (omega (arith, lw))
          ∙ ap some (omega (arith, lw)) in
        let b : checked_sub (4 * length fs + 5) 5 ≡ some (4 * length fs) =
          checked_sub-some (4 * length fs + 5) 5 (omega arith) ∙ ap some (omega arith) in
        rw (num, a, ◌>>=◌, b, ◌>>=◌) (ap some (omega (arith, h)))

    -- An entry of the table.
    pub offset_of-reader :
        (p q : List ℕ) (o : ℕ)
        → table fs ≡ p ++ o ∷ q
        → o < 2 ^ 32
        → offset_of (reader fs) (length p) ≡ some o
    unfolding offset_of encode_offsets
    offset_of-reader p q o e h =
        let c = encode_fixed 4 (o % 2 ^ 32) in
        let lc : length c ≡ 4 = ie.length-encode_fixed 4 (o % 2 ^ 32) in
        let total = length (concat fs) in
        let split : written fs
            ≡ (concat fs ++ encode_offsets p) ++ (c ++ (encode_offsets q ++ 11 ∷ [])) =
          written-table fs
          ∙ ap (λ t. concat fs ++ (t ++ 11 ∷ []))
              (ap encode_offsets e ∙ encode_offsets-append p (o ∷ q))
          ∙ simp (append_assoc) in
        let cut : slice (written fs) (total + 4 * length p) (total + 4 * length p + 4) ≡ some c =
          ap (λ b. slice b (total + 4 * length p) (total + 4 * length p + 4)) split
          ∙ slice_middle (concat fs ++ encode_offsets p) c (encode_offsets q ++ 11 ∷ [])
              (total + 4 * length p) (total + 4 * length p + 4)
              (omega (arith, length-append (concat fs) (encode_offsets p), length-encode_offsets p))
              (omega (arith, lc)) in
        rw (offset_of, cut, ◌>>=◌) (ap some (decode-offset o h))

    -- The filter that stands behind `pre`: where it begins and where it ends.
    module _ (pre post : List Bytes) (f : Bytes) (e : fs ≡ pre ++ f ∷ post) where
      abbrev begin : ℕ
      begin = length (concat pre)

      concat-at : concat fs ≡ concat pre ++ (f ++ concat post)
      concat-at = ap concat e ∙ concat-append pre (f ∷ post)

      ends_within : begin + length f ≤ length (concat fs)
      ends_within = omega (
        arith,
        ap length concat-at,
        length-append (concat pre) (f ++ concat post),
        length-append f (concat post),
      )

      -- The offset behind the filter: that of the next one, or that of the offsets.
      next_offset :
          (m : ℕ) (rest : List Bytes)
          → (q : List ℕ) × (offsets_from m rest ++ (m + length (concat rest)) ∷ [] ≡ m ∷ q)
      unfolding offsets_from
      next_offset m [] = ([], ap (λ (n : ℕ). n ∷ []) (omega arith))
      next_offset m (r ∷ rest) =
          (offsets_from (m + length r) rest ++ (m + length (r ++ concat rest)) ∷ [], refl)

      table-at : (q : List ℕ) × (table fs ≡ offsets_from 0 pre ++ begin ∷ (begin + length f) ∷ q)
      unfolding offsets_from
      table-at =
          let (q, n) = next_offset (begin + length f) post in
          let total : length (concat fs) ≡ begin + length f + length (concat post) = omega (
            arith,
            ap length concat-at,
            length-append (concat pre) (f ++ concat post),
            length-append f (concat post),
          ) in
          (
            q,
            ap (λ t. t ++ length (concat fs) ∷ [])
                  (ap (offsets_from 0) e
                    ∙ offsets_from-append 0 pre (f ∷ post)
                    ∙ ap (λ m. offsets_from 0 pre ++ offsets_from m (f ∷ post))
                        (let z : 0 + begin ≡ begin = omega arith in z))
                ∙ append_assoc (offsets_from 0 pre) (offsets_from begin (f ∷ post))
                    (length (concat fs) ∷ [])
                ∙ ap (λ t. offsets_from 0 pre ++ begin ∷ t)
                    (ap (λ m. offsets_from (begin + length f) post ++ m ∷ []) total ∙ n),
          )

      module _ (policy : FilterPolicy) (off : ℕ) (key : Bytes) (few : length fs < 2 ^ 32 - 1)
          (at_ix : get_filter_index off 11 ≡ some (length pre)) where
        both_offsets :
            (offset_of (reader fs) (length pre) ≡ some begin)
            × (offset_of (reader fs) (length pre + 1) ≡ some (begin + length f))
        both_offsets =
            let (q, t) = table-at in
            let lo = length-offsets 0 pre in
            let next : offsets_from 0 pre ++ begin ∷ (begin + length f) ∷ q
                ≡ (offsets_from 0 pre ++ begin ∷ []) ++ (begin + length f) ∷ q =
              sym (append_assoc (offsets_from 0 pre) (begin ∷ []) ((begin + length f) ∷ q)) in
            let one : length (offsets_from 0 pre ++ begin ∷ []) ≡ length pre + 1 =
              omega (arith, lo, length-append (offsets_from 0 pre) (begin ∷ [])) in
            (
              ap (offset_of (reader fs)) (sym lo)
                  ∙ offset_of-reader (offsets_from 0 pre) ((begin + length f) ∷ q) begin t
                      (omega (arith, ends_within, small)),
              ap (offset_of (reader fs)) (sym one)
                  ∙ offset_of-reader (offsets_from 0 pre ++ begin ∷ []) q (begin + length f)
                      (t ∙ next) (omega (arith, ends_within, small)),
            )

        index_small :
            (ltb (length fs) (length pre) ≡ false) × (ltb (length pre + 1) (2 ^ 32) ≡ true)
        index_small =
            let n = ap length e ∙ length-append pre (f ∷ post) in
            (ground (arith, n), ground (arith, n, few))

        -- A filter that has bytes is what the policy is asked with.
        pub matches_filter :
            0 < length f → key_may_match policy (reader fs) off key ≡ policy.key_may_match key f
        unfolding key_may_match
        matches_filter pos =
            let (b, b') = both_offsets in
            let (i, i') = index_small in
            let lt : ltb begin (begin + length f) ≡ true = ground (arith, pos) in
            let le : leb (begin + length f) (length (concat fs)) ≡ true =
              ground (arith, ends_within) in
            let w : written fs
                ≡ concat pre
                  ++ (f
                      ++ (concat post ++ offsets_array (offsets_from 0 fs) (length (concat fs)))) =
              ap (λ t. t ++ offsets_array (offsets_from 0 fs) (length (concat fs))) concat-at
              ∙ simp (append_assoc) in
            let cut : slice (written fs) begin (begin + length f) ≡ some f =
              ap (λ t. slice t begin (begin + length f)) w
              ∙ slice_middle (concat pre) f
                  (concat post ++ offsets_array (offsets_from 0 fs) (length (concat fs))) begin
                  (begin + length f) refl refl in
            rw
              (
                key_may_match,
                at_ix,
                ◌>>=◌,
                num-reader (omega (arith, few)),
                ◌>>=◌,
                i,
                b,
                ◌>>=◌,
                i',
                ◌>>◌,
                b',
                ◌>>=◌,
                lt,
                ◌>>◌,
                le,
                ◌>>◌,
                cut,
                ◌>>=◌,
              )
              refl

        -- A filter without bytes fails the first assertion.
        pub panics_on_empty : length f ≡ 0 → key_may_match policy (reader fs) off key ≡ none
        unfolding key_may_match
        panics_on_empty z =
            let (b, b') = both_offsets in
            let (i, i') = index_small in
            let lt : ltb begin (begin + length f) ≡ false = ground (arith, z) in
            rw
              (
                key_may_match,
                at_ix,
                ◌>>=◌,
                num-reader (omega (arith, few)),
                ◌>>=◌,
                i,
                b,
                ◌>>=◌,
                i',
                ◌>>◌,
                b',
                ◌>>=◌,
                lt,
                ◌>>◌,
              )
              refl

    -- One index too many is taken for one that has a filter: its end is read behind the block.
    pub panics_past :
        (policy : FilterPolicy) (off : ℕ) (key : Bytes)
        → length fs < 2 ^ 32 - 1
        → get_filter_index off 11 ≡ some (length fs)
        → key_may_match policy (reader fs) off key ≡ none
    unfolding key_may_match offset_of slice
    panics_past policy off key few at_ix =
        let n = length fs in
        let i : ltb n n ≡ false = ground arith in
        let i' : ltb (n + 1) (2 ^ 32) ≡ true = ground (arith, few) in
        let lo = length-offsets 0 fs in
        let b : offset_of (reader fs) n ≡ some (length (concat fs)) =
          ap (offset_of (reader fs)) (sym lo)
          ∙ offset_of-reader (offsets_from 0 fs) [] (length (concat fs)) refl small in
        let b' : offset_of (reader fs) (n + 1) ≡ none = ground (arith, length-written fs) in
        rw
          (
            key_may_match,
            at_ix,
            ◌>>=◌,
            num-reader (omega (arith, few)),
            ◌>>=◌,
            i,
            b,
            ◌>>=◌,
            i',
            ◌>>◌,
            b',
            ◌>>=◌,
          )
          refl

-- ===== src/Block/Iter/Entries.antt =====
-- src/block.rs reads the entries that src/block_builder.rs writes.
use leveldb_rs.Base.{
  ℕ, ◌+◌, ◌-◌, ◌≤◌, ◌≡◌, refl, ap, sym, ◌∙◌, arith, some, ◌++◌, length, length-append, append_assoc,
  take, drop, length-drop, slice, slice_from, slice_from_append, slice_middle, position,
  position-some, ◌>>=◌, take-append-drop,
}
use leveldb_rs.Coding.{Bytes, IsU64, IntegerEncoding, encode_var, required_space}
use leveldb_rs.Block.Builder.{entry}
use leveldb_rs.Block.Iter.{BlockIter, Head, parse_entry_and_advance, assemble_key}

slice_from_skip :
    (pre mid rest : Bytes) (lo : ℕ)
    → lo ≡ length pre + length mid
    → slice_from (pre ++ (mid ++ rest)) lo ≡ some rest
slice_from_skip pre mid rest lo h =
    ap (λ t. slice_from t lo) (sym (append_assoc pre mid rest))
    ∙ slice_from_append (pre ++ mid) rest lo (omega (arith, length-append pre mid))

module _ ⦃ie : IntegerEncoding⦄ where
  -- The three numbers in front of an entry.
  abbrev pub head_space : ℕ → ℕ → ℕ → ℕ
  head_space shared non_shared valsize =
      required_space shared + required_space non_shared + required_space valsize

  -- The iterator behind an entry that starts at its offset.
  abbrev pub behind_entry : BlockIter → ℕ → ℕ → ℕ → BlockIter
  behind_entry it shared non_shared valsize = record it {
    val_offset = it.offset + head_space shared non_shared valsize + non_shared;
    offset = it.offset + head_space shared non_shared valsize + non_shared + valsize;
  }

  parse_heads :
      (it : BlockIter) (pre rest : Bytes) (shared non_shared valsize : ℕ)
      → it.block
        ≡ pre ++ (encode_var shared ++ (encode_var non_shared ++ (encode_var valsize ++ rest)))
      → it.offset ≡ length pre
      → IsU64 shared
      → IsU64 non_shared
      → IsU64 valsize
      → non_shared + valsize ≤ length rest
      → parse_entry_and_advance it
        ≡ some (
            some (
              behind_entry it shared non_shared valsize,
              record {
                shared = shared;
                non_shared = non_shared;
                valsize = valsize;
                head_len = head_space shared non_shared valsize;
              },
            ))
  unfolding parse_entry_and_advance
  parse_heads it pre rest shared non_shared valsize e o hs hn hv inside =
      let a = encode_var shared in
      let b = encode_var non_shared in
      let c = encode_var valsize in
      let la : length a ≡ required_space shared = ie.length-encode_var shared in
      let lb : length b ≡ required_space non_shared = ie.length-encode_var non_shared in
      let f1 =
        ap (λ t. slice_from t it.offset) e
        ∙ slice_from_append pre (a ++ (b ++ (c ++ rest))) it.offset o in
      let f2 =
        ap (λ t. slice_from t (it.offset + required_space shared)) e
        ∙ slice_from_skip pre a (b ++ (c ++ rest)) (it.offset + required_space shared)
            (omega (arith, o, la)) in
      let f3 =
        ap (λ t. slice_from t (it.offset + (required_space shared + required_space non_shared))) e
        ∙ ap (λ t. slice_from t (it.offset + (required_space shared + required_space non_shared)))
            (sym (append_assoc pre a (b ++ (c ++ rest))))
        ∙ slice_from_skip (pre ++ a) b (c ++ rest)
            (it.offset + (required_space shared + required_space non_shared))
            (omega (arith, o, la, lb, length-append pre a)) in
      let end = it.offset + head_space shared non_shared valsize + non_shared + valsize in
      let here : position it.block end ≡ some end = position-some it.block end (
        omega (
          arith,
          ap length e,
          o,
          la,
          lb,
          ie.length-encode_var valsize,
          length-append pre (a ++ (b ++ (c ++ rest))),
          length-append a (b ++ (c ++ rest)),
          length-append b (c ++ rest),
          length-append c rest,
          inside,
        )) in
      rw
        (
          parse_entry_and_advance,
          f1,
          ◌>>=◌,
          ie.decode-encode_var shared (b ++ (c ++ rest)) hs,
          f2,
          ie.decode-encode_var non_shared (c ++ rest) hn,
          f3,
          ie.decode-encode_var valsize rest hv,
          ◌>>=◌,
          here,
          ◌>>=◌,
        )
        refl

  entry-append :
      (shared : ℕ) (key val rest : Bytes)
      → entry shared key val ++ rest
        ≡ encode_var shared
          ++ (encode_var (length key - shared)
              ++ (encode_var (length val) ++ (drop shared key ++ (val ++ rest))))
  unfolding entry
  entry-append shared key val rest = simp (append_assoc) refl

  length-entry :
      (shared : ℕ) (key val : Bytes)
      → length (encode_var shared) ≡ required_space shared
      → length (encode_var (length key - shared)) ≡ required_space (length key - shared)
      → length (encode_var (length val)) ≡ required_space (length val)
      → length (entry shared key val)
        ≡ head_space shared (length key - shared) (length val)
          + length (drop shared key)
          + length val
  unfolding entry
  length-entry shared key val la lb lc =
      let c = encode_var (length val) in
      let b = encode_var (length key - shared) in
      let a = encode_var shared in
      let k = drop shared key in
      omega (
        arith,
        la,
        lb,
        lc,
        length-append a (b ++ (c ++ (k ++ val))),
        length-append b (c ++ (k ++ val)),
        length-append c (k ++ val),
        length-append k val,
      )

  -- At an entry that was written for a key with `shared` bytes of the iterator's key in front, in any
  -- block, the iterator steps behind the entry, stands at the value, and assembles the key.
  pub parse-entry :
      (it : BlockIter) (pre rest key val : Bytes) (shared : ℕ)
      → it.block ≡ pre ++ (entry shared key val ++ rest)
      → it.offset ≡ length pre
      → shared ≤ length key
      → take shared it.key ≡ take shared key
      → IsU64 (length key)
      → IsU64 (length val)
      → (it1 : BlockIter) × (it2 : BlockIter) × (h : Head) × (parse_entry_and_advance it
          ≡ some (some (it1, h)))
        × (h.shared ≡ shared)
        × (assemble_key it1 (it.offset + h.head_len) h.shared h.non_shared ≡ some it2)
        × (it2.key ≡ key)
        × (it2.offset ≡ length pre + length (entry shared key val))
        × (slice it2.block it2.val_offset it2.offset ≡ some val)
  unfolding assemble_key
  parse-entry it pre rest key val shared e o le p hk hv =
      let ns = length key - shared in
      let a = encode_var shared in
      let b = encode_var ns in
      let c = encode_var (length val) in
      let k = drop shared key in
      let head = a ++ (b ++ c) in
      let n = head_space shared ns (length val) in
      let it1 = behind_entry it shared ns (length val) in
      let la : length a ≡ required_space shared = ie.length-encode_var shared in
      let lb : length b ≡ required_space ns = ie.length-encode_var ns in
      let lc : length c ≡ required_space (length val) = ie.length-encode_var (length val) in
      let lk : length k ≡ ns = length-drop shared key in
      let eb = e ∙ ap (λ t. pre ++ t) (entry-append shared key val rest) in
      let lhead : length (pre ++ head) ≡ it.offset + n = omega (
        arith,
        o,
        la,
        lb,
        lc,
        length-append pre head,
        length-append a (b ++ c),
        length-append b c,
      ) in
      let ek : it.block ≡ (pre ++ head) ++ (k ++ (val ++ rest)) = eb ∙ simp (append_assoc) refl in
      let ev : it.block ≡ ((pre ++ head) ++ k) ++ (val ++ rest) =
        ek ∙ sym (append_assoc (pre ++ head) k (val ++ rest)) in
      let part : slice it.block (it.offset + n) (it.offset + n + ns) ≡ some k =
        ap (λ t. slice t (it.offset + n) (it.offset + n + ns)) ek
        ∙ slice_middle (pre ++ head) k (val ++ rest) (it.offset + n) (it.offset + n + ns)
            (sym lhead) (omega (arith, lk)) in
      (
        it1,
        record it1 { key = take shared it.key ++ k },
        record { shared = shared; non_shared = ns; valsize = length val; head_len = n },
        parse_heads it pre (k ++ (val ++ rest)) shared ns (length val) eb o (omega (arith, le, hk))
            (omega (arith, hk)) hv
            (omega (arith, lk, length-append k (val ++ rest), length-append val rest)),
        refl,
        rw (part) refl,
        ap (λ t. t ++ k) p ∙ take-append-drop shared key,
        omega (arith, o, lk, lhead, length-entry shared key val la lb lc),
        ap (λ t. slice t it1.val_offset it1.offset) ev
            ∙ slice_middle ((pre ++ head) ++ k) val rest it1.val_offset it1.offset
                (omega (arith, lhead, lk, length-append (pre ++ head) k)) refl,
      )

-- ===== src/Log/RoundTrip.antt =====
-- What the writer appends for a record, and that the reader gives the record back.
use leveldb_rs.Base.{==_iff}
use leveldb_rs.Log.{read_round}
use leveldb_rs.Log.{enter_block, write_fragment}
use Prim.Native.Nat.{min}
use leveldb_rs.Base.{checked_sub-some}
use Prim.Native.Nat.{min}
use leveldb_rs.Base.{checked_sub-some}
use leveldb_rs.Base.{
  ℕ, zero, suc, ◌+◌, ◌-◌, ◌*◌, ◌≡◌, ◌≢◌, ◌<◌, ◌≤◌, refl, ap, sym, ◌∙◌, arith, Bool, true, false,
  some, [], ◌∷◌, ◌++◌, length, replicate, take, drop, ltb, ◌==◌, if◌then◌else◌, checked_sub,
  length-append, length-take, length-drop, append_assoc, append-nil, take_all, drop_all,
  take-append-drop, Bool-cases, inl, inr, lt→ltb,
}
use leveldb_rs.Coding.{Bytes, IntegerEncoding}
use leveldb_rs.Log.{
  Crc32, RecordType, type_byte, record_type, fragment, LogWriter, LogReader, emit_record, add_loop,
  add_record, ReadResult, read_ok, read_loop, read,
}
use leveldb_rs.Log.Fragments.{
  skip, start, behind, head_bytes, length-fragment, read_round-fragment, after_fragment,
  length-head_bytes,
}

-- How much of a record fits the block.
abbrev room : ℕ → ℕ → ℕ
room bs off = bs - start bs off - 7

abbrev frag_len : ℕ → ℕ → Bytes → ℕ
frag_len bs off r = if ltb (length r) (room bs off) then length r else room bs off

abbrev frag_type : ℕ → ℕ → Bytes → Bool → RecordType
frag_type bs off r first_frag = record_type first_frag (frag_len bs off r == length r)

-- The number of rounds is enough: one for each byte, and one more where the block has no room.
abbrev IsEnough : ℕ → ℕ → ℕ → Bytes → Type 0
IsEnough fuel bs off r = length r + min (length r) (1 - room bs off) ≤ fuel

module _ ⦃ie : IntegerEncoding⦄ ⦃crc : Crc32⦄ where
  -- The bytes that a record becomes, and the offset in the block behind them.
  emitted : ℕ → ℕ → ℕ → Bytes → Bool → Bytes
  emitted fuel bs off [] first_frag = []
  emitted zero bs off (x ∷ xs) first_frag = []
  emitted (suc fuel) bs off (x ∷ xs) first_frag =
      let r = x ∷ xs in
      let n = frag_len bs off r in
      replicate (skip bs off) 0
      ++ (fragment (type_byte (frag_type bs off r first_frag)) (take n r)
          ++ emitted fuel bs (start bs off + 7 + n) (drop n r) false)

  final_off : ℕ → ℕ → ℕ → Bytes → ℕ
  final_off fuel bs off [] = off
  final_off zero bs off (x ∷ xs) = off
  final_off (suc fuel) bs off (x ∷ xs) =
      let n = frag_len bs off (x ∷ xs) in final_off fuel bs (start bs off + 7 + n) (drop n (x ∷ xs))

  -- A block of the sizes that the writer's assertions allow.
  abbrev pub IsBlock : ℕ → ℕ → Type 0
  IsBlock bs off = (7 < bs) × (bs ≤ 65542) × (off ≤ bs)

  frag_len_bounds :
      (bs off : ℕ) (r : Bytes)
      → IsBlock bs off
      → (frag_len bs off r ≤ length r) × (frag_len bs off r < 65536) × (start bs off + 7 ≤ bs)
  frag_len_bounds bs off r h = ground arith

  frag_bounds :
      (fuel bs off x : ℕ) (xs : Bytes)
      → IsBlock bs off
      → IsEnough (suc fuel) bs off (x ∷ xs)
      → (frag_len bs off (x ∷ xs) ≤ length (x ∷ xs))
        × (frag_len bs off (x ∷ xs) < 65536)
        × IsBlock bs (start bs off + 7 + frag_len bs off (x ∷ xs))
        × IsEnough fuel bs
            (start bs off + 7 + frag_len bs off (x ∷ xs))
            (drop (frag_len bs off (x ∷ xs)) (x ∷ xs))
  frag_bounds fuel bs off x xs h e = ground (arith, length-drop (frag_len bs off (x ∷ xs)) (x ∷ xs))

  emit_record-eq :
      (w : LogWriter) (t : RecordType) (r : Bytes) (n : ℕ)
      → n ≤ length r
      → n < 65536
      → emit_record w t r n
        ≡ some (
          record w {
            dst = w.dst ++ fragment (type_byte t) (take n r);
            current_block_offset = w.current_block_offset + 7 + n;
          },
          n + 7,
        )
  unfolding emit_record
  emit_record-eq w t r n h k =
      let l : length (fragment (type_byte t) (take n r)) ≡ n + 7 =
        omega (arith, length-fragment (type_byte t) (take n r), length-take n r) in
      let o : w.current_block_offset + (n + 7) ≡ w.current_block_offset + 7 + n = omega arith in
      simp (lt→ltb n (256 * 256) k, l, o)

  abbrev room_at : ℕ → ℕ → ℕ
  room_at bs off = bs - off - 7

  enter_block-eq :
      (w : LogWriter)
      → IsBlock w.block_size w.current_block_offset
      → enter_block w
        ≡ some (record w {
          dst = w.dst ++ replicate (skip w.block_size w.current_block_offset) 0;
          current_block_offset = start w.block_size w.current_block_offset;
        })
  unfolding enter_block
  enter_block-eq w h =
      let bs = w.block_size in
      let off = w.current_block_offset in
      let sub : checked_sub bs off ≡ some (bs - off) = checked_sub-some bs off h.2 in
      let big = lt→ltb 7 bs h.0 in
      elim (Bool-cases (ltb (bs - off) 7)) [
        | inl e ↦ simp (big, sub, e)
        | inr e ↦ simp (big, sub, e, append-nil)
      ]

  -- At an offset where a header fits.
  write_fragment-eq :
      (w : LogWriter) (r : Bytes) (first_frag : Bool) (n : ℕ)
      → w.current_block_offset + 7 ≤ w.block_size
      → (if ltb (length r) (room_at w.block_size w.current_block_offset)
          then length r
          else room_at w.block_size w.current_block_offset)
        ≡ n
      → n ≤ length r
      → n < 65536
      → write_fragment w r first_frag
        ≡ some (
          record w {
            dst = w.dst ++ fragment (type_byte (record_type first_frag (n == length r))) (take n r);
            current_block_offset = w.current_block_offset + 7 + n;
          },
          n + 7,
          n,
        )
  unfolding write_fragment
  write_fragment-eq w r first_frag n fits e le small = simp (
    checked_sub-some (w.block_size - w.current_block_offset) 7 (omega arith),
    e,
    emit_record-eq w (record_type first_frag (n == length r)) r n le small,
  )

  -- One round of the writer.
  add_loop_round :
      (fuel : ℕ) (w : LogWriter) (x : ℕ) (xs : Bytes) (first_frag : Bool) (result n : ℕ)
      → IsBlock w.block_size w.current_block_offset
      → frag_len w.block_size w.current_block_offset (x ∷ xs) ≡ n
      → add_loop (suc fuel) w (x ∷ xs) first_frag result
        ≡ add_loop fuel
            (record w {
              dst =
                  (w.dst ++ replicate (skip w.block_size w.current_block_offset) 0)
                  ++ fragment
                      (type_byte (record_type first_frag (n == length (x ∷ xs))))
                      (take n (x ∷ xs));
              current_block_offset = start w.block_size w.current_block_offset + 7 + n;
            })
            (drop n (x ∷ xs))
            false
            (n + 7)
  unfolding add_loop
  add_loop_round fuel w x xs first_frag result n h e =
      let (n_le, n_small, fits) = frag_len_bounds w.block_size w.current_block_offset (x ∷ xs) h in
      simp (
        enter_block-eq w h,
        write_fragment-eq
            (record w {
              dst = w.dst ++ replicate (skip w.block_size w.current_block_offset) 0;
              current_block_offset = start w.block_size w.current_block_offset;
            })
            (x ∷ xs) first_frag n fits e (omega arith) (omega arith),
      )

  add_loop-emitted :
      (fuel : ℕ) (w : LogWriter) (r : Bytes) (first_frag : Bool) (result : ℕ)
      → IsBlock w.block_size w.current_block_offset
      → IsEnough fuel w.block_size w.current_block_offset r
      → (n : ℕ) × (add_loop fuel w r first_frag result
          ≡ some (
            record w {
              dst = w.dst ++ emitted fuel w.block_size w.current_block_offset r first_frag;
              current_block_offset = final_off fuel w.block_size w.current_block_offset r;
            },
            n,
          ))
  unfolding emitted final_off
  add_loop-emitted fuel w [] first_frag result h e = (result, unfold add_loop in simp append-nil)
  add_loop-emitted zero w (x ∷ xs) first_frag result h e = absurd (omega arith)
  add_loop-emitted (suc fuel) w (x ∷ xs) first_frag result h e =
      let bs = w.block_size in
      let off = w.current_block_offset in
      let n = frag_len bs off (x ∷ xs) in
      let (_, _, h', e') = frag_bounds fuel bs off x xs h e in
      let pad : Bytes = replicate (skip bs off) 0 in
      let frag = fragment (type_byte (frag_type bs off (x ∷ xs) first_frag)) (take n (x ∷ xs)) in
      let (m, q) =
        add_loop-emitted fuel
          (record w { dst = (w.dst ++ pad) ++ frag; current_block_offset = start bs off + 7 + n })
          (drop n (x ∷ xs)) false (n + 7) h' e' in
      (m, add_loop_round fuel w x xs first_frag result n h refl ∙ q ∙ simp append_assoc)

  -- The reader behind a record, whatever its scratch bytes are.
  abbrev at_end : LogReader → ℕ → Bytes → Bytes → LogReader
  at_end rd off scratch rest = record rd { src = rest; blk_off = off; head_scratch = scratch }

  read_loop_round :
      (g : ℕ) (rd : LogReader) (dst : Bytes)
      → read_loop (suc g) rd dst ≡ read_round rd dst (λ r d. read_loop g r d)
  unfolding read_loop
  read_loop_round g rd dst = refl

  -- A fragment that ends its record makes the reader return; another makes it go on.
  after_last :
      (first_frag : Bool) (rd : LogReader) (dst : Bytes) (more : LogReader → Bytes → ReadResult)
      → after_fragment (type_byte (record_type first_frag true)) rd dst more
        ≡ read_ok (length dst) rd dst
  after_last true rd dst more = refl
  after_last false rd dst more = refl

  after_inner :
      (first_frag : Bool) (rd : LogReader) (dst : Bytes) (more : LogReader → Bytes → ReadResult)
      → after_fragment (type_byte (record_type first_frag false)) rd dst more ≡ more rd dst
  after_inner true rd dst more = refl
  after_inner false rd dst more = refl

  read_loop-emitted :
      (fuel g : ℕ) (rd : LogReader) (r rest dst : Bytes) (first_frag : Bool)
      → r ≢ []
      → fuel ≤ g
      → IsBlock rd.blocksize rd.blk_off
      → IsEnough fuel rd.blocksize rd.blk_off r
      → length rd.head_scratch ≡ 7
      → rd.src ≡ emitted fuel rd.blocksize rd.blk_off r first_frag ++ rest
      → (scratch : Bytes) × (length scratch ≡ 7)
        × (read_loop g rd dst
            ≡ read_ok
                (length dst + length r)
                (at_end rd (final_off fuel rd.blocksize rd.blk_off r) scratch rest)
                (dst ++ r))
  unfolding emitted final_off
  read_loop-emitted fuel g rd [] rest dst first_frag n k h e hs hr = absurd (n refl)
  read_loop-emitted zero g rd (x ∷ xs) rest dst first_frag n k h e hs hr = absurd (omega arith)
  read_loop-emitted (suc fuel) zero rd (x ∷ xs) rest dst first_frag n k h e hs hr =
      absurd (omega arith)
  read_loop-emitted (suc fuel) (suc g) rd (x ∷ xs) rest dst first_frag ne k h e hs hr =
      let bs = rd.blocksize in
      let off = rd.blk_off in
      let r = x ∷ xs in
      let n = frag_len bs off r in
      let (n_le, n_small, h', e') = frag_bounds fuel bs off x xs h e in
      let t = type_byte (frag_type bs off r first_frag) in
      let body = take n r in
      let later = emitted fuel bs (start bs off + 7 + n) (drop n r) false ++ rest in
      let body_length : length body ≡ n = omega (arith, length-take n r) in
      let src : rd.src ≡ replicate (skip bs off) 0 ++ (fragment t body ++ later) =
        hr ∙ simp append_assoc in
      let next_reader = behind (record rd { blk_off = start bs off }) t body later in
      let round : read_loop (suc g) rd dst
          ≡ after_fragment t next_reader (dst ++ body) (λ r' d. read_loop g r' d) =
        read_loop_round g rd dst
        ∙ read_round-fragment rd t body later dst (λ r' d. read_loop g r' d)
            (omega (arith, body_length)) hs h.2 src in
      let nr : LogReader = record next_reader { blk_off = start bs off + 7 + n } in
      let at_n : next_reader ≡ nr =
        λ i. record next_reader { blk_off = start bs off + 7 + body_length i } in
      let more = λ (r' : LogReader) (d : Bytes). read_loop g r' d in
      let round_by : (b : Bool)
          → (n == length r) ≡ b
          → read_loop (suc g) rd dst
            ≡ after_fragment (type_byte (record_type first_frag b)) nr (dst ++ body) more =
        λ b q. round ∙ (λ i.
          after_fragment (type_byte (record_type first_frag (q i))) (at_n i) (dst ++ body) more) in
      let total : length (dst ++ body) + length (drop n r) ≡ length dst + length r =
        omega (arith, length-append dst body, length-drop n r, body_length) in
      let joined : (dst ++ body) ++ drop n r ≡ dst ++ r =
        append_assoc dst body (drop n r) ∙ ap (λ l. dst ++ l) (take-append-drop n r) in
      elim (Bool-cases (n == length r)) [
        | inl q ↦
            let whole : dst ++ body ≡ dst ++ r =
              ap (λ l. dst ++ l) (take_all n r (omega (arith, (==_iff n (length r)).0 q))) in
            let whole_length : length (dst ++ body) ≡ length dst + length r =
              ap length whole ∙ length-append dst r in
            let gone : drop n r ≡ [] = drop_all n r (omega (arith, (==_iff n (length r)).0 q)) in
            (
              head_bytes t body,
              length-head_bytes t body,
              round_by true q
                  ∙ after_last first_frag nr (dst ++ body) more
                  ∙ (λ i.
                      read_ok (whole_length i)
                        (record nr {
                          src = emitted fuel bs (start bs off + 7 + n) (gone i) false ++ rest;
                        })
                        (whole i))
                  ∙ (λ i.
                      read_ok (length dst + length r)
                        (record nr {
                          src = rest;
                          blk_off = final_off fuel bs (start bs off + 7 + n) (sym gone i);
                        })
                        (dst ++ r)),
            )
        | inr q ↦
            let n_lt : n < length r = ground (arith, n_le) in
            let left : drop n r ≢ [] =
              λ z. absurd (omega (arith, ap length z, length-drop n r, n_lt)) in
            let (scratch, ls, eq) =
              read_loop-emitted fuel g nr (drop n r) rest (dst ++ body) false left (omega arith) h'
                e' (length-head_bytes t body) refl in
            (
              scratch,
              ls,
              round_by false q ∙ after_inner first_frag nr (dst ++ body) more ∙ eq ∙ (λ i.
                  read_ok (total i)
                    (at_end rd (final_off fuel bs (start bs off + 7 + n) (drop n r)) scratch rest)
                    (joined i)),
            )
      ]

  final_off-IsBlock :
      (fuel bs off : ℕ) (r : Bytes)
      → IsBlock bs off
      → IsEnough fuel bs off r
      → IsBlock bs (final_off fuel bs off r)
  unfolding final_off
  final_off-IsBlock fuel bs off [] h e = h
  final_off-IsBlock zero bs off (x ∷ xs) h e = absurd (omega arith)
  final_off-IsBlock (suc fuel) bs off (x ∷ xs) h e =
      let (_, _, h', e') = frag_bounds fuel bs off x xs h e in final_off-IsBlock fuel bs _ _ h' e'

  length-emitted :
      (fuel bs off : ℕ) (r : Bytes) (first_frag : Bool)
      → IsBlock bs off
      → IsEnough fuel bs off r
      → length r ≤ length (emitted fuel bs off r first_frag)
  unfolding emitted
  length-emitted fuel bs off [] first_frag h e = omega arith
  length-emitted zero bs off (x ∷ xs) first_frag h e = absurd (omega arith)
  length-emitted (suc fuel) bs off (x ∷ xs) first_frag h e =
      let n = frag_len bs off (x ∷ xs) in
      let (n_le, _, h', e') = frag_bounds fuel bs off x xs h e in
      let frag = fragment (type_byte (frag_type bs off (x ∷ xs) first_frag)) (take n (x ∷ xs)) in
      let later = emitted fuel bs (start bs off + 7 + n) (drop n (x ∷ xs)) false in
      omega (
        arith,
        length-emitted fuel bs _ _ false h' e',
        length-append (replicate {A = ℕ} (skip bs off) 0) (frag ++ later),
        length-append frag later,
        length-fragment (type_byte (frag_type bs off (x ∷ xs) first_frag)) (take n (x ∷ xs)),
        length-take n (x ∷ xs),
        length-drop n (x ∷ xs),
      )

  -- A record that is not empty can be written at any offset of a block of more than 7 bytes whose
  -- fragments' lengths fit 16 bits. The log grows by some bytes; and a reader at that offset which
  -- finds these bytes, whatever follows them, with its check of the checksums on or off, returns
  -- the record and its length, and stands where the writer stands.
  pub read-add_record :
      (w : LogWriter) (r rest : Bytes) (scratch : Bytes) (checks : Bool)
      → IsBlock w.block_size w.current_block_offset
      → r ≢ []
      → length scratch ≡ 7
      → (w' : LogWriter) × (n : ℕ) × (bytes : Bytes) × (scratch' : Bytes) × (add_record w r
          ≡ some (w', n))
        × (w'.dst ≡ w.dst ++ bytes)
        × (w'.block_size ≡ w.block_size)
        × IsBlock w'.block_size w'.current_block_offset
        × (length scratch' ≡ 7)
        × (read (record {
          src = bytes ++ rest;
          blk_off = w.current_block_offset;
          blocksize = w.block_size;
          head_scratch = scratch;
          checksums = checks;
        })
            ≡ read_ok
                (length r)
                (record {
                  src = rest;
                  blk_off = w'.current_block_offset;
                  blocksize = w.block_size;
                  head_scratch = scratch';
                  checksums = checks;
                })
                r)
  unfolding add_record read
  read-add_record w r rest scratch checks h ne hs =
      let bs = w.block_size in
      let off = w.current_block_offset in
      let fuel = length r + 1 in
      let e : IsEnough fuel bs off r = omega arith in
      let out = emitted fuel bs off r true in
      let (n, wrote) = add_loop-emitted fuel w r true 0 h e in
      let rd : LogReader = record {
        src = out ++ rest;
        blk_off = off;
        blocksize = bs;
        head_scratch = scratch;
        checksums = checks;
      } in
      let (scratch', ls, eq) =
        read_loop-emitted fuel (length (out ++ rest) + 1) rd r rest [] true ne
          (omega (arith, length-append out rest, length-emitted fuel bs off r true h e)) h e hs
          refl in
      (
        record w { dst = w.dst ++ out; current_block_offset = final_off fuel bs off r },
        n,
        out,
        scratch',
        wrote,
        refl,
        refl,
        final_off-IsBlock fuel bs off r h e,
        ls,
        eq
            ∙ ap (λ m. read_ok m (at_end rd (final_off fuel bs off r) scratch' rest) r)
                (omega arith),
      )

-- ===== src/LineStream/Next.antt =====
-- linestream__next: which bytes it returns, and what it leaves to read.
use Prim.Native.String.{String}
use native.Mathlib.Decide.{dec_lt}
use sys_programming_explorat.Base.{
  ℕ, zero, suc, ◌+◌, ◌-◌, ◌≤◌, ◌<◌, ◌≡◌, inl, inr, refl, sym, ap, subst, ◌∙◌, List, [], ◌∷◌, ◌++◌,
  append-nil, append_assoc, Option, none, some, arith, length, slice, take, drop, lt→ltb, ge→ltb,
  Option-cases, ℤ, drop-drop, drop-take, take-take, take-all, eq-nil_of_length, length-drop,
  length-append, take-append, length-append, take-append,
}
use sys_programming_explorat.Libc.{Allocator, Heap}
use sys_programming_explorat.Libc.Search.{memchr, memchr-some, memchr-drop-some, memchr-drop-none}
use sys_programming_explorat.ReadBuffer
use sys_programming_explorat.ReadBuffer.{ReadBuffer, ErrorCode, failure, consume}
use sys_programming_explorat.ReadBuffer.Validity.{
  IsValid, contents, contents-length, consume-contents, written, commit_write-contents,
}
use sys_programming_explorat.ReadBuffer.Assure.{assure-Assured}
use sys_programming_explorat.LineStream.{
  ResultString, init_failed, alloc_failed, read_failed, eof, null_arg, err, Reading, got, failed,
  Device, World, buffer_of, with_buffer, newline, find_newline, looked, return_line, return_rest,
  commit_and_loop, take_reading, refill, next_loop, next, read_buffering_size,
}
use sys_programming_explorat.LineStream.Lines.{IsLine}

-- A look at the view from `scanned` on sees the first newline of the readable bytes.
module _ {rb : ReadBuffer} (v : IsValid rb) (scanned : ℕ) (seen : scanned ≤ rb.length)
    (clean : memchr (take scanned (contents rb)) newline ≡ none) where
  unseen : slice (rb.offset + scanned) (rb.length - scanned) rb.bytes ≡ drop scanned (contents rb)
  unseen = sym (
      drop-take scanned (rb.length - scanned) rb.length (drop rb.offset rb.bytes) (omega arith)
      ∙ ap (take (rb.length - scanned))
          (drop-drop rb.offset scanned (rb.offset + scanned) rb.bytes refl))

  find_newline_more :
      scanned < rb.length → find_newline rb scanned ≡ memchr (drop scanned (contents rb)) newline
  unfolding find_newline
  find_newline_more p = rw (lt→ltb scanned rb.length p) (ap (λ l. memchr l newline) unseen)

  find_newline_end : rb.length ≤ scanned → find_newline rb scanned ≡ none
  unfolding find_newline
  find_newline_end p = rw (ge→ltb scanned rb.length p)

  find_newline-some :
      (i : ℕ) → find_newline rb scanned ≡ some i → memchr (contents rb) newline ≡ some (scanned + i)
  find_newline-some i e = elim (dec_lt scanned rb.length) [
    | yes p ↦
        memchr-drop-some (contents rb) newline scanned i (omega (arith, contents-length v)) clean
          (sym (find_newline_more p) ∙ e)
    | no p ↦ cc (find_newline_end (omega arith))
  ]

  find_newline-none : find_newline rb scanned ≡ none → memchr (contents rb) newline ≡ none
  find_newline-none e = elim (dec_lt scanned rb.length) [
    | yes p ↦ memchr-drop-none (contents rb) newline scanned clean (sym (find_newline_more p) ∙ e)
    | no p ↦
        subst (λ l. memchr l newline ≡ none)
          (take-all scanned (contents rb) (omega (arith, contents-length v))) clean
  ]

  looked_all : looked rb scanned ≡ rb.length
  looked_all = ground arith

module _ {S : Type 0} (file : S → List ℕ) where
  -- What is still to be read: the readable bytes, then those that the descriptor will deliver.
  abbrev pub pending : World S → List ℕ
  pending w = contents (buffer_of w) ++ file w.source

  -- What read(2) promises for bytes asked for, as the manual has it: at most so many bytes, the
  -- next ones of the file; none only at its end; a failure takes nothing.
  abbrev pub Delivers : ℕ → S → Reading × S → Type 0
  Delivers n s (got [], s') = (file s ≡ []) × (file s' ≡ [])
  Delivers n s (got (b ∷ bs), s') = (length (b ∷ bs) ≤ n) × (file s ≡ (b ∷ bs) ++ file s')
  Delivers n s (failed m, s') = file s' ≡ file s

  abbrev pub IsStream : Device S → Type 0
  IsStream read = (fd : ℤ) (n : ℕ) (s : S) → 0 < n → Delivers n s (read fd n s)

module _ {S : Type 0} (file : S → List ℕ) (a : Allocator) (read : Device S) where
  -- The last call of readbuffer__assure failed.
  abbrev pub AssureFailed : World S → Type 0
  AssureFailed w =
      (rb : ReadBuffer) × (h : Heap) × (code : ErrorCode) × (m : String) × (ReadBuffer.assure a rb
          read_buffering_size h
        ≡ (failure code m, buffer_of w, w.heap))

  -- The last read failed.
  abbrev pub ReadFailed : World S → Type 0
  ReadFailed w = (n : ℕ) × (s : S) × (m : String) × (read w.stream.fd n s ≡ (failed m, w.source))

  -- An answer to a call, where `all` was to be read: the first line, or the end, or a failure
  -- that loses nothing, and what has failed.
  abbrev pub Answers : List ℕ → ResultString × World S → Type 0
  Answers all (ResultString.ok str, w) =
      IsLine all (slice str.cursor str.size (buffer_of w).bytes) (pending file w)
      × (str.cursor + str.size ≤ length (buffer_of w).bytes)
  Answers all (err eof m, w) = (all ≡ []) × (pending file w ≡ [])
  Answers all (err alloc_failed m, w) = (pending file w ≡ all) × AssureFailed w
  Answers all (err read_failed m, w) = (pending file w ≡ all) × ReadFailed w
  Answers all (err init_failed m, w) = ⊥
  Answers all (err null_arg m, w) = ⊥

  abbrev pub Ends : List ℕ → Option (ResultString × World S) → Type 0
  Ends all r =
      (out : ResultString × World S) × (r ≡ some out) × IsValid (buffer_of out.1) × Answers all out

  consume_keeps : (rb : ReadBuffer) (n : ℕ) → (consume rb n).1.bytes ≡ rb.bytes
  unfolding consume
  consume_keeps rb n = ground arith

  return_line-Ends :
      (w : World S) (k : ℕ)
      → IsValid (buffer_of w)
      → memchr (contents (buffer_of w)) newline ≡ some k
      → Ends (pending file w) (some (return_line w k))
  unfolding return_line
  return_line-Ends w k v e =
      let rb : ReadBuffer = buffer_of w in
      let (below, split, clean) = memchr-some (contents rb) newline k e in
      let (r, rest, v') = consume-contents (k + 1) v (omega (arith, contents-length v)) in
      let line : slice rb.offset k (consume rb (k + 1)).1.bytes ≡ take k (contents rb) =
        ap (slice rb.offset k) (consume_keeps rb (k + 1))
        ∙ sym
            (take-take k rb.length (drop rb.offset rb.bytes) (omega (arith, contents-length v))) in
      let shape : pending file w
          ≡ take k (contents rb) ++ newline ∷ (contents (consume rb (k + 1)).1 ++ file w.source) =
        ap (λ c. c ++ file w.source) split
        ∙ append_assoc (take k (contents rb)) (newline ∷ drop (suc k) (contents rb)) (file w.source)
        ∙ ap (λ c. take k (contents rb) ++ newline ∷ (c ++ file w.source))
            (ap (λ j. drop j (contents rb)) {x = suc k} (omega arith) ∙ sym rest) in
      (
        return_line w k,
        refl,
        v',
        (
          (
            ap (λ l. memchr l newline) line ∙ clean,
            inl (
                shape
                ∙ ap (λ l. l ++ newline ∷ (contents (consume rb (k + 1)).1 ++ file w.source))
                    (sym line)),
          ),
          omega (arith, ap length (consume_keeps rb (k + 1)), v.stored, v.fits, contents-length v),
        ),
      )

  return_rest-Ends :
      (w : World S)
      → IsValid (buffer_of w)
      → memchr (contents (buffer_of w)) newline ≡ none
      → file w.source ≡ []
      → Ends (pending file w) (some (return_rest w))
  unfolding return_rest
  return_rest-Ends w v e done = elim (dec_lt 0 (buffer_of w).length) [
    | yes p ↦
        let rb : ReadBuffer = buffer_of w in
        let rb' : ReadBuffer = (consume rb rb.length).1 in
        let (r, rest, v') = consume-contents rb.length v (omega arith) in
        let line : slice rb.offset rb.length rb'.bytes ≡ contents rb =
          ap (slice rb.offset rb.length) (consume_keeps rb rb.length) in
        let left : contents rb' ≡ [] =
          rest
          ∙ eq-nil_of_length (drop rb.length (contents rb))
              (omega (arith, length-drop rb.length (contents rb), contents-length v)) in
        (
          (ResultString.ok (record { cursor = rb.offset; size = rb.length }), with_buffer w rb'),
          rw (lt→ltb 0 rb.length p),
          v',
          (
            (
              ap (λ l. memchr l newline) line ∙ e,
              inr (
                rw done (append-nil (contents rb) ∙ sym line),
                rw (done, left),
                omega (arith, ap length line, contents-length v),
              ),
            ),
            omega (arith, ap length (consume_keeps rb rb.length), v.stored, v.fits),
          ),
        )
    | no p ↦
        let nothing : contents (buffer_of w) ≡ [] =
          eq-nil_of_length (contents (buffer_of w)) (omega (arith, contents-length v)) in
        let message : String = "linestream__next: end of file" in
        (
          (err eof message, w),
          rw (ge→ltb 0 (buffer_of w).length (omega arith)),
          v,
          (rw (done, nothing), rw (done, nothing)),
        )
  ]

  -- The rest of the loop, run once the buffer holds `b ∷ bs` more.
  abbrev Continues : (World S → Option (ResultString × World S)) → World S → Type 0
  Continues again w =
      (w' : World S) (b : ℕ) (bs : List ℕ)
      → IsValid (buffer_of w')
      → contents (buffer_of w') ≡ contents (buffer_of w) ++ (b ∷ bs)
      → file w.source ≡ (b ∷ bs) ++ file w'.source
      → Ends (pending file w') (again w')

  pending_grows :
      (w w' : World S) (bs : List ℕ)
      → contents (buffer_of w') ≡ contents (buffer_of w) ++ bs
      → file w.source ≡ bs ++ file w'.source
      → pending file w' ≡ pending file w
  pending_grows w w' bs p q =
      ap (λ c. c ++ file w'.source) p
      ∙ append_assoc (contents (buffer_of w)) bs (file w'.source)
      ∙ ap (◌++◌ (contents (buffer_of w))) (sym q)

  commit_and_loop-Ends :
      (again : World S → Option (ResultString × World S)) (w : World S) (b : ℕ) (bs : List ℕ)
      (s : S)
      → IsValid (buffer_of w)
      → length (b ∷ bs) ≤ ReadBuffer.get_write_cursor_limit (buffer_of w)
      → file w.source ≡ (b ∷ bs) ++ file s
      → Continues again w
      → Ends (pending file w) (
          commit_and_loop again
            (with_buffer (record w { source = s }) (written (buffer_of w) (b ∷ bs)))
            (length (b ∷ bs)))
  unfolding commit_and_loop
  commit_and_loop-Ends again w b bs s v room q k =
      let rb : ReadBuffer =
        (ReadBuffer.commit_write (written (buffer_of w) (b ∷ bs)) (length (b ∷ bs))).1 in
      let w' : World S = with_buffer (record w { source = s }) rb in
      let (r, same, v') = commit_write-contents (b ∷ bs) v room in
      rw (r, commit_and_loop)
        (subst (λ all. Ends all (again w')) (pending_grows w w' (b ∷ bs) same q)
          (k w' b bs v' same q))

  take_reading-Ends :
      (again : World S → Option (ResultString × World S)) (w : World S) (s : S) (reading : Reading)
      → IsValid (buffer_of w)
      → memchr (contents (buffer_of w)) newline ≡ none
      → Delivers file (ReadBuffer.get_write_cursor_limit (buffer_of w)) w.source (reading, s)
      → read w.stream.fd (ReadBuffer.get_write_cursor_limit (buffer_of w)) w.source ≡ (reading, s)
      → Continues again w
      → Ends (pending file w) (take_reading again (record w { source = s }) reading)
  unfolding take_reading
  take_reading-Ends again w s (failed m) v e d run k = (
    (err read_failed m, record w { source = s }),
    refl,
    v,
    (
      ap (◌++◌ (contents (buffer_of w))) d,
      (ReadBuffer.get_write_cursor_limit (buffer_of w), w.source, m, run),
    ),
  )
  take_reading-Ends again w s (got []) v e d run k =
      subst (λ all. Ends all (some (return_rest (record w { source = s }))))
        (ap (◌++◌ (contents (buffer_of w))) (d.1 ∙ sym d.0))
        (return_rest-Ends (record w { source = s }) v e d.1)
  take_reading-Ends again w s (got (b ∷ bs)) v e d run k =
      commit_and_loop-Ends again w b bs s v d.0 d.1 k

  refill-Ends :
      (again : World S → Option (ResultString × World S)) (w : World S)
      → IsStream file read
      → IsValid (buffer_of w)
      → memchr (contents (buffer_of w)) newline ≡ none
      → Continues again w
      → Ends (pending file w) (refill a read again w)
  unfolding refill
  refill-Ends again w law v e k =
      let (_, rb, h) = ReadBuffer.assure a (buffer_of w) read_buffering_size w.heap in
      let w' : World S = record (with_buffer w rb) { heap = h } in
      let limit : ℕ = ReadBuffer.get_write_cursor_limit rb in
      let (reading, s) = read w.stream.fd limit w.source in
      elim (assure-Assured a read_buffering_size w.heap v (omega arith)) [
        | inl (r, v', same, room) ↦
            rw (r, refill)
              (subst
                (λ c.
                  Ends (c ++ file w.source) (take_reading again (record w' { source = s }) reading))
                same
                (take_reading-Ends again w' s reading v' (ap (λ l. memchr l newline) same ∙ e)
                  (law w.stream.fd limit w.source (omega arith)) refl
                  (λ w'' b bs u more q. k w'' b bs u (more ∙ ap (λ l. l ++ b ∷ bs) same) q)))
        | inr (c, m, r, kept, _) ↦
            rw (r, refill)
              (
                (err alloc_failed m, w'),
                refl,
                subst IsValid (sym kept) v,
                (
                  ap (λ c'. c' ++ file w.source) (ap contents kept),
                  (buffer_of w, w.heap, c, m, ap (λ q. (q, rb, h)) r),
                ),
              )
      ]

  next_loop-Ends :
      (fuel scanned : ℕ) (w : World S)
      → IsStream file read
      → IsValid (buffer_of w)
      → scanned ≤ (buffer_of w).length
      → memchr (take scanned (contents (buffer_of w))) newline ≡ none
      → length (file w.source) < fuel
      → Ends (pending file w) (next_loop a read fuel scanned w)
  unfolding next_loop
  next_loop-Ends zero scanned w law v seen clean enough = absurd (omega arith)
  next_loop-Ends (suc fuel) scanned w law v seen clean enough =
      elim (Option-cases (find_newline (buffer_of w) scanned)) [
        | inr (i, e) ↦
            rw (e, next_loop)
              (return_line-Ends w (scanned + i) v (find_newline-some v scanned seen clean i e))
        | inl e ↦
            let none_yet : memchr (contents (buffer_of w)) newline ≡ none =
              find_newline-none v scanned seen clean e in
            let all_seen : looked (buffer_of w) scanned ≡ (buffer_of w).length =
              looked_all v scanned seen clean in
            rw (e, next_loop)
              (refill-Ends (next_loop a read fuel (looked (buffer_of w) scanned)) w law v none_yet
                λ w' b bs v' same q.
                  let longer : length (contents (buffer_of w'))
                      ≡ length (contents (buffer_of w)) + length (b ∷ bs) =
                    ap length same ∙ length-append (contents (buffer_of w)) (b ∷ bs) in
                  next_loop-Ends fuel (looked (buffer_of w) scanned) w' law v'
                    (omega (arith, longer, all_seen, contents-length v, contents-length v'))
                    (rw
                      (
                        same,
                        take-append (looked (buffer_of w) scanned) (contents (buffer_of w)) (b ∷ bs)
                            (all_seen ∙ sym (contents-length v)),
                      )
                      none_yet)
                    (omega (arith, ap length q, length-append (b ∷ bs) (file w'.source))))
      ]

  -- For any allocator, any descriptor that behaves as read(2) does, and fuel above the bytes that
  -- it has left, a call of `next` on a valid stream returns. It returns the first line of what was
  -- to be read, without its newline, and leaves what follows; or LS_ERR_EOF, only where nothing
  -- was left; or LS_ERR_READ_FAILED or LS_ERR_ALLOC_FAILED, which lose nothing, and only where the
  -- last read or the last call of readbuffer__assure has failed. The stream stays valid.
  pub next-Answers :
      (fuel : ℕ) (w : World S)
      → IsStream file read
      → IsValid (buffer_of w)
      → length (file w.source) < fuel
      → (out : ResultString × World S) × (next a read fuel w ≡ some out)
        × IsValid (buffer_of out.1)
        × Answers (pending file w) out
  unfolding next memchr
  next-Answers fuel w law v enough = next_loop-Ends fuel 0 w law v (omega arith) refl enough

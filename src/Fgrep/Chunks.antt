-- ===== src/Fgrep/Chunks.antt =====
-- read_and_search against a scan of the file.
use native.Mathlib.Decide.{dec_lt}
use Prim.Native.String.{String}
use sys_programming_explorat.Base.{
  ℕ, zero, suc, ◌+◌, ◌-◌, ◌*◌, ◌≤◌, ◌<◌, ◌≡◌, refl, sym, ap, subst, ◌∙◌, List, [], ◌∷◌, ◌++◌,
  append-nil, append_assoc, Option, none, some, arith, ltb, leb, length, drop, Option-cases, inl,
  inr, length-drop, length-append, drop-append_less, true, false, ℤ,
}
use sys_programming_explorat.Libc.Memmem.{memmem, memmem-some, memmem-append}
use sys_programming_explorat.LineStream.{Reading, got, failed, Device}
use sys_programming_explorat.LineStream.Next.{Delivers, IsStream}
use sys_programming_explorat.Fgrep.{
  Outcome, returned, exited, after_output, report, pattern_search, search_chunk, take_bytes,
  chunk_loop, read_and_search, max_pattern_len, bytes_to_read,
}
use sys_programming_explorat.Fgrep.Scan.{scan, walk-memmem-some, walk-append-none, walk-short}

-- A search that returns wrote the scan of all bytes. One that ends the process wrote a first part
-- of it, and a read failed.
abbrev pub Searched : {S : Type 0} → Device S → ℤ → List ℕ → List ℕ → Outcome → Type 0
Searched read fd pattern all (returned out) = out ≡ scan pattern 0 all
Searched {S} read fd pattern all (exited out) =
    ((rest : List ℕ) × (out ++ rest ≡ scan pattern 0 all))
    × ((s : S) × (m : String) × ((read fd bytes_to_read s).0 ≡ failed m))

after_output-Searched :
    {S : Type 0} (read : Device S) (fd : ℤ) (pattern all all' out : List ℕ) (o : Outcome)
    → scan pattern 0 all ≡ out ++ scan pattern 0 all'
    → Searched read fd pattern all' o
    → Searched read fd pattern all (after_output out o)
unfolding after_output
after_output-Searched read fd pattern all all' out (returned rest) e h = ap (◌++◌ out) h ∙ sym e
after_output-Searched read fd pattern all all' out (exited rest) e ((later, h), why) =
    ((later, append_assoc out rest later ∙ ap (◌++◌ out) h ∙ sym e), why)

search_chunk-none :
    (pattern chunk : List ℕ)
    → memmem chunk pattern ≡ none
    → search_chunk pattern chunk ≡ ([], drop (length chunk - length pattern + 1) chunk)
unfolding search_chunk pattern_search
search_chunk-none pattern chunk e = ground arith

search_chunk-some :
    (pattern chunk : List ℕ) (i : ℕ)
    → memmem chunk pattern ≡ some i
    → search_chunk pattern chunk ≡ (report pattern, drop (i + length pattern) chunk)
unfolding search_chunk pattern_search
search_chunk-some pattern chunk i e = ground arith

-- What is left of a chunk is shorter, and gives with what was written the same scan.
search_chunk-scan :
    (pattern chunk rest : List ℕ)
    → 0 < length pattern
    → length pattern ≤ length chunk
    → let (out, chunk') = search_chunk pattern chunk in
      (length chunk' < length chunk)
      × (scan pattern 0 (chunk ++ rest) ≡ out ++ scan pattern 0 (chunk' ++ rest))
search_chunk-scan pattern chunk rest h long = elim (Option-cases (memmem chunk pattern)) [
  | inl absent ↦
      let kept : length chunk + 1 - length pattern ≡ length chunk - length pattern + 1 =
        omega arith in
      rw (search_chunk-none pattern chunk absent) (
        omega (arith, length-drop (length chunk - length pattern + 1) chunk),
        walk-append-none (λ text. report pattern) pattern chunk rest h absent
            ∙ ap (λ k. scan pattern 0 (drop k chunk ++ rest)) kept,
      )
  | inr (i, found) ↦
      let (inside, _) = memmem-some chunk pattern i found in
      let tail : drop (i + length pattern) (chunk ++ rest)
          ≡ drop (i + length pattern) chunk ++ rest =
        drop-append_less (i + length pattern) chunk rest inside in
      rw (search_chunk-some pattern chunk i found) (
        omega (arith, length-drop (i + length pattern) chunk),
        walk-memmem-some (λ text. report pattern) pattern (chunk ++ rest) i h
              (memmem-append chunk rest pattern i found)
            ∙ ap (λ t. report pattern ++ scan pattern 0 t) tail,
      )
]

module _ {S : Type 0} (file : S → List ℕ) (read : Device S) (fd : ℤ) (pattern : List ℕ) where
  -- The loop ends on these bytes, and what it wrote is right.
  abbrev Ends : List ℕ → Option Outcome → Type 0
  Ends all result = (o : Outcome) × (result ≡ some o) × Searched read fd pattern all o

  take_bytes-Ends :
      (again : List ℕ → S → Option Outcome) (chunk : List ℕ) (s : S) (answer : Reading × S)
      → read fd bytes_to_read s ≡ answer
      → length chunk < length pattern
      → Delivers file bytes_to_read s answer
      → ((b : ℕ) (bs : List ℕ) (s' : S)
          → file s ≡ (b ∷ bs) ++ file s'
          → Ends ((chunk ++ b ∷ bs) ++ file s') (again (chunk ++ b ∷ bs) s'))
      → Ends (chunk ++ file s) (take_bytes read fd pattern again chunk answer)
  unfolding take_bytes
  take_bytes-Ends again chunk s (got [], s') made short (over, _) k = (
    returned [],
    refl,
    sym (
        ap (λ f. scan pattern 0 (chunk ++ f)) over
        ∙ ap (scan pattern 0) (append-nil chunk)
        ∙ walk-short (λ text. report pattern) pattern chunk short),
  )
  take_bytes-Ends again chunk s (failed m, s') made short d k =
      (exited [], refl, ((scan pattern 0 (chunk ++ file s), refl), (s, m, ap (λ r. r.0) made)))
  take_bytes-Ends again chunk s (got (b ∷ bs), s') made short (_, more) k =
      subst (λ all. Ends all (again (chunk ++ b ∷ bs) s'))
        (append_assoc chunk (b ∷ bs) (file s') ∙ ap (◌++◌ chunk) (sym more)) (k b bs s' more)

  chunk_loop-Ends :
      (fuel : ℕ) (chunk : List ℕ) (s : S)
      → 0 < length pattern
      → IsStream file read
      → length (file s) * 2 + length chunk < fuel
      → Ends (chunk ++ file s) (chunk_loop read fd pattern fuel chunk s)
  unfolding chunk_loop
  chunk_loop-Ends zero chunk s h stream enough = absurd (omega arith)
  chunk_loop-Ends (suc fuel) chunk s h stream enough =
      elim (dec_lt (length chunk) (length pattern)) [
        | yes short ↦
            let test : leb (length pattern) (length chunk) ≡ false = ground arith in
            rw test (
              take_bytes-Ends (chunk_loop read fd pattern fuel) chunk s (read fd bytes_to_read s)
                refl short (stream fd bytes_to_read s (omega arith))
                (λ b bs s' more. chunk_loop-Ends fuel (chunk ++ b ∷ bs) s' h stream (
                  omega (
                    arith,
                    length-append chunk (b ∷ bs),
                    ap length more ∙ length-append (b ∷ bs) (file s'),
                  ))))
        | no long ↦
            let test : leb (length pattern) (length chunk) ≡ true = ground arith in
            let (out, chunk') = search_chunk pattern chunk in
            let (less, same) = search_chunk-scan pattern chunk (file s) h (omega arith) in
            let (o, run, right) = chunk_loop-Ends fuel chunk' s h stream (omega arith) in
            rw (test, run)
              (
                after_output out o,
                refl,
                after_output-Searched read fd pattern (chunk ++ file s) (chunk' ++ file s) out o
                    same right,
              )
      ]

  -- Where malloc grants the buffer, for a pattern of 1 to 1023 bytes, a descriptor that behaves as
  -- read(2) does, and fuel above
  -- twice the bytes that it has left: read_and_search ends. However the reads split these bytes, it
  -- either returns, having written the pattern once for each of its places, from left to right,
  -- that do not overlap; or it ends the process, a read having failed, and what it wrote is a first
  -- part of that.
  pub read_and_search-Ends :
      (fuel : ℕ) (s : S)
      → 0 < length pattern
      → length pattern ≤ max_pattern_len
      → IsStream file read
      → length (file s) * 2 < fuel
      → (o : Outcome) × (read_and_search read fd pattern fuel s ≡ some o)
        × Searched read fd pattern (file s) o
  unfolding read_and_search
  read_and_search-Ends fuel s h short stream enough =
      let test : ltb max_pattern_len (length pattern) ≡ false = ground arith in
      rw test (chunk_loop-Ends fuel [] s h stream (omega arith))

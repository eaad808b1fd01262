-- ===== src/Fgrep/LineSearch/Whole.antt =====
-- stream_line_and_search as a whole, from a file to its reports.
use sys_programming_explorat.Base.{
  ℕ, ℤ, ◌≤◌, ◌<◌, ◌≡◌, ◌⊎◌, inl, inr, refl, ap, subst, List, [], ◌++◌, Option, none, some, arith,
  length, size_max,
}
use Prim.Native.String.{String}
use sys_programming_explorat.Libc.{Allocator, Heap, malloc}
use sys_programming_explorat.ReadBuffer.Validity.{IsValid, contents, init-IsFresh}
use sys_programming_explorat.LineStream
use sys_programming_explorat.LineStream.{
  LineStream, ResultLineStream, LsErrorCode, World, Device, sizeof_line_stream,
}
use sys_programming_explorat.LineStream.Next.{pending, IsStream}
use sys_programming_explorat.LineStream.Ownership.{IsMade, create-IsMade, destroy-Holds}
use sys_programming_explorat.Fgrep.{max_pattern_len}
use sys_programming_explorat.Fgrep.LineSearch.{Report, search_lines, stream_line_and_search}
use sys_programming_explorat.Fgrep.LineSearch.Stream.{Found, EndsWith, search_lines-Found}
use sys_programming_explorat.Fgrep.LineSearch.Ownership.{HoldsAtEnd, search_lines-Holds}

-- A stream just made is valid, and nothing was read into it.
abbrev IsFreshStream : ResultLineStream → Type 0
IsFreshStream (ResultLineStream.err code message) = Unit {0}
IsFreshStream (ResultLineStream.ok ls) = IsValid ls.read_buffer × (contents ls.read_buffer ≡ [])

create-IsFreshStream :
    (a : Allocator) (page_size : ℕ) (fd : ℤ) (h : Heap)
    → page_size ≤ size_max
    → IsFreshStream (LineStream.create a page_size fd h).0
unfolding LineStream.create malloc
create-IsFreshStream a page_size fd h small =
    let h' : Heap = (malloc a sizeof_line_stream h).1 in
    let fresh = init-IsFresh a page_size h' small in ground (arith, fresh)

module _ {S : Type 0} (file : S → List ℕ) (a : Allocator) (read : Device S)
    (pattern beyond : List ℕ) where
  -- How the search ends, by what linestream__create answers.
  abbrev pub Finished :
      ℕ → ℤ → S → Heap → Option (Option (List Report × LsErrorCode × S × Heap)) → Type 0
  Finished page_size fd s h r =
      ((code : LsErrorCode) × (message : String) × ((LineStream.create a page_size fd h).0
          ≡ ResultLineStream.err code message)
        × (r ≡ some none))
      ⊎ ((found : List Report) × (code : LsErrorCode) × (w : World S) × (h' : Heap) × (r
            ≡ some (some (found, code, w.source, h')))
          × Found pattern 0 (file s) found (pending file w)
          × EndsWith file a read code w
          × (h'.live ≡ h.live))

  module _ (page_size fuel lines : ℕ) (fd : ℤ) (s : S) (h : Heap) where
    abbrev search : Option (Option (List Report × LsErrorCode × S × Heap))
    search = stream_line_and_search a read pattern beyond page_size fuel lines fd s h

    search_refused :
        (code : LsErrorCode) (message : String)
        → length pattern ≤ max_pattern_len
        → (LineStream.create a page_size fd h).0 ≡ ResultLineStream.err code message
        → search ≡ some none
    unfolding stream_line_and_search
    search_refused code message short e = grind (arith, short, e)

    search_made :
        (ls : LineStream) (h' : Heap) (found : List Report) (code : LsErrorCode) (w : World S)
        → length pattern ≤ max_pattern_len
        → LineStream.create a page_size fd h ≡ (ResultLineStream.ok ls, h')
        → search_lines a read pattern beyond fuel lines 0
            (record { stream = ls; source = s; heap = h' })
          ≡ some (found, code, w)
        → search ≡ some (some (found, code, w.source, LineStream.destroy w.stream w.heap))
    unfolding stream_line_and_search
    search_made ls h' found code w short e rest = grind (arith, short, e, rest)

    from_created :
        (created : ResultLineStream × Heap)
        → LineStream.create a page_size fd h ≡ created
        → IsFreshStream created.0
        → IsMade h.live created
        → IsStream file read
        → 0 < length pattern
        → length pattern ≤ max_pattern_len
        → length (file s) < fuel
        → length (file s) < lines
        → length (file s) ≤ length beyond
        → Finished page_size fd s h search
    from_created (ResultLineStream.err code message, h') e fresh made law some_text short f l
          mapped =
        inl (code, message, ap (λ p. p.0) e, search_refused code message short (ap (λ p. p.0) e))
    from_created (ResultLineStream.ok ls, h') e (v, nothing) made law some_text short f l mapped =
        let w : World S = record { stream = ls; source = s; heap = h' } in
        let same : pending file w ≡ file s = ap (λ c. c ++ file s) nothing in
        let (found, code, w', e', searched, ends) =
          search_lines-Found file a read law pattern beyond some_text fuel lines 0 w v
            (omega (arith, ap length same)) (omega (arith, ap length same))
            (omega (arith, ap length same)) in
        let held : HoldsAtEnd h.live (some (found, code, w')) =
          subst (HoldsAtEnd h.live) e'
            (search_lines-Holds h.live a read pattern beyond fuel lines 0 w made) in
        inr (
          found,
          code,
          w',
          LineStream.destroy w'.stream w'.heap,
          search_made ls h' found code w' short e e',
          subst (λ all. Found pattern 0 all found (pending file w')) same searched,
          ends,
          destroy-Holds w'.stream h.live w'.heap held,
        )

  -- For any allocator, a page size that fits a size_t, any descriptor that behaves as read(2) does,
  -- a pattern of 1 to 1023 bytes, and memory that can be read behind the block of the buffer for as
  -- many bytes as the file has, whatever they are: fuel and rounds above the bytes of the file are
  -- enough. The process exits where the stream cannot be made. Else the lines of the file, from the
  -- first on and in order, have each reported, under their number, the offsets of the places in
  -- them that do not overlap, and then at most one offset more, of a place that does not lie in the
  -- line. The loop ends with LS_ERR_EOF and no line left, or where the last read or the last call
  -- of readbuffer__assure has failed. At the end all blocks that were allocated are freed, and no
  -- others.
  pub stream_line_and_search-Finished :
      (page_size fuel lines : ℕ) (fd : ℤ) (s : S) (h : Heap)
      → IsStream file read
      → page_size ≤ size_max
      → 0 < length pattern
      → length pattern ≤ max_pattern_len
      → length (file s) < fuel
      → length (file s) < lines
      → length (file s) ≤ length beyond
      → Finished page_size fd s h
          (stream_line_and_search a read pattern beyond page_size fuel lines fd s h)
  stream_line_and_search-Finished page_size fuel lines fd s h law small some_text short f l mapped =
      from_created page_size fuel lines fd s h (LineStream.create a page_size fd h) refl
        (create-IsFreshStream a page_size fd h small) (create-IsMade a page_size fd h) law some_text
        short f l mapped

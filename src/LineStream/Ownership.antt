-- ===== src/LineStream/Ownership.antt =====
-- Which blocks a stream owns: its own and its buffer's, through every call of linestream.c.
use sys_programming_explorat.Base.{
  ℕ, ℤ, zero, suc, ◌+◌, ◌≡◌, List, [], ◌∷◌, Option, none, some, arith, length, blit,
}
use sys_programming_explorat.Libc.{Allocator, Heap, malloc, free, remove}
use sys_programming_explorat.ReadBuffer
use sys_programming_explorat.ReadBuffer.{
  ReadBuffer, init, consume, commit_write, assure, success, failure,
}
use sys_programming_explorat.ReadBuffer.Ownership.{Owns, init-Created, assure-Owns, destroy-Owns}
use sys_programming_explorat.LineStream.{
  alloc_failed, sizeof_line_stream, LineStream, create, destroy, ResultLineStream, ResultString,
  Reading, got, failed, Device, World, buffer_of, with_buffer, return_line, return_rest,
  commit_and_loop, take_reading, refill, next_loop, next, find_newline, looked, read_buffering_size,
}

-- Of the live blocks, those on top of `base` are the stream's.
abbrev pub Holds : List ℕ → LineStream → Heap → Type 0
Holds base ls h = Owns (ls.self ∷ base) ls.read_buffer h

-- `destroy` frees the blocks of the stream, and nothing else.
pub destroy-Holds :
    (ls : LineStream) (base : List ℕ) (h : Heap) → Holds base ls h → (destroy ls h).live ≡ base
unfolding destroy free remove
destroy-Holds ls base h o = ground (arith, destroy-Owns o)

-- What `create` answers: a stream that owns its new blocks, or a failure with none left behind.
abbrev pub IsMade : List ℕ → ResultLineStream × Heap → Type 0
IsMade base (ResultLineStream.ok ls, h) = Holds base ls h
IsMade base (ResultLineStream.err code message, h) = h.live ≡ base

pub create-IsMade :
    (a : Allocator) (page_size : ℕ) (fd : ℤ) (h : Heap) → IsMade h.live (create a page_size fd h)
unfolding create malloc free remove
create-IsMade a page_size fd h =
    let h' : Heap = (malloc a sizeof_line_stream h).1 in ground (arith, init-Created a page_size h')

module _ (rb : ReadBuffer) (base : List ℕ) (h : Heap) (o : Owns base rb h) where
  consume-Owns : (n : ℕ) → Owns base (consume rb n).1 h
  unfolding consume
  consume-Owns n = ground arith

  commit_write-Owns : (n : ℕ) → Owns base (commit_write rb n).1 h
  unfolding commit_write
  commit_write-Owns n = ground arith

module _ {S : Type 0} (base : List ℕ) where
  -- The same behind a call.
  abbrev pub HoldsAfter : Option (ResultString × World S) → Type 0
  HoldsAfter none = Unit {0}
  HoldsAfter (some (r, w)) = Holds base w.stream w.heap

  return_line-Holds :
      (w : World S) (k : ℕ) → Holds base w.stream w.heap → HoldsAfter (some (return_line w k))
  unfolding return_line
  return_line-Holds w k o = consume-Owns (buffer_of w) (w.stream.self ∷ base) w.heap o (k + 1)

  return_rest-Holds : (w : World S) → Holds base w.stream w.heap → HoldsAfter (some (return_rest w))
  unfolding return_rest
  return_rest-Holds w o =
      ground
        (arith, consume-Owns (buffer_of w) (w.stream.self ∷ base) w.heap o (buffer_of w).length)

  module _ (again : World S → Option (ResultString × World S))
      (k : (w : World S) → Holds base w.stream w.heap → HoldsAfter (again w)) where
    commit_and_loop-Holds :
        (w : World S) (n : ℕ) → Holds base w.stream w.heap → HoldsAfter (commit_and_loop again w n)
    unfolding commit_and_loop
    commit_and_loop-Holds w n o =
        let (r, rb) = commit_write (buffer_of w) n in
        let o' = commit_write-Owns (buffer_of w) (w.stream.self ∷ base) w.heap o n in
        elim r
          as (λ r'. HoldsAfter (elim r' [
            | success ↦ again (with_buffer w rb)
            | failure _ message ↦ some (ResultString.err alloc_failed message, with_buffer w rb)
          ])) [ success ↦ k (with_buffer w rb) o' | failure _ message ↦ o' ]

    take_reading-Holds :
        (w : World S) (reading : Reading)
        → Holds base w.stream w.heap
        → HoldsAfter (take_reading again w reading)
    unfolding take_reading
    take_reading-Holds w (failed message) o = o
    take_reading-Holds w (got []) o = return_rest-Holds w o
    take_reading-Holds w (got (b ∷ bs)) o =
        let rb : ReadBuffer = buffer_of w in
        let filled = record rb { bytes = blit rb.bytes (rb.offset + rb.length) (b ∷ bs) } in
        commit_and_loop-Holds (with_buffer w filled) (length (b ∷ bs))
          (record { live = o.live; self_old = o.self_old; block_old = o.block_old })

    refill-Holds :
        (a : Allocator) (read : Device S) (w : World S)
        → Holds base w.stream w.heap
        → HoldsAfter (refill a read again w)
    unfolding refill
    refill-Holds a read w o =
        let (r, rb, h) = assure a (buffer_of w) read_buffering_size w.heap in
        let assured = record (with_buffer w rb) { heap = h } in
        let o' = assure-Owns a (buffer_of w) (w.stream.self ∷ base) w.heap o read_buffering_size in
        let (reading, source) = read w.stream.fd (ReadBuffer.get_write_cursor_limit rb) w.source in
        elim r
          as (λ r'. HoldsAfter (elim r' [
            | failure _ message ↦ some (ResultString.err alloc_failed message, assured)
            | success ↦ take_reading again (record assured { source = source }) reading
          ])) [
            | failure _ message ↦ o'
            | success ↦ take_reading-Holds (record assured { source = source }) reading o'
          ]

  next_loop-Holds :
      (a : Allocator) (read : Device S) (fuel scanned : ℕ) (w : World S)
      → Holds base w.stream w.heap
      → HoldsAfter (next_loop a read fuel scanned w)
  unfolding next_loop
  next_loop-Holds a read zero scanned w o = record {}
  next_loop-Holds a read (suc fuel) scanned w o =
      let rb = buffer_of w in
      elim (find_newline rb scanned)
        as (λ found. HoldsAfter (elim found [
          | some i ↦ some (return_line w (scanned + i))
          | none ↦ refill a read (next_loop a read fuel (looked rb scanned)) w
        ])) [
          | some i ↦ return_line-Holds w (scanned + i) o
          | none ↦
              refill-Holds (next_loop a read fuel (looked rb scanned))
                (next_loop-Holds a read fuel (looked rb scanned)) a read w o
        ]

  -- A call of `next`, whatever it answers, leaks nothing and frees nothing of others.
  pub next-Holds :
      (a : Allocator) (read : Device S) (fuel : ℕ) (w : World S)
      → Holds base w.stream w.heap
      → HoldsAfter (next a read fuel w)
  unfolding next
  next-Holds a read fuel w o = next_loop-Holds a read fuel 0 w o

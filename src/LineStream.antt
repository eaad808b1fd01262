-- ===== src/LineStream.antt =====
-- commons/src/linestream/src/linestream.c and commons/include/linestream.h.
-- read(2) on a descriptor is a parameter: from the state of what is read and the size of the
-- buffer it answers bytes (none at end of file) or a failure.
pub mod Lines
pub mod Next
pub mod Ownership
pub mod OneByOne
mod Tests
use Prim.Native.String.{String}
use sys_programming_explorat.Base.{
  ℕ, zero, suc, ◌+◌, ◌-◌, ◌*◌, List, [], ◌∷◌, Option, none, some, ltb, if◌then◌else◌, ℤ, length,
  slice, blit,
}
use sys_programming_explorat.Libc.{Allocator, Heap, malloc, free}
use sys_programming_explorat.Libc.Search.{memchr}
use sys_programming_explorat.ReadBuffer
use sys_programming_explorat.ReadBuffer.{ReadBuffer, success, failure}

-- `LsString`: where the string starts in the buffer's block, and its size.
pub record LsString : Type 0 where
  pub cursor : ℕ
  pub size : ℕ

pub data LsErrorCode : Type 0 where
  init_failed alloc_failed read_failed eof null_arg : LsErrorCode

pub data ResultString : Type 0 where
  ok : LsString → ResultString
  err : LsErrorCode → String → ResultString

-- `struct LineStream`; `self` is its block. Its buffer is never NULL.
pub record LineStream : Type 0 where
  pub self : ℕ
  pub fd : ℤ
  pub read_buffer : ReadBuffer

pub data ResultLineStream : Type 0 where
  ok : LineStream → ResultLineStream
  err : LsErrorCode → String → ResultLineStream

-- What read(2) answers: bytes put into the buffer, or -1 with the text of errno.
pub data Reading : Type 0 where
  got : List ℕ → Reading
  failed : String → Reading

abbrev pub Device : Type 0 → Type 0
Device S = ℤ → ℕ → S → Reading × S

-- `READ_BUFFERING_SIZE`, 4 MiB
abbrev pub read_buffering_size : ℕ
read_buffering_size = 4 * (1024 * 1024)

abbrev pub sizeof_line_stream : ℕ
sizeof_line_stream = 16

abbrev pub newline : ℕ
newline = 10

unfoldable pub create : Allocator → ℕ → ℤ → Heap → ResultLineStream × Heap
unfolding malloc free
create a page_size fd h =
    let (struct_block, h') = malloc a sizeof_line_stream h in
    elim struct_block [
      | none ↦ (ResultLineStream.err init_failed "linestream__create: malloc failed", h')
      | some self ↦
          let (buffer, h'') = ReadBuffer.init a page_size h' in
          elim buffer [
            | none ↦ (
              ResultLineStream.err init_failed "linestream__create: readbuffer__init failed",
              free (some self) h'',
            )
            | some rb ↦
                (ResultLineStream.ok (record { self = self; fd = fd; read_buffer = rb }), h'')
          ]
    ]

unfoldable pub destroy : LineStream → Heap → Heap
unfolding free
destroy ls h = free (some ls.self) (ReadBuffer.destroy ls.read_buffer h)

-- The memchr over the part of the view that was not looked at yet. The subtraction is made only
-- at `scanned < size`.
pub find_newline : ReadBuffer → ℕ → Option ℕ
find_newline rb scanned =
    if ltb scanned rb.length
    then memchr (slice (rb.offset + scanned) (rb.length - scanned) rb.bytes) newline
    else none

-- `scanned` behind the look at the view.
abbrev pub looked : ReadBuffer → ℕ → ℕ
looked rb scanned = if ltb scanned rb.length then rb.length else scanned

-- The stream, what its descriptor reads from, and the heap.
pub record World (S : Type 0) : Type 0 where
  pub stream : LineStream
  pub source : S
  pub heap : Heap

module _ {S : Type 0} where
  abbrev pub buffer_of : World S → ReadBuffer
  buffer_of w = w.stream.read_buffer

  abbrev pub with_buffer : World S → ReadBuffer → World S
  with_buffer w rb = record w { stream = record w.stream { read_buffer = rb } }

  -- The newline stands at `line_len` in the view.
  pub return_line : World S → ℕ → ResultString × World S
  return_line w line_len =
      let rb = buffer_of w in
      let (_, rb') = ReadBuffer.consume rb (line_len + 1) in
      (ResultString.ok (record { cursor = rb.offset; size = line_len }), with_buffer w rb')

  -- At end of file: a last line with no newline, or nothing.
  pub return_rest : World S → ResultString × World S
  return_rest w =
      let rb = buffer_of w in
      if ltb 0 rb.length
      then (let (_, rb') = ReadBuffer.consume rb rb.length in
          (ResultString.ok (record { cursor = rb.offset; size = rb.length }), with_buffer w rb'))
      else (err eof "linestream__next: end of file", w)

  -- From the commit of the bytes that read(2) placed on.
  pub commit_and_loop :
      (World S → Option (ResultString × World S)) → World S → ℕ → Option (ResultString × World S)
  commit_and_loop again w n =
      let (r, rb) = ReadBuffer.commit_write (buffer_of w) n in
      elim r [
        | success ↦ again (with_buffer w rb)
        | failure _ message ↦ some (err alloc_failed message, with_buffer w rb)
      ]

  -- What follows the answer of read(2).
  pub take_reading :
      (World S → Option (ResultString × World S))
      → World S
      → Reading
      → Option (ResultString × World S)
  take_reading again w (failed message) = some (err read_failed message, w)
  take_reading again w (got []) = some (return_rest w)
  take_reading again w (got (b ∷ bs)) =
      let rb = buffer_of w in
      let filled = record rb { bytes = blit rb.bytes (rb.offset + rb.length) (b ∷ bs) } in
      commit_and_loop again (with_buffer w filled) (length (b ∷ bs))

  -- Room for READ_BUFFERING_SIZE bytes, a read into it, and the commit.
  pub refill :
      Allocator
      → Device S
      → (World S → Option (ResultString × World S))
      → World S
      → Option (ResultString × World S)
  refill a read again w =
      let (r, rb, h) = ReadBuffer.assure a (buffer_of w) read_buffering_size w.heap in
      let assured = record (with_buffer w rb) { heap = h } in
      elim r [
        | failure _ message ↦ some (err alloc_failed message, assured)
        | success ↦
            let (reading, source) =
              read w.stream.fd (ReadBuffer.get_write_cursor_limit rb) w.source in
            take_reading again (record assured { source = source }) reading
      ]

  -- `while (1)`; `none` means that the fuel ran out.
  pub next_loop : Allocator → Device S → ℕ → ℕ → World S → Option (ResultString × World S)
  next_loop a read zero scanned w = none
  next_loop a read (suc fuel) scanned w =
      let rb = buffer_of w in
      elim (find_newline rb scanned) [
        | some i ↦ some (return_line w (scanned + i))
        | none ↦ refill a read (next_loop a read fuel (looked rb scanned)) w
      ]

  unfoldable pub next : Allocator → Device S → ℕ → World S → Option (ResultString × World S)
  unfolding next_loop refill take_reading commit_and_loop return_rest return_line find_newline
  next a read fuel w = next_loop a read fuel 0 w

-- ===== src/ReadBuffer.antt =====
-- commons/src/readbuffer/src/readbuffer.c and commons/include/readbuffer.h.
-- Each function is that of a buffer that is not NULL; `Nullable` holds the entry points with the
-- test for NULL. A function that changes `*rb` or the heap returns what it leaves of them.
pub mod Nullable
pub mod Powers
pub mod Validity
pub mod Assure
pub mod Commits
pub mod Contents
pub mod Ownership
mod Tests
use Prim.Native.String.{String}
use sys_programming_explorat.Base.{
  ℕ, zero, suc, ◌+◌, ◌*◌, ◌/◌, List, [], ◌∷◌, Option, none, some, ltb, leb, ◌==◌, if◌then◌else◌,
  slice, blit, tabulate, size_max, add_size, sub_size, mul_size,
}
use sys_programming_explorat.Libc.{Allocator, Heap, malloc, free}

pub data ErrorCode : Type 0 where
  invalid_argument allocation_failed overflow out_of_range : ErrorCode

-- `ReadBufferResult`, with the message of a failure.
pub data Result : Type 0 where
  success : Result
  failure : ErrorCode → String → Result

-- `struct ReadBuffer`. `self` is the block of the struct, `block` the pointer `data`, and `bytes`
-- what that block holds.
pub record ReadBuffer : Type 0 where
  pub self : ℕ
  pub block : Option ℕ
  pub bytes : List ℕ
  pub capacity : ℕ
  pub length : ℕ
  pub offset : ℕ

-- `String`: a cursor into the buffer's block, `none` for NULL, and a size.
pub record View : Type 0 where
  pub cursor : Option ℕ
  pub size : ℕ

-- `while (capacity < value)` of `next_power_of_two`, at most `fuel` rounds. `none` is `return 0`.
pub double : ℕ → ℕ → ℕ → Option ℕ
double zero value capacity = some capacity
double (suc fuel) value capacity =
    let rest = double fuel value (mul_size capacity 2) in
    if ltb capacity value
    then (if ltb (size_max / 2) capacity then none else rest)
    else some capacity

unfoldable pub next_power_of_two : ℕ → Option ℕ
next_power_of_two value = if value == 0 then some 0 else double 64 value 1

-- The storage of a block just allocated.
abbrev pub fresh_bytes : Allocator → Heap → ℕ → List ℕ
fresh_bytes a h n = tabulate n 0 (a.junk h.requests)

abbrev pub sizeof_read_buffer : ℕ
sizeof_read_buffer = 32

init_storage : Allocator → ℕ → ℕ → Heap → Option ReadBuffer × Heap
init_storage a init_capacity self h =
    let (data_block, h') = malloc a init_capacity h in
    elim data_block [
      | none ↦ (none, free (some self) h')
      | some p ↦ (
        some (record {
          self = self;
          block = some p;
          bytes = fresh_bytes a h init_capacity;
          capacity = init_capacity;
          length = 0;
          offset = 0;
        }),
        h',
      )
    ]

unfoldable pub init : Allocator → ℕ → Heap → Option ReadBuffer × Heap
unfolding init_storage malloc free
init a init_capacity h =
    let (struct_block, h') = malloc a sizeof_read_buffer h in
    elim struct_block [
      | none ↦ (none, h')
      | some self ↦
          if init_capacity == 0
          then (
            some (record {
              self = self;
              block = none;
              bytes = [];
              capacity = 0;
              length = 0;
              offset = 0;
            }),
            h',
          )
          else init_storage a init_capacity self h'
    ]

unfoldable pub destroy : ReadBuffer → Heap → Heap
unfolding free
destroy rb h = free (some rb.self) (free rb.block h)

trailing_space : ReadBuffer → ℕ
trailing_space rb = sub_size rb.capacity (add_size rb.offset rb.length)

-- The memmove of the readable bytes to the start of the block.
pub compact : ReadBuffer → ReadBuffer
compact rb = record rb { bytes = blit rb.bytes 0 (slice rb.offset rb.length rb.bytes); offset = 0 }

-- From the malloc of the new block on.
pub reallocate : Allocator → ReadBuffer → ℕ → Heap → Result × ReadBuffer × Heap
unfolding malloc free
reallocate a rb new_capacity h =
    let (new_data, h') = malloc a new_capacity h in
    elim new_data [
      | none ↦ (failure allocation_failed "allocation failed", rb, h')
      | some p ↦ (
        success,
        record rb {
          block = some p;
          bytes = blit (fresh_bytes a h new_capacity) 0 (slice rb.offset rb.length rb.bytes);
          capacity = new_capacity;
          offset = 0;
        },
        free rb.block h',
      )
    ]

-- From the test of `SIZE_MAX - rb->length` on.
pub grow : Allocator → ReadBuffer → ℕ → Heap → Result × ReadBuffer × Heap
grow a rb requested_space h =
    if ltb (sub_size size_max rb.length) requested_space
    then (failure overflow "requested capacity overflows", rb, h)
    else elim (next_power_of_two (add_size rb.length requested_space)) [
      | none ↦ (failure overflow "requested capacity overflows", rb, h)
      | some new_capacity ↦ reallocate a rb new_capacity h
    ]

unfoldable pub assure : Allocator → ReadBuffer → ℕ → Heap → Result × ReadBuffer × Heap
unfolding trailing_space compact
assure a rb requested_space h =
    if leb requested_space (trailing_space rb)
    then (success, rb, h)
    else if leb requested_space (sub_size rb.capacity rb.length)
    then (success, compact rb, h)
    else grow a rb requested_space h

unfoldable pub get_read_view : ReadBuffer → View
get_read_view rb = record {
  cursor = elim rb.block [ none ↦ none | some _ ↦ some rb.offset ];
  size = rb.length;
}

unfoldable pub get_write_cursor : ReadBuffer → Option ℕ
get_write_cursor rb = elim rb.block [ none ↦ none | some _ ↦ some (rb.offset + rb.length) ]

unfoldable pub get_write_cursor_limit : ReadBuffer → ℕ
get_write_cursor_limit rb = sub_size rb.capacity (add_size rb.offset rb.length)

unfoldable pub commit_write : ReadBuffer → ℕ → Result × ReadBuffer
unfolding get_write_cursor_limit
commit_write rb bytes_written =
    if ltb (get_write_cursor_limit rb) bytes_written
    then (failure out_of_range "write exceeds assured space", rb)
    else (success, record rb { length = add_size rb.length bytes_written })

-- `rb->offset = 0` if nothing is left to read.
rewind : ReadBuffer → ReadBuffer
rewind rb = if rb.length == 0 then record rb { offset = 0 } else rb

unfoldable pub consume : ReadBuffer → ℕ → Result × ReadBuffer
unfolding rewind
consume rb bytes_consumed =
    if ltb rb.length bytes_consumed
    then (failure out_of_range "consume exceeds readable bytes", rb)
    else (
      success,
      rewind (record rb {
        offset = add_size rb.offset bytes_consumed;
        length = sub_size rb.length bytes_consumed;
      }),
    )

-- ===== src/ReadBuffer/Nullable.antt =====
-- The entry points of readbuffer.c with their test for a NULL buffer.
use sys_programming_explorat.Base.{ℕ, Option, none, some}
use sys_programming_explorat.Libc.{Allocator, Heap}
use sys_programming_explorat.ReadBuffer
use sys_programming_explorat.ReadBuffer.{ReadBuffer, Result, failure, invalid_argument, View}

abbrev null_buffer : Result
null_buffer = failure invalid_argument "read buffer is NULL"

unfoldable pub destroy : Option ReadBuffer → Heap → Heap
destroy none h = h
destroy (some rb) h = ReadBuffer.destroy rb h

unfoldable pub assure : Allocator → Option ReadBuffer → ℕ → Heap → Result × Option ReadBuffer × Heap
assure a none requested_space h = (null_buffer, none, h)
assure a (some rb) requested_space h =
    let (r, rb', h') = ReadBuffer.assure a rb requested_space h in (r, some rb', h')

unfoldable pub get_read_view : Option ReadBuffer → View
get_read_view none = record { cursor = none; size = 0 }
get_read_view (some rb) = ReadBuffer.get_read_view rb

unfoldable pub get_write_cursor : Option ReadBuffer → Option ℕ
get_write_cursor none = none
get_write_cursor (some rb) = ReadBuffer.get_write_cursor rb

unfoldable pub get_write_cursor_limit : Option ReadBuffer → ℕ
get_write_cursor_limit none = 0
get_write_cursor_limit (some rb) = ReadBuffer.get_write_cursor_limit rb

unfoldable pub commit_write : Option ReadBuffer → ℕ → Result × Option ReadBuffer
commit_write none bytes_written = (null_buffer, none)
commit_write (some rb) bytes_written =
    let (r, rb') = ReadBuffer.commit_write rb bytes_written in (r, some rb')

unfoldable pub consume : Option ReadBuffer → ℕ → Result × Option ReadBuffer
consume none bytes_consumed = (null_buffer, none)
consume (some rb) bytes_consumed =
    let (r, rb') = ReadBuffer.consume rb bytes_consumed in (r, some rb')

unfoldable pub capacity : Option ReadBuffer → ℕ
capacity none = 0
capacity (some rb) = rb.capacity

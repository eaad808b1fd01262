-- ===== src/Cat.antt =====
-- cat/cat.c: a file is copied to standard output. open(2), read(2) and write(2) are parameters.
pub mod Copying
mod Tests
use sys_programming_explorat.Base.{
  ℕ, zero, suc, ◌-◌, Bool, true, false, List, [], ◌∷◌, Option, none, some, ℤ, pos, if◌then◌else◌,
}
use sys_programming_explorat.LineStream.{Reading, got, failed, Device}
use sys_programming_explorat.Tail.{Sink, begins_with_dash}
use sys_programming_explorat.Posix.{is_minus_1}

-- PAGE_SIZE - 1
abbrev pub read_size : ℕ
read_size = 4096 - 1

module _ {S Out : Type 0} (read : Device S) (write : Sink Out) (fd : ℤ) where
  -- What follows a read; `again` is the rest of the loop. The result of write is not looked at.
  pub copy_bytes : (S → Out → Option (Bool × S × Out)) → Reading × S → Out → Option (Bool × S × Out)
  copy_bytes again (failed m, s) out = some (false, s, out)
  copy_bytes again (got [], s) out = some (true, s, out)
  copy_bytes again (got (b ∷ bs), s) out = let (_, out') = write (b ∷ bs) out in again s out'

  -- `while (1)`, at most `fuel` rounds. `false`: the process ended in err_exit.
  unfoldable pub copy_loop : ℕ → S → Out → Option (Bool × S × Out)
  unfolding copy_bytes
  copy_loop zero s out = none
  copy_loop (suc fuel) s out = copy_bytes (copy_loop fuel) (read fd read_size s) out

-- main: with `-` (memcmp compares one byte) standard input is copied, else the file that is opened.
-- `open_path` answers a descriptor and what it reads from; `stdin` is what descriptor 0 reads from.
-- `none` inside is an end before the loop: usage, or err_exit.
unfoldable pub main :
    {S Out : Type 0}
    → Device S
    → Sink Out
    → (List ℕ → ℤ × S)
    → S
    → ℕ
    → List (List ℕ)
    → Out
    → Option (Option (Bool × S × Out))
main read write open_path stdin fuel (program ∷ path ∷ more) out =
    let (read_file_fd, s) = if begins_with_dash path then (pos 0, stdin) else open_path path in
    if is_minus_1 read_file_fd
    then some none
    else elim (copy_loop read write read_file_fd fuel s out) [
      | none ↦ none
      | some ended ↦ some (some ended)
    ]
main read write open_path stdin fuel argv out = some none

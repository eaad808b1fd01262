-- ===== src/Tail.antt =====
-- tail/tail.c: what a follower of a file does once the file has grown. read(2) on the file and
-- write(2) on standard output are parameters.
pub mod Copying
pub mod ReadAll
pub mod Following
mod Tests
use sys_programming_explorat.Base.{
  ℕ, zero, suc, Bool, true, false, List, [], ◌∷◌, Option, none, some, ℤ, pos, negsuc, drop, ltb,
  ◌==◌, if◌then◌else◌, not, ◌||◌,
}
use sys_programming_explorat.Posix.{is_negative}
use sys_programming_explorat.LineStream.{Reading, got, failed, Device}

-- write(2) on standard output: how many bytes it took, `none` for -1.
abbrev pub Sink : Type 0 → Type 0
Sink Out = List ℕ → Out → Option ℕ × Out

-- PAGE_SIZE
abbrev pub page_size : ℕ
page_size = 4096

module _ {Out : Type 0} (write : Sink Out) where
  -- What follows a write; `again` is the rest of the loop.
  pub after_write :
      (List ℕ → Out → Option (Bool × Out)) → List ℕ → Option ℕ × Out → Option (Bool × Out)
  after_write again bytes (none, out) = some (false, out)
  after_write again bytes (some res, out) = again (drop res bytes) out

  -- The loop on the bytes from `buf + bytes_written` on, at most `fuel` rounds. `false`: the
  -- process ended in err_exit. `none`: the fuel was not enough.
  unfoldable pub defensive_write : ℕ → List ℕ → Out → Option (Bool × Out)
  unfolding after_write
  defensive_write fuel [] out = some (true, out)
  defensive_write zero (b ∷ bs) out = none
  defensive_write (suc fuel) (b ∷ bs) out =
      after_write (defensive_write fuel) (b ∷ bs) (write (b ∷ bs) out)

  module _ {S : Type 0} (read : Device S) (fd : ℤ) where
    -- What follows the writing of what was read.
    pub after_page :
        (S → Out → Option (Bool × S × Out)) → S → Option (Bool × Out) → Option (Bool × S × Out)
    after_page again s none = none
    after_page again s (some (false, out)) = some (false, s, out)
    after_page again s (some (true, out)) = again s out

    -- What follows a read; `again` is the rest of the loop.
    pub write_bytes :
        (S → Out → Option (Bool × S × Out)) → Reading × S → Out → Option (Bool × S × Out)
    write_bytes again (failed m, s) out = some (false, s, out)
    write_bytes again (got [], s) out = some (true, s, out)
    write_bytes again (got (b ∷ bs), s) out =
        after_page again s (defensive_write page_size (b ∷ bs) out)

    -- `while (1)`, at most `fuel` rounds, each with a write of one page at most.
    unfoldable pub write_till_eof : ℕ → S → Out → Option (Bool × S × Out)
    unfolding write_bytes after_page
    write_till_eof zero s out = none
    write_till_eof (suc fuel) s out = write_bytes (write_till_eof fuel) (read fd page_size s) out

-- `memcmp(arg, "-", 1) == 0`; an empty argument has the NUL at its front.
abbrev pub begins_with_dash : List ℕ → Bool
begins_with_dash [] = false
begins_with_dash (c ∷ cs) = c == 45

-- What main needs of the system. `seek_end` and `stat_size` answer `none` for -1, and so does
-- `seek_current`, which is lseek by 0 from the current offset.
pub record Host (S : Type 0) : Type 0 where
  pub inotify_init : ℤ
  pub inotify_add_watch : ℤ → List ℕ → ℤ
  pub open_path : List ℕ → ℤ × S
  pub seek_end : S → Option S
  pub stat_size : S → Option ℕ
  pub seek_current : S → Option ℕ
  pub seek_start : S → S

-- What a read on the inotify descriptor answers: the watch of the event, or `none` for -1; and what
-- others did to the file until then.
abbrev pub Event : Type 0 → Type 0
Event S = Option ℤ × (S → S)

abbrev pub same_watch : ℤ → ℤ → Bool
same_watch (pos n) (pos m) = n == m
same_watch (negsuc n) (negsuc m) = n == m
same_watch (pos n) (negsuc m) = false
same_watch (negsuc n) (pos m) = false

-- `st_size < current_offset`
abbrev pub is_shorter : ℕ → Option ℕ → Bool
is_shorter size none = false
is_shorter size (some current_offset) = ltb size current_offset

module _ {S Out : Type 0} (host : Host S) (read : Device S) (write : Sink Out) where
  -- What follows an event of the watch, up to the end of the round.
  unfoldable pub on_modified : ℤ → ℕ → S → Out → Option (Bool × S × Out)
  on_modified following_file_fd fuel s out = elim (host.stat_size s) [
    | none ↦ some (false, s, out)
    | some st_size ↦
        write_till_eof write read following_file_fd fuel
          (if is_shorter st_size (host.seek_current s) then host.seek_start s else s) out
  ]

  pub after_event :
      (S → Out → Option (Bool × S × Out)) → Option (Bool × S × Out) → Option (Bool × S × Out)
  after_event again none = none
  after_event again (some (false, s, out)) = some (false, s, out)
  after_event again (some (true, s, out)) = again s out

  -- `while (1)`, a round for each event; `true`: it waits for the next one. `fuel` is for each call
  -- of write_till_eof.
  unfoldable pub follow : ℤ → ℤ → ℕ → List (Event S) → S → Out → Option (Bool × S × Out)
  unfolding on_modified after_event
  follow inotify_wd following_file_fd fuel [] s out = some (true, s, out)
  follow inotify_wd following_file_fd fuel ((none, change) ∷ events) s out =
      some (false, change s, out)
  follow inotify_wd following_file_fd fuel ((some wd, change) ∷ events) s out =
      let rest = follow inotify_wd following_file_fd fuel events in
      if same_watch wd inotify_wd
      then after_event rest (on_modified following_file_fd fuel (change s) out)
      else rest (change s) out

  -- From the two descriptors on.
  pub start_following : ℤ → ℕ → List (Event S) → ℤ × S → Out → Option (Option (Bool × S × Out))
  start_following inotify_wd fuel events (following_file_fd, s) out =
      if is_negative following_file_fd then some none else elim (host.seek_end s) [
        | none ↦ some none
        | some s' ↦ elim (follow inotify_wd following_file_fd fuel events s' out) [
          | none ↦ none
          | some ended ↦ some (some ended)
        ]
      ]

  -- `none` inside is an end before the first event: the arguments are not `-f` and a file, or a
  -- call failed. memcmp compares one byte.
  unfoldable pub main : ℕ → List (Event S) → List (List ℕ) → Out → Option (Option (Bool × S × Out))
  unfolding start_following
  main fuel events (program ∷ option ∷ path ∷ more) out =
      let inotify_wd = host.inotify_add_watch host.inotify_init path in
      if not (begins_with_dash option)
        || begins_with_dash path
        || is_negative host.inotify_init
        || is_negative inotify_wd
      then some none
      else start_following inotify_wd fuel events (host.open_path path) out
  main fuel events argv out = some none

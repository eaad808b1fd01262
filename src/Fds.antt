-- ===== src/Fds.antt =====
-- tcp/polling/fds_state.c and fds_state.h: the descriptors that the server polls. `fds` holds the
-- `length` entries in use, at the front of the array of `capacity`.
pub mod Watch
pub mod Storage
use sys_programming_explorat.Base.{
  ℕ, zero, suc, ◌+◌, ◌*◌, List, [], ◌∷◌, ◌++◌, Bool, true, false, ◌||◌, Option, none, some, leb,
  ltb, if◌then◌else◌, length, ℤ, eq_int, complement,
}

-- The bits of `revents` that the server tests.
pub record Events : Type 0 where
  pub pollin : Bool
  pub pollout : Bool
  pub pollerr : Bool
  pub pollhup : Bool
  pub pollrdhup : Bool
  pub pollnval : Bool

abbrev pub no_events : Events
no_events = record {
  pollin = false;
  pollout = false;
  pollerr = false;
  pollhup = false;
  pollrdhup = false;
  pollnval = false;
}

-- `struct pollfd`; `events` is POLLIN | POLLRDHUP in all of them.
pub record Pollfd : Type 0 where
  pub fd : ℤ
  pub revents : Events

pub record Fds : Type 0 where
  pub capacity : ℕ
  pub fds : List Pollfd

-- DEFAULT_FDS_CAPACITY
abbrev pub default_fds_capacity : ℕ
default_fds_capacity = 64 * 1024

-- The loop of `fd_state__watch`: whether an entry is the descriptor's, also one that was negated.
pub is_watched : List Pollfd → ℤ → Bool
is_watched [] fd = false
is_watched (p ∷ ps) fd =
    if eq_int p.fd fd || eq_int p.fd (complement fd) then true else is_watched ps fd

-- `false` is the answer -1.
unfoldable pub watch : Fds → ℤ → Bool × Fds
unfolding is_watched
watch state fd =
    if leb state.capacity (length state.fds)
    then (false, state)
    else if is_watched state.fds fd
    then (true, state)
    else (true, record state { fds = state.fds ++ (record { fd = fd; revents = no_events } ∷ []) })

pub last_or : Pollfd → List Pollfd → Pollfd
last_or p [] = p
last_or p (r ∷ rs) = last_or r rs

pub init_list : Pollfd → List Pollfd → List Pollfd
init_list p [] = []
init_list p (r ∷ rs) = p ∷ init_list r rs

-- `fds[i] = fds[length - 1]; length -= 1`, where entry `i` is the head of the list.
abbrev pub swap_remove : List Pollfd → List Pollfd
swap_remove [] = []
swap_remove (r ∷ rs) = last_or r rs ∷ init_list r rs

-- The first entry of the descriptor gives its place to the last entry.
pub remove_fd : List Pollfd → ℤ → List Pollfd
remove_fd [] fd = []
remove_fd (p ∷ ps) fd = if eq_int p.fd fd then swap_remove ps else p ∷ remove_fd ps fd

-- The answer is always 0.
unfoldable pub unwatch : Fds → ℤ → Fds
unfolding remove_fd last_or init_list
unwatch state fd = record state { fds = remove_fd state.fds fd }

-- sizeof(*fdstate) and sizeof(struct pollfd)
abbrev pub sizeof_fds : ℕ
sizeof_fds = 24

abbrev pub sizeof_pollfd : ℕ
sizeof_pollfd = 8

unfoldable pub empty : Fds
empty = record { capacity = default_fds_capacity; fds = [] }

-- `none` is err_exit, where one of the two blocks is denied.
unfoldable pub init : {Mem : Type 0} → (ℕ → Mem → Bool × Mem) → (Mem → Mem) → Mem → Option Fds × Mem
init malloc free mem =
    let (granted, mem') = malloc sizeof_fds mem in
    let (array_granted, mem'') = malloc (sizeof_pollfd * default_fds_capacity) mem' in
    if granted
    then if array_granted then (some empty, mem'') else (none, free mem'')
    else (none, mem')

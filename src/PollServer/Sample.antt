-- ===== src/PollServer/Sample.antt =====
-- For tests: a memory and a network.
use sys_programming_explorat.Base.{ℕ, ◌+◌, List, [], ◌∷◌, map, true, some, pos, length}
use sys_programming_explorat.MessageQueue.{Memory}
use sys_programming_explorat.Fds.{no_events, Pollfd}
use sys_programming_explorat.PollServer.{Network, got}

-- Strings as their bytes, and a memory that never runs out.
abbrev pub plain : Memory (List ℕ) ℕ
plain = record {
  sdsnewlen = λ bs n. (some bs, n + 1);
  sdsdup = λ s n. (some s, n + 1);
  sdsfree = λ s n. n;
  text = λ s. s;
  malloc = λ size n. (true, n);
  free = λ n. n;
}

abbrev pub readable : Pollfd → Pollfd
readable p = record p { revents = record no_events { pollin = true } }

-- A network on which every descriptor is always readable and a read answers one byte. It counts
-- the connections it has accepted, and numbers them from 10.
abbrev pub busy : Network ℕ
busy = record {
  read = λ fd size k. (got (65 ∷ []), k);
  write = λ fd bs k. (some (length bs), k);
  close = λ fd k. k;
  accept = λ fd k. (pos (10 + k), k + 1);
  ppoll = λ fds k. (some (map readable fds), k);
}

-- ===== src/PollServer/Delivery/Wire.antt =====
-- For tests: a network that keeps a log of what was written on each descriptor.
use sys_programming_explorat.Base.{
  ℕ, zero, suc, ◌+◌, ◌≡◌, ◌≢◌, refl, ap, subst, List, [], ◌∷◌, ◌++◌, map, Bool, true, false, some,
  arith, ltb, ◌==◌, if◌then◌else◌, length, ℤ, pos, negsuc, eq_int, eq_int_iff,
}
use sys_programming_explorat.MessageQueue.Clients.{ne-eq_int}
use sys_programming_explorat.Fds.{Pollfd}
use sys_programming_explorat.Fds.Watch.{fds_of}
use sys_programming_explorat.PollServer.{Network, Received, got, read_error}
use sys_programming_explorat.PollServer.Sample.{plain, readable}
use sys_programming_explorat.PollServer.Sound.{ReadsWithin}
use sys_programming_explorat.PollServer.Table.Progress.{PollsQuietly}
use sys_programming_explorat.PollServer.Delivery.Heard.{Hears, IsHearing, KeepsTexts}
use sys_programming_explorat.PollServer.Delivery.{IsNetwork, Kept, Same}

-- The next connection's number; of the numbers below it, those that are open; and for each
-- descriptor what was written on it; and what was read.
pub record Wire : Type 0 where
  pub next : ℕ
  pub opened : ℕ → Bool
  pub log : ℤ → List (List ℕ)
  pub heard : List (List ℕ)

abbrev pub log_of : ℤ → Wire → List (List ℕ)
log_of fd w = w.log fd

abbrev pub heard_of : Wire → List (List ℕ)
heard_of w = w.heard

abbrev pub is_up : ℤ → Wire → Bool
is_up (pos k) w = if ltb k w.next then w.opened k else false
is_up (negsuc k) w = false

-- A peer sends the number of its descriptor.
abbrev read_wire : ℤ → ℕ → Wire → Received × Wire
read_wire fd zero w = (got [], w)
read_wire (pos k) (suc size) w = (got (k ∷ []), record w { heard = w.heard ++ ((k ∷ []) ∷ []) })
read_wire (negsuc k) (suc size) w = (read_error, w)

-- Every descriptor is always readable, and a write takes everything.
abbrev pub wired : Network Wire
wired = record {
  read = read_wire;
  write = λ fd bs w. (
    some (length bs),
    record w { log = λ x. if eq_int x fd then w.log x ++ (bs ∷ []) else w.log x },
  );
  close = λ fd w. record w { opened = λ k. if eq_int (pos k) fd then false else w.opened k };
  accept = λ fd w. (
    pos w.next,
    record w {
      next = w.next + 1;
      opened = λ k. if k == w.next then true else w.opened k;
      log = λ x. if eq_int x (pos w.next) then [] else w.log x;
    },
  );
  ppoll = λ fds w. (some (map readable fds), w);
}

readable-fds : (fds : List Pollfd) → fds_of (map readable fds) ≡ fds_of fds
readable-fds [] = refl
readable-fds (p ∷ fds) = ap (λ l. p.fd ∷ l) (readable-fds fds)

write_others :
    (fd : ℤ) (bs : List ℕ) (w : Wire) (x : ℤ)
    → x ≢ fd
    → Kept log_of is_up w (wired.write fd bs w).1 x
write_others fd bs w (pos k) other = rw (ne-eq_int (pos k) fd other) (refl, refl)
write_others fd bs w (negsuc k) other = rw (ne-eq_int (negsuc k) fd other) (refl, refl)

still_up : (fd : ℤ) (bs : List ℕ) (w : Wire) → is_up fd (wired.write fd bs w).1 ≡ is_up fd w
still_up (pos k) bs w = refl
still_up (negsuc k) bs w = refl

close_others : (fd : ℤ) (w : Wire) (x : ℤ) → x ≢ fd → Kept log_of is_up w (wired.close fd w) x
close_others fd w (pos k) other = rw (ne-eq_int (pos k) fd other) (refl, refl)
close_others fd w (negsuc k) other = (refl, refl)

accept_others :
    (fd : ℤ) (w : Wire) (x : ℤ) → x ≢ pos w.next → Kept log_of is_up w (wired.accept fd w).1 x
accept_others fd w (pos k) other =
    let apart : k ≢ w.next = λ e. other (ap pos e) in
    (rw (ne-eq_int (pos k) (pos w.next) other) refl, ground (arith, apart))
accept_others fd w (negsuc k) other = rw (ne-eq_int (negsuc k) (pos w.next) other) (refl, refl)

read_wire-Same : (fd : ℤ) (size : ℕ) (w : Wire) → Same log_of is_up w (read_wire fd size w).1
read_wire-Same fd zero w (pos x) = (refl, refl)
read_wire-Same fd zero w (negsuc x) = (refl, refl)
read_wire-Same (pos k) (suc size) w (pos x) = (refl, refl)
read_wire-Same (pos k) (suc size) w (negsuc x) = (refl, refl)
read_wire-Same (negsuc k) (suc size) w (pos x) = (refl, refl)
read_wire-Same (negsuc k) (suc size) w (negsuc x) = (refl, refl)

pub wired-IsNetwork : IsNetwork log_of is_up wired
wired-IsNetwork = record {
  reads = read_wire-Same;
  writes = λ fd bs w. (rw ((eq_int_iff fd fd).1 refl) refl, still_up fd bs w, write_others fd bs w);
  closes = close_others;
  accepts = λ fd w. (ground arith, ground arith, ground arith, accept_others fd w);
  polls = λ fds w x. (refl, refl);
  keeps_fds = λ fds fds' w run.
      let same : map readable fds ≡ fds' = grind (arith, run) in
      subst (λ ps. fds_of ps ≡ fds_of fds) same (readable-fds fds);
  signed = λ k w. refl;
}

read_wire-Hears : (fd : ℤ) (size : ℕ) (w : Wire) → Hears heard_of w (read_wire fd size w)
read_wire-Hears fd zero w = refl
read_wire-Hears (pos k) (suc size) w = refl
read_wire-Hears (negsuc k) (suc size) w = refl

pub wired-IsHearing : IsHearing heard_of wired
wired-IsHearing = record {
  reads = read_wire-Hears;
  writes = λ fd bs w. refl;
  closes = λ fd w. refl;
  accepts = λ fd w. refl;
  polls = λ fds w. refl;
}

pub wired-ReadsWithin : ReadsWithin plain wired
wired-ReadsWithin fd zero w = omega arith
wired-ReadsWithin (pos k) (suc size) w = omega arith
wired-ReadsWithin (negsuc k) (suc size) w = tt

pub plain-KeepsTexts : KeepsTexts plain
plain-KeepsTexts bs mem = (bs, refl, refl)

pub wired-PollsQuietly : PollsQuietly wired
wired-PollsQuietly [] w = tt
wired-PollsQuietly (p ∷ ps) w = refl

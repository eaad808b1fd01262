-- ===== src/PollServer/Table/Rounds.antt =====
-- Whole rounds and the table.
use mathlib.Core.List.{Mem, Nodup, Nodup-cons, mem-cons_self, mem-cons_of_mem}
use sys_programming_explorat.Base.{
  ℕ, zero, suc, ◌≤◌, ◌≡◌, ◌≢◌, inl, inr, sym, ap, subst, ◌∙◌, List, [], ◌∷◌, Bool, true, Option,
  none, some, arith, length, length-map, ℤ, get_elem?, Bool-cases, eq_int, eq_int_iff,
}
use sys_programming_explorat.MessageQueue
use sys_programming_explorat.MessageQueue.Nullable
use sys_programming_explorat.MessageQueue.{MessageQueue, Memory, Client, Status}
use sys_programming_explorat.MessageQueue.Clients.{Each, eq_int-ne}
use sys_programming_explorat.MessageQueue.Keeps.{EachAfter, flush-EachAfter}
use sys_programming_explorat.MessageQueue.Writes.{HoldsAfter, flush_holds}
use sys_programming_explorat.Fds.{Fds, Pollfd}
use sys_programming_explorat.Fds.Watch.{fds_of}
use sys_programming_explorat.PollServer.{Network, Server, continues, serve}
use sys_programming_explorat.PollServer.Invariants.{IsInvariant, serve-invariant}
use sys_programming_explorat.PollServer.Delivery.{Takes, IsNetwork}
use sys_programming_explorat.PollServer.Table.{clients_of, IsListed}
use sys_programming_explorat.PollServer.Table.Operations.{Table}
use sys_programming_explorat.PollServer.Table.Handlers.{
  TableIn, handle_client_event-TableIn, handle_server_event-TableIn,
}

get_elem?-Mem :
    (ps : List Pollfd) (i : ℕ) (p : Pollfd) → get_elem? ps i ≡ some p → Mem p.fd (fds_of ps)
get_elem?-Mem [] i p at = cc at
get_elem?-Mem (q ∷ qs) zero p at =
    let same : q ≡ p = grind (arith, at) in
    subst (λ r. Mem r.fd (fds_of (q ∷ qs))) same mem-cons_self
get_elem?-Mem (q ∷ qs) (suc i) p at = mem-cons_of_mem q.fd (get_elem?-Mem qs i p at)

-- Where no descriptor is there twice, an entry behind the first is another one's.
behind_first :
    (ps : List Pollfd) (i : ℕ) (p : Pollfd) (server_fd : ℤ) (rest : List ℤ)
    → fds_of ps ≡ server_fd ∷ rest
    → Nodup (fds_of ps)
    → get_elem? ps (suc i) ≡ some p
    → server_fd ≢ p.fd
behind_first [] i p server_fd rest head distinct at = cc at
behind_first (q ∷ qs) i p server_fd rest head distinct at = λ e.
    let first : q.fd ≡ server_fd = grind (arith, head) in
    (Nodup-cons.0 distinct).0
      (subst (λ x. Mem x (fds_of qs)) (sym (first ∙ e)) (get_elem?-Mem qs i p at))

length_of_names : (ps qs : List Pollfd) → fds_of ps ≡ fds_of qs → length qs ≡ length ps
length_of_names ps qs e =
    sym (length-map (λ (p : Pollfd). p.fd) qs)
    ∙ ap length (sym e)
    ∙ length-map (λ (p : Pollfd). p.fd) ps

module _ {Str Heap Net : Type 0} (m : Memory Str Heap) (n : Network Net)
    (handed : ℤ → Net → List (List ℕ)) (is_open : ℤ → Net → Bool) (law : IsNetwork handed is_open n)
    (server_fd : ℤ) where
  abbrev Good : Server Str Heap Net → Type 0
  Good = TableIn m n handed is_open law server_fd

  Takes-open :
      (x fd : ℤ) (bs : List ℕ) (net : Net) (r : Option ℕ × Net)
      → Takes handed is_open fd bs net r
      → is_open x r.1 ≡ is_open x net
  Takes-open x fd bs net (none, net') same = (same x).1
  Takes-open x fd bs net (some k, net') (put, open_still, but) = elim (Bool-cases (eq_int x fd)) [
    | inl e ↦
        let same : x ≡ fd = (eq_int_iff x fd).0 e in
        subst (λ y. is_open y net' ≡ is_open y net) (sym same) open_still
    | inr e ↦ (but x (eq_int-ne x fd e)).1
  ]

  write_open :
      (x fd : ℤ) (bs : List ℕ) (net : Net) → is_open x (n.write fd bs net).1 ≡ is_open x net
  write_open x fd bs net = Takes-open x fd bs net (n.write fd bs net) (law.writes fd bs net)

  abbrev IsLive : List ℤ → Net → Type 0
  IsLive names net = (x : ℤ) → Mem x names → is_open x net ≡ true

  write-IsLive :
      (names : List ℤ) (fd : ℤ) (bs : List ℕ) (net : Net)
      → IsLive names net
      → IsLive names (n.write fd bs net).1
  write-IsLive names fd bs net live = λ x there. write_open x fd bs net ∙ live x there

  abbrev ListedAfter : List ℤ → Option (Status × Option (MessageQueue Str) × Net) → Type 0
  ListedAfter names none = Unit {0}
  ListedAfter names (some (status, o, net)) = Each (IsListed server_fd names) (clients_of o)

  put_listed :
      (names : List ℤ) (r : Option (Status × MessageQueue Str × Net))
      → EachAfter m n.write (IsListed server_fd names) (λ c roff h. h) r
      → ListedAfter names
          (elim r [ none ↦ none | some (status, mq, net) ↦ some (status, some mq, net) ])
  put_listed names none all = tt
  put_listed names (some (status, mq, net)) all = all

  flush-ListedAfter :
      (names : List ℤ) (o : Option (MessageQueue Str)) (fd : ℤ) (net : Net)
      → Each (IsListed server_fd names) (clients_of o)
      → ListedAfter names (Nullable.flush m n.write o fd net)
  unfolding Nullable.flush
  flush-ListedAfter names none fd net all = tt
  flush-ListedAfter names (some mq) fd net all =
      put_listed names (MessageQueue.flush m n.write mq fd net)
        (flush-EachAfter m n.write (IsListed server_fd names) (λ c roff h. h) mq fd net all)

  flush-TableIn :
      (o o' : Option (MessageQueue Str)) (fd : ℤ) (state : Fds) (net net' : Net) (status : Status)
      → Table m n handed is_open law server_fd net state (clients_of o)
      → Nullable.flush m n.write o fd net ≡ some (status, o', net')
      → Table m n handed is_open law server_fd net' state (clients_of o')
  flush-TableIn o o' fd state net net' status t at =
      let names = fds_of state.fds in
      record {
        rest = t.rest;
        head = t.head;
        distinct = t.distinct;
        fits = t.fits;
        live =
            subst (HoldsAfter m n.write (IsLive names) (write-IsLive names)) at
              (flush_holds m n.write (IsLive names) (write-IsLive names) o fd net t.live);
        listed = subst (ListedAfter names) at (flush-ListedAfter names o fd net t.listed);
      }

  polled-TableIn :
      (s : Server Str Heap Net) (fds : List Pollfd)
      → Good s
      → (n.ppoll s.fdstate.fds s.net).0 ≡ some fds
      → Good (record s {
        fdstate = record s.fdstate { fds = fds };
        net = (n.ppoll s.fdstate.fds s.net).1;
      })
  polled-TableIn s fds t at =
      let names = law.keeps_fds s.fdstate.fds fds s.net at in
      record {
        rest = t.rest;
        head = names ∙ t.head;
        distinct = subst Nodup (sym names) t.distinct;
        fits = subst (λ k. k ≤ s.fdstate.capacity) (length_of_names fds s.fdstate.fds names) t.fits;
        live =
            λ x there. (law.polls s.fdstate.fds s.net x).1 ∙ t.live x (subst (Mem x) names there);
        listed = subst (λ l. Each (IsListed server_fd l) (clients_of s.mq)) (sym names) t.listed;
      }

  TableIn-IsInvariant : IsInvariant m n Good
  TableIn-IsInvariant = record {
    polls = polled-TableIn;
    accepts = handle_server_event-TableIn m n handed is_open law server_fd;
    handles = λ i event s good at.
        handle_client_event-TableIn m n handed is_open law server_fd event s
          (behind_first s.fdstate.fds i event server_fd good.rest good.head good.distinct at) good;
    flushes =
        λ s fd status mq net good at. flush-TableIn s.mq mq fd s.fdstate s.net net status good at;
  }

  pub serve-TableIn :
      (rounds : ℕ) (s s' : Server Str Heap Net)
      → Good s
      → serve m n rounds s ≡ continues s'
      → Good s'
  serve-TableIn = serve-invariant m n Good TableIn-IsInvariant

-- ===== src/PollServer/Table/Operations.antt =====
-- The calls that the handlers make, and the table.
use mathlib.Core.List.{Mem, mem-append, mem-append_left, mem-cons_self}
use mathlib.Core.Logic.Or
use sys_programming_explorat.Base.{
  ℕ, ◌≡◌, ◌≢◌, inl, inr, sym, ap, subst, ◌∙◌, List, [], ◌∷◌, ◌++◌, Bool, true, false, Option, none,
  some, arith, ℤ, pos, negsuc, complement, eq_int, eq_int_iff, Bool-cases,
}
use sys_programming_explorat.MessageQueue
use sys_programming_explorat.MessageQueue.Nullable
use sys_programming_explorat.MessageQueue.{
  MessageQueue, Memory, Client, Status, first_offset, remove_client,
}
use sys_programming_explorat.MessageQueue.Flush.{NoClient}
use sys_programming_explorat.MessageQueue.Clients.{
  eq_int-ne, Each, Each-map, Each-map_but, Each-remove_client,
}
use sys_programming_explorat.MessageQueue.Keeps.{register_client-clients}
use sys_programming_explorat.Fds.{Fds, watch, unwatch}
use sys_programming_explorat.Fds.Watch.{
  mem-snoc, unwatch-fits, watch-capacity, fds_of, watch_cases, unwatch-mem, unwatch-head,
  is_watched-mem,
}
use sys_programming_explorat.PollServer.{Network}
use sys_programming_explorat.PollServer.Delivery.{Same, SameBut, Accepts, IsNetwork}
use sys_programming_explorat.PollServer.Table.{clients_of, IsListed, IsTable}

module _ {Str Heap Net : Type 0} (m : Memory Str Heap) (n : Network Net)
    (handed : ℤ → Net → List (List ℕ)) (is_open : ℤ → Net → Bool) (law : IsNetwork handed is_open n)
    (server_fd : ℤ) where
  abbrev pub Table : Net → Fds → List Client → Type 0
  Table net state cs = IsTable server_fd (λ x. is_open x net) state cs

  pub Table-Same :
      (net net' : Net) (state : Fds) (cs : List Client)
      → Same handed is_open net net'
      → Table net state cs
      → Table net' state cs
  Table-Same net net' state cs same t = record {
    rest = t.rest;
    head = t.head;
    distinct = t.distinct;
    fits = t.fits;
    live = λ x there. (same x).1 ∙ t.live x there;
    listed = t.listed;
  }

  pub Table-clients :
      (net : Net) (state : Fds) (cs cs' : List Client)
      → Table net state cs
      → Each (IsListed server_fd (fds_of state.fds)) cs'
      → Table net state cs'
  Table-clients net state cs cs' t all = record {
    rest = t.rest;
    head = t.head;
    distinct = t.distinct;
    fits = t.fits;
    live = t.live;
    listed = all;
  }

  -- The clients behind `unregister_client`.
  unregister_client-clients :
      (names : List ℤ) (o : Option (MessageQueue Str)) (fd : ℤ) (mem : Heap)
      → Each (IsListed server_fd names) (clients_of o)
      → let cs' = clients_of (Nullable.unregister_client m o fd mem).1 in
        Each (IsListed server_fd names) cs' × NoClient fd cs'
  unfolding Nullable.unregister_client MessageQueue.unregister_client
  unregister_client-clients names none fd mem all = (tt, tt)
  unregister_client-clients names (some mq) fd mem all =
      elim (Each-remove_client (IsListed server_fd names) fd mq.clients all) [
        | inl (none_there, apart) ↦ ground (arith, all, apart, none_there)
        | inr (rest, removed, kept, gone) ↦ ground (arith, kept, gone, removed)
      ]

  -- A descriptor that is taken out and closed.
  pub Table-disconnect :
      (net net' : Net) (state : Fds) (o : Option (MessageQueue Str)) (fd : ℤ) (mem : Heap)
      → server_fd ≢ fd
      → SameBut handed is_open fd net net'
      → Table net state (clients_of o)
      → Table net' (unwatch state fd) (clients_of (Nullable.unregister_client m o fd mem).1)
  Table-disconnect net net' state o fd mem other but t =
      let (gone, distinct, stays) = unwatch-mem state fd server_fd t.distinct other in
      let (rest', head') = unwatch-head state server_fd fd t.rest t.head other in
      let (kept, apart) = unregister_client-clients (fds_of state.fds) o fd mem t.listed in
      record {
        rest = rest';
        head = head';
        distinct = distinct;
        fits = unwatch-fits state fd t.fits;
        live = λ x there.
            let differs : x ≢ fd =
              λ e. gone (subst (λ y. Mem y (fds_of (unwatch state fd).fds)) e there) in
            let (gone', distinct', stays') = unwatch-mem state fd x t.distinct differs in
            (but x differs).1 ∙ t.live x (stays'.1 there);
        listed =
            Each-map_but (IsListed server_fd (fds_of state.fds))
              (IsListed server_fd (fds_of (unwatch state fd).fds)) fd
              (clients_of (Nullable.unregister_client m o fd mem).1)
              (λ c differs (there, own).
                let (gone', distinct', stays') = unwatch-mem state fd c.fd t.distinct differs in
                (stays'.0 there, own))
              apart kept;
      }

  complement-closed :
      (net : Net) (fd : ℤ) → is_open fd net ≡ true → is_open (complement fd) net ≡ false
  complement-closed net (pos k) opened = law.signed k net
  complement-closed net (negsuc k) opened = cc (opened, law.signed k net)

  -- Behind accept(2) and `watch`.
  pub Table-watch :
      (net net' : Net) (state : Fds) (cs : List Client) (fd : ℤ)
      → Accepts handed is_open net (fd, net')
      → Table net state cs
      → Table net' (watch state fd).1 cs
        × ((watch state fd).0 ≡ true → Mem fd (fds_of (watch state fd).1.fds))
  Table-watch net net' state cs fd (fresh, opened, empty, but) t =
      let names = fds_of state.fds in
      let old : (x : ℤ) → Mem x names → x ≢ fd = λ x there e. cc (t.live x there, fresh, e) in
      let live : (x : ℤ) → Mem x names → is_open x net' ≡ true =
        λ x there. (but x (old x there)).1 ∙ t.live x there in
      let (distinct, which) = watch_cases state fd t.distinct in
      elim which [
        | inl (refused, same, full) ↦ (
          subst (λ st. Table net' st cs) (sym same)
              (record {
                rest = t.rest;
                head = t.head;
                distinct = t.distinct;
                fits = t.fits;
                live = live;
                listed = t.listed;
              }),
          λ accepted. cc (accepted, refused),
        )
        | inr (inl (accepted, same, known)) ↦
            let (x, there, which) = is_watched-mem state.fds fd known in
            absurd (elim which [
              | inl e ↦ old x there e
              | inr e ↦
                  let closed = complement-closed net' fd opened in
                  cc (live x there, closed, ap (λ y. is_open y net') e)
            ])
        | inr (inr (accepted, more, absent, room)) ↦ (
          record {
            rest = t.rest ++ (fd ∷ []);
            head = more ∙ ap (λ l. l ++ (fd ∷ [])) t.head;
            distinct = distinct;
            fits = omega (arith, room, watch-capacity state fd);
            live = λ x there. elim (Bool-cases (eq_int x fd)) [
              | inl e ↦ ap (λ y. is_open y net') ((eq_int_iff x fd).0 e) ∙ opened
              | inr e ↦ live x (mem-snoc names x fd (eq_int-ne x fd e) (subst (Mem x) more there))
            ];
            listed =
                Each-map (IsListed server_fd names)
                  (IsListed server_fd (fds_of (watch state fd).1.fds)) cs
                  (λ c (there, own).
                    (subst (Mem c.fd) (sym more) (mem-append_left (fd ∷ []) there), own))
                  t.listed;
          },
          λ e. subst (Mem fd) (sym more) (mem-append.1 (Or.inr mem-cons_self)),
        )
      ]

  abbrev pub Joins : List ℤ → Option (MessageQueue Str) → ℤ → Heap → Type 0
  Joins names o fd mem =
      Each (IsListed server_fd names) (clients_of (Nullable.register_client m o fd mem).1)

  pub register_client-Joins :
      (names : List ℤ) (o : Option (MessageQueue Str)) (fd : ℤ) (mem : Heap)
      → Mem fd names
      → fd ≢ server_fd
      → NoClient fd (clients_of o)
      → Each (IsListed server_fd names) (clients_of o)
      → Joins names o fd mem
  unfolding Nullable.register_client
  register_client-Joins names none fd mem there own apart all = tt
  register_client-Joins names (some mq) fd mem there own apart all =
      elim (register_client-clients m mq fd mem) [
        | inl same ↦ subst (Each (IsListed server_fd names)) (sym same) all
        | inr joined ↦
            subst (Each (IsListed server_fd names)) (sym joined) ((there, own), apart, all)
      ]

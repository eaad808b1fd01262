-- ===== src/PollServer/Table/Start.antt =====
-- The table, from the start of the server on.
use mathlib.Core.List.{Nodup-nil, Nodup-cons, not-mem-nil}
use sys_programming_explorat.Base.{
  some, ℕ, ◌≡◌, inl, inr, refl, sym, ap, subst, ◌∙◌, List, [], Bool, true, arith, ℤ, Option-cases,
  eq_int, eq_int_iff, Bool-cases,
}
use sys_programming_explorat.MessageQueue
use sys_programming_explorat.MessageQueue.{MessageQueue, Memory, Client}
use sys_programming_explorat.MessageQueue.Fifo.{init-fresh}
use sys_programming_explorat.MessageQueue.Clients.{eq_int-ne}
use sys_programming_explorat.Fds
use sys_programming_explorat.Fds.{Fds, Pollfd, watch, default_fds_capacity, no_events}
use sys_programming_explorat.Fds.Watch.{watch-first, mem-snoc}
use sys_programming_explorat.PollServer.{
  Network, Server, continues, start, serve, max_num_of_clients,
}
use sys_programming_explorat.PollServer.Ready.{IsReady, start-IsReady}
use sys_programming_explorat.PollServer.Delivery.{IsNetwork}
use sys_programming_explorat.PollServer.Table.{clients_of, IsTable, TableOf}
use sys_programming_explorat.PollServer.Table.Handlers.{TableIn}
use sys_programming_explorat.PollServer.Table.Rounds.{serve-TableIn}

first-IsTable :
    (server_fd : ℤ) (is_live : ℤ → Bool)
    → is_live server_fd ≡ true
    → IsTable server_fd is_live (watch Fds.empty server_fd).1 []
first-IsTable server_fd is_live live =
    subst (λ st. IsTable server_fd is_live st []) (sym (ap (λ r. r.1) (watch-first server_fd)))
      (record {
        rest = [];
        head = refl;
        distinct = Nodup-cons.1 (not-mem-nil, Nodup-nil);
        fits = omega arith;
        live = λ x there. elim (Bool-cases (eq_int x server_fd)) [
          | inl e ↦ ap is_live ((eq_int_iff x server_fd).0 e) ∙ live
          | inr e ↦ absurd (not-mem-nil (mem-snoc [] x server_fd (eq_int-ne x server_fd e) there))
        ];
        listed = tt;
      })

module _ {Str Heap : Type 0} (m : Memory Str Heap) where
  init-clients : (capacity : ℕ) (mem : Heap) → clients_of (MessageQueue.init m capacity mem).0 ≡ []
  init-clients capacity mem = elim (Option-cases (MessageQueue.init m capacity mem).0) [
    | inl e ↦ ap clients_of e
    | inr (mq, e) ↦
        let (positive, same) =
          init-fresh m capacity mem (MessageQueue.init m capacity mem).1 mq
            (ap (λ o. (o, (MessageQueue.init m capacity mem).1)) e) in
        ap clients_of e ∙ ap (λ r. r.clients) (sym same)
  ]

module _ {Str Heap Net : Type 0} (m : Memory Str Heap) (n : Network Net)
    (handed : ℤ → Net → List (List ℕ)) (is_open : ℤ → Net → Bool)
    (law : IsNetwork handed is_open n) where
  pub start-TableIn :
      (server_fd : ℤ) (mem : Heap) (net : Net) (s : Server Str Heap Net)
      → is_open server_fd net ≡ true
      → IsReady m n server_fd mem net s
      → TableIn m n handed is_open law server_fd s
  start-TableIn server_fd mem net s live ready =
      subst (λ w. IsTable server_fd (λ x. is_open x w) s.fdstate (clients_of s.mq)) ready.net_kept
        (subst (λ f. IsTable server_fd (λ x. is_open x net) f (clients_of s.mq)) ready.fdstate
          (subst (IsTable server_fd (λ x. is_open x net) (watch Fds.empty server_fd).1)
            (sym (init-clients m max_num_of_clients mem) ∙ ap clients_of ready.mq)
            (first-IsTable server_fd (λ x. is_open x net) live)))

  -- Behind any number of rounds of the server, from a start on that was granted its
  -- blocks, with an open listening descriptor:
  -- the polled descriptors are the listening one and behind it others, all open, none of them
  -- twice, and no more than the capacity; and every client of the queue has one of the others, of
  -- its own. Assumed of the network: accept(2) does not fail and answers a descriptor that is not
  -- open, only close(2) closes one, and ppoll(2) keeps the descriptors.
  pub serve-IsTable :
      (rounds : ℕ) (server_fd : ℤ) (mem : Heap) (net : Net) (watched : Bool)
      (first s : Server Str Heap Net)
      → is_open server_fd net ≡ true
      → start m n server_fd mem net ≡ some (watched, first)
      → serve m n rounds first ≡ continues s
      → TableOf is_open server_fd s
  serve-IsTable rounds server_fd mem net watched first s live started run =
      serve-TableIn m n handed is_open law server_fd rounds first s
        (start-TableIn server_fd mem net first live
          (start-IsReady m n server_fd mem net watched first started).0)
        run

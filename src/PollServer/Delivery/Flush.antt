-- ===== src/PollServer/Delivery/Flush.antt =====
-- message_queue__flush on a queue with room: whom it brings up to the end of the messages.
use native.Mathlib.Nat.{mod-eq_of_lt}
use native.Mathlib.Decide.{dec_lt}
use sys_programming_explorat.Base.{
  ℕ, ◌+◌, ◌%◌, ◌≤◌, ◌<◌, ◌≡◌, ◌≢◌, ◌⊎◌, inl, inr, refl, sym, ap, subst, ◌∙◌, List, [], ◌∷◌, ◌++◌,
  Bool, true, false, Option, none, some, arith, length, drop, ℤ, eq_int, Option-cases,
}
use sys_programming_explorat.MessageQueue.{MessageQueue, Memory, Client, Status, get_length, flush}
use sys_programming_explorat.MessageQueue.Window.{window}
use sys_programming_explorat.MessageQueue.Validity.{AllSome, waiting}
use sys_programming_explorat.MessageQueue.Flush.{
  NoClient, status_of, send_all, send_all-taken, lag, flush-send_all,
}
use sys_programming_explorat.MessageQueue.Clients.{Each-at, NoClient-after, IsFirst, find-IsFirst}
use sys_programming_explorat.PollServer.{Network}
use sys_programming_explorat.PollServer.Delivery.{
  IsNetwork, IsClient, AllClients, posted, Delivered,
}
use sys_programming_explorat.PollServer.Delivery.Clients.{AllClients-replace}
use sys_programming_explorat.PollServer.Delivery.Queue.{Delivered-clients}
use sys_programming_explorat.PollServer.Delivery.Sending.{
  AllSome-drop, send_all-Handed, length-posted, ahead, moved_on,
}
use sys_programming_explorat.MessageQueue.Flush.{flush_empty, flush_stranger}

module _ {Str Mem Net : Type 0} (m : Memory Str Mem) (n : Network Net)
    (handed : ℤ → Net → List (List ℕ)) (is_open : ℤ → Net → Bool)
    (law : IsNetwork handed is_open n) where
  -- Writes on the descriptor are not refused.
  abbrev pub IsHealthy : ℤ → Type 0
  IsHealthy fd = (bs : List ℕ) (net : Net) → (n.write fd bs net).0 ≢ none

  send_all_healthy :
      (fd : ℤ) (os : List (Option Str)) (net : Net)
      → IsHealthy fd
      → AllSome os
      → (send_all m n.write fd os net).0 ≡ true
  unfolding send_all
  send_all_healthy fd [] net healthy all = refl
  send_all_healthy fd (none ∷ os) net healthy all = absurd all
  send_all_healthy fd (some s ∷ os) net healthy all =
      elim (Option-cases (n.write fd (m.text s) net).0) [
        | inl e ↦ absurd (healthy (m.text s) net e)
        | inr (k, e) ↦
            ap (λ r. r.0) (send_all-taken m n.write fd s os net k e)
            ∙ send_all_healthy fd os (n.write fd (m.text s) net).1 healthy all
      ]

  -- The clients of a descriptor have been handed everything.
  abbrev pub CaughtUp : ℤ → ℕ → List Client → Type 0
  CaughtUp fd end [] = Unit {0}
  CaughtUp fd end (c ∷ cs) = ((eq_int c.fd fd ≡ false) ⊎ (c.roff ≡ end)) × CaughtUp fd end cs

  NoClient-CaughtUp : (fd : ℤ) (end : ℕ) (cs : List Client) → NoClient fd cs → CaughtUp fd end cs
  NoClient-CaughtUp fd end [] apart = tt
  NoClient-CaughtUp fd end (c ∷ cs) (differs, apart) =
      (inl differs, NoClient-CaughtUp fd end cs apart)

  -- Where nothing was queued, nothing is to be handed over.
  empty-CaughtUp :
      (fd : ℤ) (net : Net) (log : List (List ℕ)) (cs : List Client)
      → length log ≡ 0
      → AllClients handed is_open net log cs
      → CaughtUp fd 0 cs
  empty-CaughtUp fd net log [] e all = tt
  empty-CaughtUp fd net log (c ∷ cs) e ((below, got, live), apart, all) =
      (inr (omega arith), empty-CaughtUp fd net log cs e all)

  CaughtUp-replace :
      (fd : ℤ) (end k : ℕ) (before after : List Client) (c : Client)
      → c.roff + k ≤ end
      → CaughtUp fd end (before ++ c ∷ after)
      → CaughtUp fd end (before ++ record c { roff = c.roff + k } ∷ after)
  CaughtUp-replace fd end k [] after c le (inl differs, up) = (inl differs, up)
  CaughtUp-replace fd end k [] after c le (inr there, up) = (inr (omega arith), up)
  CaughtUp-replace fd end k (b ∷ bs) after c le (here, up) =
      (here, CaughtUp-replace fd end k bs after c le up)

  CaughtUp-append :
      (fd : ℤ) (end : ℕ) (before after : List Client)
      → CaughtUp fd end before
      → CaughtUp fd end after
      → CaughtUp fd end (before ++ after)
  CaughtUp-append fd end [] after up up' = up'
  CaughtUp-append fd end (b ∷ bs) after (here, up) up' =
      (here, CaughtUp-append fd end bs after up up')

  -- Behind a flush for `fd` of a delivered queue.
  abbrev pub FlushedFor : ℤ → MessageQueue Str → Option (Status × MessageQueue Str × Net) → Type 0
  FlushedFor fd mq none = ⊥
  FlushedFor fd mq (some (status, mq', net')) =
      Delivered handed is_open m net' mq'
      × (mq'.end ≡ mq.end)
      × ((fd' : ℤ) → CaughtUp fd' mq.end mq.clients → CaughtUp fd' mq.end mq'.clients)
      × (IsHealthy fd → CaughtUp fd mq.end mq'.clients)

  abbrev stopped :
      MessageQueue Str
      → List Client
      → List Client
      → Client
      → ℕ
      → Bool × ℕ × Net
      → Option (Status × MessageQueue Str × Net)
  stopped mq before after c roff (sent, k, net') =
      some
        (status_of sent, record mq { clients = before ++ record c { roff = roff } ∷ after }, net')

  reached :
      (sent : Bool) (roff end : ℕ) → ((sent ≡ false) ⊎ (roff ≡ end)) → sent ≡ true → roff ≡ end
  reached sent roff end (inl e) went = cc (e, went)
  reached sent roff end (inr e) went = e

  flush-one :
      (net : Net) (mq : MessageQueue Str) (fd : ℤ) (before after : List Client) (c : Client)
      → Delivered handed is_open m net mq
      → 0 < get_length mq
      → IsFirst fd mq.clients before after c
      → FlushedFor fd mq (flush m n.write mq fd net)
  flush-one net mq fd before after c d some_wait f =
      let log : List (List ℕ) = posted m mq in
      let all = subst (AllClients handed is_open net log) f.split d.clients in
      let here = Each-at (IsClient handed is_open net log) before after c all in
      let (_, every) = length-posted m n handed is_open law net mq d in
      let os : List (Option Str) = drop c.roff (waiting mq) in
      let run = send_all m n.write c.fd os net in
      let seen : window mq.messages mq.capacity c.roff (lag m n.write mq c.roff) ≡ os =
        ahead m n handed is_open law net mq c.roff d (omega (arith, here.0)) in
      let filled : AllSome os = AllSome-drop c.roff (waiting mq) d.valid.filled in
      let sent_on = send_all-Handed m n handed is_open law c.fd os net filled in
      let (fits, moved, ends) =
        moved_on m n handed is_open law net run.2 mq c run.0 run.1 d here sent_on in
      let c' : Client = record c { roff = c.roff + run.1 } in
      let cs' : List Client = before ++ c' ∷ after in
      let ran : flush m n.write mq fd net
          ≡ some (status_of run.0, record mq { clients = cs' }, run.2) =
        flush-send_all m n.write mq fd before after c net d.valid some_wait f.split f.others f.same
          (omega (arith, here.0, d.valid.end_in))
        ∙ ap
            (λ w.
              stopped mq before after c ((c.roff + (send_all m n.write c.fd w net).1) % mq.capacity)
                (send_all m n.write c.fd w net))
            seen
        ∙ ap (λ r. stopped mq before after c r run)
            (mod-eq_of_lt {n = c.roff + run.1} {m = mq.capacity} (omega (arith, d.valid.end_in))) in
      let others : NoClient c.fd before = subst (λ x. NoClient x before) (sym f.same) f.others in
      subst (FlushedFor fd mq) (sym ran) (
        Delivered-clients m handed is_open net run.2 mq cs' d (
            AllClients-replace handed is_open net run.2 log before after c c' others sent_on.3 refl
              moved all),
        refl,
        (λ fd' up.
            CaughtUp-replace fd' mq.end run.1 before after c fits
              (subst (CaughtUp fd' mq.end) f.split up)),
        (λ healthy.
            CaughtUp-append fd mq.end before (c' ∷ after)
              (NoClient-CaughtUp fd mq.end before f.others)
              (
                inr (
                    reached (run.0) (c.roff + run.1) mq.end ends
                      (send_all_healthy c.fd os net (subst IsHealthy (sym f.same) healthy) filled)),
                NoClient-CaughtUp fd mq.end after (
                    subst (λ x. NoClient x after) f.same
                      (NoClient-after (IsClient handed is_open net log) before after c all)),
              )),
      )

  pub flush-FlushedFor :
      (net : Net) (mq : MessageQueue Str) (fd : ℤ)
      → Delivered handed is_open m net mq
      → FlushedFor fd mq (flush m n.write mq fd net)
  flush-FlushedFor net mq fd d =
      let (all, every) = length-posted m n handed is_open law net mq d in
      elim (dec_lt 0 (get_length mq)) [
        | yes some_wait ↦ elim (find-IsFirst fd mq.clients) [
          | inl apart ↦
              subst (FlushedFor fd mq) (sym (flush_stranger m n.write mq fd net some_wait apart))
                (d, refl, (λ fd' up. up), (λ healthy. NoClient-CaughtUp fd mq.end mq.clients apart))
          | inr (before, c, after, f) ↦ flush-one net mq fd before after c d some_wait f
        ]
        | no nothing ↦
            subst (FlushedFor fd mq) (sym (flush_empty m n.write mq fd net (omega arith))) (
              d,
              refl,
              (λ fd' up. up),
              (λ healthy.
                  subst (λ e. CaughtUp fd e mq.clients) (omega arith)
                    (empty-CaughtUp fd net (posted m mq) mq.clients (omega arith) d.clients)),
            )
      ]

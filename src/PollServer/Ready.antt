-- ===== src/PollServer/Ready.antt =====
-- What a start of the server leaves that was granted its blocks.
use sys_programming_explorat.Base.{
  ◌≡◌, inl, inr, sym, ap, ◌∙◌, Bool, true, Option, none, some, arith, ℤ, ℕ, Option-cases,
}
use sys_programming_explorat.MessageQueue
use sys_programming_explorat.MessageQueue.{Memory, MessageQueue}
use sys_programming_explorat.Fds
use sys_programming_explorat.Fds.{Fds, watch}
use sys_programming_explorat.Fds.Watch.{watch-first}
use sys_programming_explorat.PollServer.{Network, Server, start, max_num_of_clients}

init-empty :
    {Mem : Type 0} (malloc : ℕ → Mem → Bool × Mem) (free : Mem → Mem) (mem : Mem) (made : Fds)
    → (Fds.init malloc free mem).0 ≡ some made
    → Fds.empty ≡ made
unfolding Fds.init
init-empty malloc free mem made e = ground (arith, e)

module _ {Str Mem Net : Type 0} (m : Memory Str Mem) (n : Network Net) where
  pub record IsReady (server_fd : ℤ) (mem : Mem) (net : Net) (s : Server Str Mem Net) : Type 0 where
    pub fdstate : (watch Fds.empty server_fd).1 ≡ s.fdstate
    pub mq : (MessageQueue.init m max_num_of_clients mem).0 ≡ s.mq
    pub net_kept : net ≡ s.net

  pub start-IsReady :
      (server_fd : ℤ) (mem : Mem) (net : Net) (watched : Bool) (s : Server Str Mem Net)
      → start m n server_fd mem net ≡ some (watched, s)
      → IsReady server_fd mem net s × (watched ≡ true)
  unfolding start
  start-IsReady server_fd mem net watched s run =
      let mem' = (MessageQueue.init m max_num_of_clients mem).1 in
      elim (Option-cases (Fds.init m.malloc m.free mem').0) [
        | inl denied ↦ ground (arith, run, denied)
        | inr (made, granted) ↦
            let same : Fds.empty ≡ made = init-empty m.malloc m.free mem' made granted in
            let up = watch made server_fd in
            let both : some (
              up.0,
              record {
                fdstate = up.1;
                mq = (MessageQueue.init m max_num_of_clients mem).0;
                mem = (Fds.init m.malloc m.free mem').1;
                net = net;
              },
            )
                ≡ some (watched, s) =
              grind (arith, run, granted) in
            let back : Option (Bool × Server Str Mem Net) → Bool × Server Str Mem Net =
              λ o. elim o [ none ↦ (watched, s) | some r ↦ r ] in
            let parts = ap back both in
            (
              record {
                fdstate = ap (λ f. (watch f server_fd).1) same ∙ ap (λ r. r.1.fdstate) parts;
                mq = ap (λ r. r.1.mq) parts;
                net_kept = ap (λ r. r.1.net) parts;
              },
              sym (ap (λ r. r.0) parts)
                  ∙ ap (λ f. (watch f server_fd).0) (sym same)
                  ∙ ap (λ r. r.0) (watch-first server_fd),
            )
      ]

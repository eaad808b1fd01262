-- ===== src/PollServer/Delivery/Queue.antt =====
-- The calls of the queue that the handlers make, and what the clients have been sent.
use mathlib.Core.List.{map-append}
use sys_programming_explorat.Base.{
  ℕ, ◌==◌, ◌≡◌, ◌≢◌, ◌⊎◌, inl, inr, sym, ap, subst, ◌∙◌, List, [], ◌∷◌, ◌++◌, map, Bool, true,
  Option, none, some, arith, take, ℤ, Bool-cases,
}
use sys_programming_explorat.MessageQueue.{
  MessageQueue, Memory, Client, first_offset, get_length, store, q, register_client,
  unregister_client,
}
use sys_programming_explorat.MessageQueue.Validity.{waiting}
use sys_programming_explorat.MessageQueue.Fifo.{
  store-IsValid, store-waiting, store_length, store-clients, q_cases,
}
use sys_programming_explorat.MessageQueue.Flush.{NoClient}
use sys_programming_explorat.MessageQueue.Clients.{Each-remove_client}
use sys_programming_explorat.PollServer.Delivery.{
  Same, SameBut, Accepts, IsClient, AllClients, posted, text_of, Delivered,
}
use sys_programming_explorat.PollServer.Delivery.Clients.{
  AllClients-Same, AllClients-SameBut, AllClients-append, NoClient-closed,
}

start_cases : (start : Option ℕ) (e : ℕ) → (start ≡ some e) ⊎ (start ≢ some e)
start_cases none e = inr (λ p. cc p)
start_cases (some s) e = elim (Bool-cases (s == e)) [
  | inl same ↦ inl (ground arith)
  | inr differs ↦ inr (λ p. grind (arith, differs, p))
]

module _ {Str Mem Net : Type 0} (m : Memory Str Mem) (handed : ℤ → Net → List (List ℕ))
    (is_open : ℤ → Net → Bool) where
  -- Other clients, or another network.
  pub Delivered-clients :
      (net net' : Net) (mq : MessageQueue Str) (cs : List Client)
      → Delivered handed is_open m net mq
      → AllClients handed is_open net' (posted m mq) cs
      → Delivered handed is_open m net' (record mq { clients = cs })
  unfolding get_length
  Delivered-clients net net' mq cs d all = record {
    valid = record {
      positive = d.valid.positive;
      small = d.valid.small;
      stored = d.valid.stored;
      start_in = d.valid.start_in;
      end_in = d.valid.end_in;
      filled = d.valid.filled;
    };
    aligned = d.aligned;
    first = d.first;
    room = d.room;
    clients = all;
  }

  pub Delivered-Same :
      (net net' : Net) (mq : MessageQueue Str)
      → Same handed is_open net net'
      → Delivered handed is_open m net mq
      → Delivered handed is_open m net' mq
  Delivered-Same net net' mq same d =
      Delivered-clients net net' mq mq.clients d
        (AllClients-Same handed is_open net net' (posted m mq) mq.clients same d.clients)

  -- A new connection.
  pub Delivered-accept :
      (net : Net) (answer : ℤ × Net) (mq : MessageQueue Str)
      → Accepts handed is_open net answer
      → Delivered handed is_open m net mq
      → Delivered handed is_open m answer.1 mq × NoClient answer.0 mq.clients
  Delivered-accept net (fd, net') mq (down, up, nothing, but) d =
      let log = posted m mq in
      let apart = NoClient-closed handed is_open fd net log mq.clients down d.clients in
      (
        Delivered-clients net net' mq mq.clients d
            (AllClients-SameBut handed is_open fd net net' log mq.clients but apart d.clients),
        apart,
      )

  -- Its client is handed the log from the first message on.
  pub Delivered-register_client :
      (net : Net) (mq : MessageQueue Str) (fd : ℤ) (mem : Mem)
      → Delivered handed is_open m net mq
      → NoClient fd mq.clients
      → is_open fd net ≡ true
      → handed fd net ≡ []
      → Delivered handed is_open m net (register_client m mq fd mem).1
  unfolding register_client
  Delivered-register_client net mq fd mem d apart up nothing =
      let c : Client = record { fd = fd; roff = first_offset mq } in
      let none_yet : handed fd net ≡ take (first_offset mq) (posted m mq) = rw d.first nothing in
      let joined =
        Delivered-clients net net mq (c ∷ mq.clients) d
          ((omega (arith, d.first), none_yet, up), apart, d.clients) in
      ground (arith, d, joined)

  -- The client of a descriptor that is closed is taken out first.
  pub Delivered-unregister_client :
      (net net' : Net) (mq : MessageQueue Str) (fd : ℤ) (mem : Mem)
      → SameBut handed is_open fd net net'
      → Delivered handed is_open m net mq
      → Delivered handed is_open m net' (unregister_client m mq fd mem).1
  unfolding unregister_client
  Delivered-unregister_client net net' mq fd mem but d =
      elim (Each-remove_client (IsClient handed is_open net (posted m mq)) fd mq.clients
        d.clients) [
          | inl (none_there, apart) ↦
              let kept = Delivered-clients net net' mq mq.clients d (
                AllClients-SameBut handed is_open fd net net' (posted m mq) mq.clients but apart
                  d.clients) in
              ground (arith, kept, none_there)
          | inr (rest, removed, all, gone) ↦
              let kept =
                Delivered-clients net net' mq rest d
                  (AllClients-SameBut handed is_open fd net net' (posted m mq) rest but gone all) in
              ground (arith, kept, removed)
        ]

  store-Delivered :
      (net : Net) (mq : MessageQueue Str) (s : Str)
      → Delivered handed is_open m net mq
      → let mq' = store mq s in (mq'.start ≡ some mq'.end) ⊎ Delivered handed is_open m net mq'
  store-Delivered net mq s d =
      let mq' : MessageQueue Str = store mq s in
      let (valid, aligned) = store-IsValid mq s d.valid d.aligned d.room in
      let first = (store_length mq s d.valid d.aligned d.room).0 in
      let longer : posted m mq' ≡ posted m mq ++ (m.text s ∷ []) =
        ap (map (text_of m)) (store-waiting mq s d.valid d.aligned d.room)
        ∙ map-append (text_of m) (waiting mq) (some s ∷ []) in
      elim (start_cases mq'.start mq'.end) [
        | inl full ↦ inl full
        | inr room ↦ inr (record {
          valid = valid;
          aligned = aligned;
          first = first ∙ d.first;
          room = room;
          clients =
              subst (AllClients handed is_open net (posted m mq')) (sym (store-clients mq s)) (
                subst (λ log. AllClients handed is_open net log mq.clients) (sym longer)
                  (AllClients-append handed is_open net (posted m mq) (m.text s ∷ []) mq.clients
                    d.clients));
        })
      ]

  -- A message is put behind all others, or refused; the last free slot may be taken by it.
  pub q-Delivered :
      (net : Net) (mq : MessageQueue Str) (msg : List ℕ) (mem : Mem)
      → Delivered handed is_open m net mq
      → let mq' = (q m mq msg mem).1 in
        (mq'.start ≡ some mq'.end) ⊎ Delivered handed is_open m net mq'
  q-Delivered net mq msg mem d = elim (q_cases m mq msg mem) [
    | inl same ↦ inr (subst (Delivered handed is_open m net) (sym same) d)
    | inr (s, stored) ↦
        subst (λ mq'. (mq'.start ≡ some mq'.end) ⊎ Delivered handed is_open m net mq') (sym stored)
          (store-Delivered net mq s d)
  ]

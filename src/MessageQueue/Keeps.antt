-- ===== src/MessageQueue/Keeps.antt =====
-- What the calls of the queue do to its clients, for a property of clients that does not depend on
-- their offsets.
use sys_programming_explorat.Base.{
  ℕ, ◌≡◌, ◌⊎◌, inl, inr, ap, ◌∙◌, List, [], ◌∷◌, Option, none, some, arith, ℤ, eq_int, Bool-cases,
  Option-cases, ◌==◌,
}
use sys_programming_explorat.MessageQueue.{
  MessageQueue, Memory, Writer, Client, Status, first_offset, get_length, is_slow, drop_slow,
  drop_slow_consumers, flush_from, flush_client, flush, q, register_client,
}
use sys_programming_explorat.MessageQueue.Fifo.{q_cases, store-clients, store-capacity}
use sys_programming_explorat.MessageQueue.Flush.{NoClient}
use sys_programming_explorat.MessageQueue.Clients.{Each}

module _ {Str Mem : Type 0} (m : Memory Str Mem) where
  pub q-clients :
      (mq : MessageQueue Str) (msg : List ℕ) (mem : Mem) → (q m mq msg mem).1.clients ≡ mq.clients
  q-clients mq msg mem = elim (q_cases m mq msg mem) [
    | inl same ↦ ap (λ r. r.clients) same
    | inr (s, stored) ↦ ap (λ r. r.clients) stored ∙ store-clients mq s
  ]

  pub q-capacity :
      (mq : MessageQueue Str) (msg : List ℕ) (mem : Mem) → (q m mq msg mem).1.capacity ≡ mq.capacity
  q-capacity mq msg mem = elim (q_cases m mq msg mem) [
    | inl same ↦ ap (λ r. r.capacity) same
    | inr (s, stored) ↦ ap (λ r. r.capacity) stored ∙ store-capacity mq s
  ]

  pub register_client-clients :
      (mq : MessageQueue Str) (fd : ℤ) (mem : Mem)
      → ((register_client m mq fd mem).1.clients ≡ mq.clients)
        ⊎ ((register_client m mq fd mem).1.clients
            ≡ record { fd = fd; roff = first_offset mq } ∷ mq.clients)
  unfolding register_client
  register_client-clients mq fd mem = ground arith

  module _ (P : Client → Type 0) where
    NoClient-drop_slow :
        (x : ℤ) (mq : MessageQueue Str) (start : ℕ) (cs : List Client) (mem : Mem)
        → NoClient x cs
        → NoClient x (drop_slow m mq start cs mem).0
    unfolding drop_slow
    NoClient-drop_slow x mq start [] mem apart = tt
    NoClient-drop_slow x mq start (c ∷ cs) mem (differs, apart) =
        let freed = NoClient-drop_slow x mq start cs (m.free mem) apart in
        let passed = NoClient-drop_slow x mq start cs mem apart in
        ground (arith, freed, passed, differs)

    drop_slow-Each :
        (mq : MessageQueue Str) (start : ℕ) (cs : List Client) (mem : Mem)
        → Each P cs
        → Each P (drop_slow m mq start cs mem).0
    unfolding drop_slow
    drop_slow-Each mq start [] mem all = tt
    drop_slow-Each mq start (c ∷ cs) mem (here, apart, all) =
        elim (Bool-cases (is_slow mq start c)) [
          | inl slow ↦ rw slow (drop_slow-Each mq start cs (m.free mem) all)
          | inr quick ↦ rw quick (
            here,
            NoClient-drop_slow c.fd mq start cs mem apart,
            drop_slow-Each mq start cs mem all,
          )
        ]

    pub drop_slow_consumers-Each :
        (mq : MessageQueue Str) (mem : Mem)
        → Each P mq.clients
        → Each P (drop_slow_consumers m mq mem).0.clients
    unfolding drop_slow_consumers
    drop_slow_consumers-Each mq mem all = elim (Option-cases mq.start) [
      | inl e ↦ ground (arith, all, e)
      | inr (s, e) ↦
          let kept = drop_slow-Each mq s mq.clients mem all in ground (arith, all, kept, e)
    ]

module _ {Str Mem Net : Type 0} (m : Memory Str Mem) (write : Writer Net) (P : Client → Type 0)
    (k : (c : Client) (roff : ℕ) → P c → P (record c { roff = roff })) where
  -- The clients behind a loop over them, which have the descriptors of `cs`.
  abbrev EachOf : List Client → Option (Status × List Client × Net) → Type 0
  EachOf cs none = Unit {0}
  EachOf cs (some (status, cs', net)) = Each P cs' × ((x : ℤ) → NoClient x cs → NoClient x cs')

  here-EachOf :
      (c : Client) (cs : List Client) (r : Option (Status × ℕ × Net))
      → Each P (c ∷ cs)
      → EachOf (c ∷ cs) (elim r [
        | none ↦ none
        | some (status, roff, net') ↦ some (status, record c { roff = roff } ∷ cs, net')
      ])
  here-EachOf c cs none all = tt
  here-EachOf c cs (some (status, roff, net')) (here, apart, all) =
      ((k c roff here, apart, all), λ x absent. absent)

  there-EachOf :
      (c : Client) (cs : List Client) (r : Option (Status × List Client × Net))
      → P c
      → NoClient c.fd cs
      → EachOf cs r
      → EachOf
          (c ∷ cs)
          (elim r [ none ↦ none | some (status, cs', net') ↦ some (status, c ∷ cs', net') ])
  there-EachOf c cs none here apart f = tt
  there-EachOf c cs (some (status, cs', net')) here apart (all, same) =
      ((here, same c.fd apart, all), λ x (differs, absent). (differs, same x absent))

  flush_client-EachOf :
      (fuel : ℕ) (mq : MessageQueue Str) (fd : ℤ) (cs : List Client) (net : Net)
      → Each P cs
      → EachOf cs (flush_client m write fuel mq fd cs net)
  unfolding flush_client
  flush_client-EachOf fuel mq fd [] net all = (tt, λ x absent. absent)
  flush_client-EachOf fuel mq fd (c ∷ cs) net (here, apart, all) =
      elim (Bool-cases (eq_int c.fd fd)) [
        | inl found ↦
            rw found
              (here-EachOf c cs (flush_from m write fuel mq c.fd c.roff net) (here, apart, all))
        | inr other ↦ rw other (
            there-EachOf c cs (flush_client m write fuel mq fd cs net) here apart
              (flush_client-EachOf fuel mq fd cs net all))
      ]

  abbrev pub EachAfter : Option (Status × MessageQueue Str × Net) → Type 0
  EachAfter none = Unit {0}
  EachAfter (some (status, mq, net)) = Each P mq.clients

  put-EachAfter :
      (mq : MessageQueue Str) (r : Option (Status × List Client × Net))
      → EachOf mq.clients r
      → EachAfter (elim r [
        | none ↦ none
        | some (status, clients, net') ↦ some (status, record mq { clients = clients }, net')
      ])
  put-EachAfter mq none f = tt
  put-EachAfter mq (some (status, clients, net')) f = f.0

  pub flush-EachAfter :
      (mq : MessageQueue Str) (fd : ℤ) (net : Net)
      → Each P mq.clients
      → EachAfter (flush m write mq fd net)
  unfolding flush
  flush-EachAfter mq fd net all = elim (Bool-cases (get_length mq == 0)) [
    | inl nothing ↦ rw nothing all
    | inr some_wait ↦ rw some_wait (
        put-EachAfter mq (flush_client m write mq.capacity mq fd mq.clients net)
          (flush_client-EachOf mq.capacity mq fd mq.clients net all))
  ]

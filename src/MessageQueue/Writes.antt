-- ===== src/MessageQueue/Writes.antt =====
-- message_queue__flush and the network: properties that a write(2) keeps.
use sys_programming_explorat.Base.{
  ℕ, zero, suc, ◌+◌, ◌%◌, ◌≡◌, inl, inr, sym, subst, List, [], ◌∷◌, Option, none, some, arith, ℤ,
  eq_int, Bool-cases, Option-cases, ◌==◌,
}
use sys_programming_explorat.MessageQueue.Nullable
use sys_programming_explorat.MessageQueue.{
  MessageQueue, Memory, Writer, Client, Status, get_length, slot, send_slot, flush_from,
  flush_client, flush,
}

module _ {Str Mem Net : Type 0} (m : Memory Str Mem) (write : Writer Net) (I : Net → Type 0)
    (k : (fd : ℤ) (bs : List ℕ) (net : Net) → I net → I (write fd bs net).1) where
  abbrev pub HoldsAfter : {A : Type 0} → Option (Status × A × Net) → Type 0
  HoldsAfter none = Unit {0}
  HoldsAfter (some (status, a, net)) = I net

  HoldsAfter-elim :
      {A B : Type 0} (r : Option (Status × A × Net)) (f : A → B)
      → HoldsAfter r
      → HoldsAfter (elim r [ none ↦ none | some (status, a, net) ↦ some (status, f a, net) ])
  HoldsAfter-elim none f i = tt
  HoldsAfter-elim (some (status, a, net)) f i = i

  send_slot_holds : (fd : ℤ) (o : Option Str) (net : Net) → I net → I (send_slot m write fd o net).1
  unfolding send_slot
  send_slot_holds fd none net i = i
  send_slot_holds fd (some s) net i =
      let same : (send_slot m write fd (some s) net).1 ≡ (write fd (m.text s) net).1 =
        elim (Option-cases (write fd (m.text s) net).0) [
          | inl e ↦ ground (arith, e)
          | inr (n, e) ↦ ground (arith, e)
        ] in
      subst I (sym same) (k fd (m.text s) net i)

  flush_from-HoldsAfter :
      (fuel : ℕ) (mq : MessageQueue Str) (fd : ℤ) (i : ℕ) (net : Net)
      → I net
      → HoldsAfter (flush_from m write fuel mq fd i net)
  unfolding flush_from
  flush_from-HoldsAfter zero mq fd i net h = elim (Bool-cases (i == mq.end)) [
    | inl e ↦ rw e h
    | inr e ↦ rw e tt
  ]
  flush_from-HoldsAfter (suc fuel) mq fd i net h =
      let sent = send_slot_holds fd (slot mq.messages i) net h in
      let rest =
        flush_from-HoldsAfter fuel mq fd ((i + 1) % mq.capacity)
          (send_slot m write fd (slot mq.messages i) net).1 sent in
      elim (Bool-cases (i == mq.end)) [
        | inl e ↦ rw e h
        | inr e ↦ elim (Bool-cases (send_slot m write fd (slot mq.messages i) net).0) [
          | inl goes_on ↦ rw (e, goes_on) rest
          | inr stops ↦ rw (e, stops) sent
        ]
      ]

  flush_client-HoldsAfter :
      (fuel : ℕ) (mq : MessageQueue Str) (fd : ℤ) (cs : List Client) (net : Net)
      → I net
      → HoldsAfter (flush_client m write fuel mq fd cs net)
  unfolding flush_client
  flush_client-HoldsAfter fuel mq fd [] net h = h
  flush_client-HoldsAfter fuel mq fd (c ∷ cs) net h = elim (Bool-cases (eq_int c.fd fd)) [
    | inl found ↦ rw found (
        HoldsAfter-elim (flush_from m write fuel mq c.fd c.roff net)
          (λ roff. record c { roff = roff } ∷ cs) (flush_from-HoldsAfter fuel mq c.fd c.roff net h))
    | inr other ↦ rw other (
        HoldsAfter-elim (flush_client m write fuel mq fd cs net) (λ cs'. c ∷ cs')
          (flush_client-HoldsAfter fuel mq fd cs net h))
  ]

  flush-HoldsAfter :
      (mq : MessageQueue Str) (fd : ℤ) (net : Net) → I net → HoldsAfter (flush m write mq fd net)
  unfolding flush
  flush-HoldsAfter mq fd net h = elim (Bool-cases (get_length mq == 0)) [
    | inl nothing ↦ rw nothing h
    | inr some_wait ↦ rw some_wait (
        HoldsAfter-elim (flush_client m write mq.capacity mq fd mq.clients net)
          (λ clients. record mq { clients = clients })
          (flush_client-HoldsAfter mq.capacity mq fd mq.clients net h))
  ]

  pub flush_holds :
      (o : Option (MessageQueue Str)) (fd : ℤ) (net : Net)
      → I net
      → HoldsAfter (Nullable.flush m write o fd net)
  unfolding Nullable.flush
  flush_holds none fd net h = h
  flush_holds (some mq) fd net h =
      HoldsAfter-elim (flush m write mq fd net) (λ mq'. some mq') (flush-HoldsAfter mq fd net h)

-- ===== src/MessageQueue/FlushEnds.antt =====
-- The loop of message_queue__flush: when it ends, and where it leaves the offsets of the clients.
use native.Mathlib.Nat.{mod-eq_of_lt, mod-lt}
use native.Mathlib.Decide.{dec_lt}
use sys_programming_explorat.Base.{
  ℕ, zero, suc, ◌+◌, ◌-◌, ◌%◌, ◌≤◌, ◌<◌, ◌≡◌, ◌⊎◌, ◌≢◌, inl, inr, refl, List, [], ◌∷◌, Option, none,
  some, arith, ◌==◌, ℤ, eq_int, Bool-cases,
}
use sys_programming_explorat.MessageQueue.{
  MessageQueue, Memory, Writer, Client, Status, send_slot, slot, get_length, flush_from,
  flush_client, flush,
}
use sys_programming_explorat.MessageQueue.Validity.{mod-wrap}
use sys_programming_explorat.MessageQueue.Ring.{AllIn, InRing}

module _ {Str Mem Net : Type 0} (m : Memory Str Mem) (write : Writer Net) where
  -- `d` slots lie between `i` and the end, along the ring.
  abbrev IsAhead : MessageQueue Str → ℕ → ℕ → Type 0
  IsAhead mq i d = (i + d ≡ mq.end) ⊎ (i + d ≡ mq.end + mq.capacity)

  abbrev Stops : MessageQueue Str → Option (Status × ℕ × Net) → Type 0
  Stops mq none = ⊥
  Stops mq (some (status, roff, net)) = roff < mq.capacity

  next-IsAhead :
      (mq : MessageQueue Str) (i d : ℕ)
      → i < mq.capacity
      → mq.end < mq.capacity
      → i ≢ mq.end
      → d < mq.capacity
      → IsAhead mq i d
      → (k : ℕ) × (d ≡ suc k) × IsAhead mq ((i + 1) % mq.capacity) k
  next-IsAhead mq i zero inside end_in differs small (inl e) = absurd (differs (omega arith))
  next-IsAhead mq i zero inside end_in differs small (inr e) = absurd (omega arith)
  next-IsAhead mq i (suc k) inside end_in differs small ahead = elim (dec_lt (i + 1) mq.capacity) [
    | yes below ↦
        let next = mod-eq_of_lt {n = i + 1} {m = mq.capacity} below in
        (
          k,
          refl,
          elim ahead [ inl e ↦ inl (omega (arith, next)) | inr e ↦ inr (omega (arith, next)) ],
        )
    | no last ↦
        let next = mod-wrap mq.capacity 0 (i + 1) (omega arith) (omega arith) in
        (k, refl, elim ahead [ inl e ↦ absurd (omega arith) | inr e ↦ inl (omega (arith, next)) ])
  ]

  flush_from-Stops :
      (fuel : ℕ) (mq : MessageQueue Str) (fd : ℤ) (i d : ℕ) (net : Net)
      → i < mq.capacity
      → mq.end < mq.capacity
      → d < mq.capacity
      → d ≤ fuel
      → IsAhead mq i d
      → Stops mq (flush_from m write fuel mq fd i net)
  unfolding flush_from
  flush_from-Stops zero mq fd i d net inside end_in small enough ahead =
      let there : i ≡ mq.end = elim ahead [ inl e ↦ omega arith | inr e ↦ absurd (omega arith) ] in
      ground (arith, there, inside)
  flush_from-Stops (suc fuel) mq fd i d net inside end_in small enough ahead =
      let (goes_on, net') = send_slot m write fd (slot mq.messages i) net in
      let next = (i + 1) % mq.capacity in
      elim (Bool-cases (i == mq.end)) [
        | inl there ↦ rw there inside
        | inr away ↦
            let (k, same, ahead') =
              next-IsAhead mq i d inside end_in (λ e. grind (arith, away, e)) small ahead in
            let rest : Stops mq (flush_from m write fuel mq fd next net') =
              flush_from-Stops fuel mq fd next k net' (mod-lt (i + 1) (omega arith)) end_in
                (omega arith) (omega arith) ahead' in
            elim (Bool-cases goes_on) [
              | inl on ↦ rw (away, on) rest
              | inr off ↦ rw (away, off) inside
            ]
      ]

  -- The number of slots up to the end.
  some-IsAhead :
      (mq : MessageQueue Str) (i : ℕ)
      → i < mq.capacity
      → mq.end < mq.capacity
      → (d : ℕ) × (d < mq.capacity) × IsAhead mq i d
  some-IsAhead mq i inside end_in = elim (dec_lt mq.end i) [
    | yes behind ↦ ((mq.end + mq.capacity) - i, omega arith, inr (omega arith))
    | no before ↦ (mq.end - i, omega arith, inl (omega arith))
  ]

  abbrev ClientsIn : ℕ → Option (Status × List Client × Net) → Type 0
  ClientsIn capacity none = ⊥
  ClientsIn capacity (some (status, clients, net)) = AllIn capacity clients

  -- What becomes of the clients behind the loop for one of them.
  roff-ClientsIn :
      (mq : MessageQueue Str) (c : Client) (cs : List Client) (r : Option (Status × ℕ × Net))
      → Stops mq r
      → AllIn mq.capacity cs
      → ClientsIn mq.capacity (elim r [
        | none ↦ none
        | some (status, roff, net') ↦ some (status, record c { roff = roff } ∷ cs, net')
      ])
  roff-ClientsIn mq c cs none stops all = absurd stops
  roff-ClientsIn mq c cs (some (status, roff, net')) stops all = (stops, all)

  cons-ClientsIn :
      (capacity : ℕ) (c : Client) (r : Option (Status × List Client × Net))
      → c.roff < capacity
      → ClientsIn capacity r
      → ClientsIn capacity
          (elim r [ none ↦ none | some (status, cs', net') ↦ some (status, c ∷ cs', net') ])
  cons-ClientsIn capacity c none here all = absurd all
  cons-ClientsIn capacity c (some (status, cs', net')) here all = (here, all)

  flush_client-ClientsIn :
      (mq : MessageQueue Str) (fd : ℤ) (cs : List Client) (net : Net)
      → mq.end < mq.capacity
      → AllIn mq.capacity cs
      → ClientsIn mq.capacity (flush_client m write mq.capacity mq fd cs net)
  unfolding flush_client
  flush_client-ClientsIn mq fd [] net end_in all = tt
  flush_client-ClientsIn mq fd (c ∷ cs) net end_in (here, all) =
      elim (Bool-cases (eq_int c.fd fd)) [
        | inl found ↦
            let (d, small, ahead) = some-IsAhead mq c.roff here end_in in
            rw found (
              roff-ClientsIn mq c cs (flush_from m write mq.capacity mq c.fd c.roff net)
                (flush_from-Stops mq.capacity mq c.fd c.roff d net here end_in small (omega arith)
                  ahead)
                all)
        | inr other ↦ rw other (
            cons-ClientsIn mq.capacity c (flush_client m write mq.capacity mq fd cs net) here
              (flush_client-ClientsIn mq fd cs net end_in all))
      ]

  abbrev pub Flushed : Option (Status × MessageQueue Str × Net) → Type 0
  Flushed none = ⊥
  Flushed (some (status, mq, net)) = InRing mq

  clients-Flushed :
      (mq : MessageQueue Str) (r : Option (Status × List Client × Net))
      → InRing mq
      → ClientsIn mq.capacity r
      → Flushed (elim r [
        | none ↦ none
        | some (status, clients, net') ↦ some (status, record mq { clients = clients }, net')
      ])
  clients-Flushed mq none r all = absurd all
  clients-Flushed mq (some (status, clients, net')) r all = record {
    start_in = r.start_in;
    end_in = r.end_in;
    clients_in = all;
  }

  -- A flush has enough fuel, and leaves the offsets in the ring.
  pub flush-Flushed :
      (mq : MessageQueue Str) (fd : ℤ) (net : Net) → InRing mq → Flushed (flush m write mq fd net)
  unfolding flush
  flush-Flushed mq fd net r = elim (Bool-cases (get_length mq == 0)) [
    | inl nothing ↦ rw nothing r
    | inr some_wait ↦ rw some_wait (
        clients-Flushed mq (flush_client m write mq.capacity mq fd mq.clients net) r
          (flush_client-ClientsIn mq fd mq.clients net r.end_in r.clients_in))
  ]

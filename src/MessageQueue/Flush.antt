-- ===== src/MessageQueue/Flush.antt =====
-- message_queue__flush: what is written to a client, and where its offset stops.
use native.Mathlib.Nat.{mod-lt, mod-add-mod, mod-eq_of_lt, add-zero}
use sys_programming_explorat.Base.{
  ℕ, zero, suc, ◌+◌, ◌-◌, ◌%◌, ◌≤◌, ◌<◌, ◌≡◌, inl, inr, sym, ap, ◌∙◌, List, [], ◌∷◌, ◌++◌, Bool,
  true, false, Option, none, some, refl, arith, ℤ, eq_int, eq_int_iff, if◌then◌else◌, ◌==◌,
  Bool-cases, Option-cases,
}
use sys_programming_explorat.MessageQueue.{
  MessageQueue, Memory, Writer, Client, Status, done, failed, slot, get_length, send_slot,
  flush_from, flush_client, flush,
}
use sys_programming_explorat.MessageQueue.Window.{window, round-ne}
use sys_programming_explorat.MessageQueue.Validity.{IsValid, mod-wrap}

abbrev pub status_of : Bool → Status
status_of true = done
status_of false = failed

abbrev pub NoClient : ℤ → List Client → Type 0
NoClient fd [] = Unit {0}
NoClient fd (c ∷ cs) = (eq_int c.fd fd ≡ false) × NoClient fd cs

module _ {Str Mem Net : Type 0} (m : Memory Str Mem) (write : Writer Net) where
  -- The specification: messages are written in order, up to the first write that answers -1. The
  -- result says whether all were, how many slots were passed, and what became of the network. An
  -- empty slot is passed without a write.
  unfoldable pub send_all : ℤ → List (Option Str) → Net → Bool × ℕ × Net
  send_all fd [] net = (true, 0, net)
  send_all fd (none ∷ os) net = let (sent, k, net') = send_all fd os net in (sent, k + 1, net')
  send_all fd (some s ∷ os) net =
      let (answer, net') = write fd (m.text s) net in
      let (sent, k, net'') = send_all fd os net' in
      elim answer [ none ↦ (false, 0, net') | some _ ↦ (sent, k + 1, net'') ]

  -- The code's step for one slot is that of the specification.
  send_all-send_slot :
      (fd : ℤ) (o : Option Str) (os : List (Option Str)) (net : Net)
      → let (goes_on, net') = send_slot m write fd o net in
        let (sent, k, net'') = send_all fd os net' in
        send_all fd (o ∷ os) net ≡ (if goes_on then (sent, k + 1, net'') else (false, 0, net'))
  unfolding send_all send_slot
  send_all-send_slot fd none os net = refl
  send_all-send_slot fd (some s) os net = elim (Option-cases (write fd (m.text s) net).0) [
    | inl e ↦ ground (arith, e)
    | inr (n, e) ↦ ground (arith, e)
  ]

  pub send_all-refused :
      (fd : ℤ) (s : Str) (os : List (Option Str)) (net : Net)
      → (write fd (m.text s) net).0 ≡ none
      → send_all fd (some s ∷ os) net ≡ (false, 0, (write fd (m.text s) net).1)
  unfolding send_all
  send_all-refused fd s os net e = ground (arith, e)

  pub send_all-taken :
      (fd : ℤ) (s : Str) (os : List (Option Str)) (net : Net) (taken : ℕ)
      → (write fd (m.text s) net).0 ≡ some taken
      → let (sent, k, net') = send_all fd os (write fd (m.text s) net).1 in
        send_all fd (some s ∷ os) net ≡ (sent, k + 1, net')
  unfolding send_all
  send_all-taken fd s os net taken e = ground (arith, e)

  -- How far behind the end a client is.
  abbrev pub lag : MessageQueue Str → ℕ → ℕ
  lag mq roff = (mq.end + (mq.capacity - roff)) % mq.capacity

  flush_from-send_all :
      (fuel n : ℕ) (mq : MessageQueue Str) (fd : ℤ) (i : ℕ) (net : Net)
      → i < mq.capacity
      → n < mq.capacity
      → n ≤ fuel
      → mq.end ≡ (i + n) % mq.capacity
      → let (sent, k, net') = send_all fd (window mq.messages mq.capacity i n) net in
        flush_from m write fuel mq fd i net ≡ some (status_of sent, (i + k) % mq.capacity, net')
  unfolding flush_from send_all
  flush_from-send_all zero zero mq fd i net hi hn hf e =
      ground (arith, add-zero i, mod-eq_of_lt {n = i} {m = mq.capacity} hi)
  flush_from-send_all (suc fuel) zero mq fd i net hi hn hf e =
      ground (arith, add-zero i, mod-eq_of_lt {n = i} {m = mq.capacity} hi)
  flush_from-send_all zero (suc n) mq fd i net hi hn hf e = absurd (omega arith)
  flush_from-send_all (suc fuel) (suc n) mq fd i net hi hn hf e =
      let net' : Net = (send_slot m write fd (slot mq.messages i) net).1 in
      let next : ℕ = (i + 1) % mq.capacity in
      let k : ℕ = (send_all fd (window mq.messages mq.capacity next n) net').1 in
      let apart : (i == mq.end) ≡ false =
        ground (arith, round-ne mq.capacity i (suc n) hi (omega arith) hn) in
      let step =
        send_all-send_slot fd (slot mq.messages i) (window mq.messages mq.capacity next n) net in
      elim (Bool-cases (send_slot m write fd (slot mq.messages i) net).0) [
        | inl more ↦
            rw (apart, step, more)
              (flush_from-send_all fuel n mq fd next net' (mod-lt (i + 1) (omega arith))
                  (omega arith) (omega arith)
                  (e
                    ∙ ap (λ (j : ℕ). j % mq.capacity) (omega arith)
                    ∙ sym (mod-add-mod (i + 1) mq.capacity n))
                ∙ ap
                    (λ j. some (
                      status_of (send_all fd (window mq.messages mq.capacity next n) net').0,
                      j,
                      (send_all fd (window mq.messages mq.capacity next n) net').2,
                    ))
                    (mod-add-mod (i + 1) mq.capacity k
                      ∙ ap (λ (j : ℕ). j % mq.capacity) (omega arith)))
        | inr stop ↦
            rw (apart, step, stop)
              (ap (λ j. some (failed, j, net'))
                (sym (
                  ap (λ (j : ℕ). j % mq.capacity) (add-zero i)
                  ∙ mod-eq_of_lt {n = i} {m = mq.capacity} hi)))
      ]

  flush_client-first :
      (fuel : ℕ) (mq : MessageQueue Str) (fd : ℤ) (before after : List Client) (c : Client)
      (net net' : Net) (status : Status) (roff : ℕ)
      → NoClient fd before
      → eq_int c.fd fd ≡ true
      → flush_from m write fuel mq c.fd c.roff net ≡ some (status, roff, net')
      → flush_client m write fuel mq fd (before ++ c ∷ after) net
        ≡ some (status, before ++ record c { roff = roff } ∷ after, net')
  unfolding flush_client
  flush_client-first fuel mq fd [] after c net net' status roff h found e = rw (found, e)
  flush_client-first fuel mq fd (b ∷ bs) after c net net' status roff h found e =
      rw (h.0, flush_client-first fuel mq fd bs after c net net' status roff h.1 found e)

  lag-end :
      (mq : MessageQueue Str) (roff : ℕ)
      → IsValid mq
      → roff < mq.capacity
      → mq.end ≡ (roff + lag mq roff) % mq.capacity
  lag-end mq roff v h = sym (
      ap (λ (j : ℕ). j % mq.capacity) (omega arith)
      ∙ mod-add-mod (mq.end + (mq.capacity - roff)) mq.capacity roff
      ∙ mod-wrap mq.capacity mq.end (mq.end + (mq.capacity - roff) + roff) v.end_in (omega arith))

  pub flush_empty :
      (mq : MessageQueue Str) (fd : ℤ) (net : Net)
      → get_length mq ≡ 0
      → flush m write mq fd net ≡ some (done, mq, net)
  unfolding flush
  flush_empty mq fd net e = ground (arith, e)

  flush_client-none :
      (fuel : ℕ) (mq : MessageQueue Str) (fd : ℤ) (cs : List Client) (net : Net)
      → NoClient fd cs
      → flush_client m write fuel mq fd cs net ≡ some (failed, cs, net)
  unfolding flush_client
  flush_client-none fuel mq fd [] net apart = refl
  flush_client-none fuel mq fd (c ∷ cs) net (differs, apart) =
      rw (differs, flush_client-none fuel mq fd cs net apart)

  -- A descriptor that has no client.
  pub flush_stranger :
      (mq : MessageQueue Str) (fd : ℤ) (net : Net)
      → 0 < get_length mq
      → NoClient fd mq.clients
      → flush m write mq fd net ≡ some (failed, mq, net)
  unfolding flush
  flush_stranger mq fd net some_wait apart =
      let waits : (get_length mq == 0) ≡ false = ground arith in
      rw (waits, flush_client-none mq.capacity mq fd mq.clients net apart)

  -- A flush of a well-formed queue that is not empty writes to the first client of the descriptor,
  -- whose offset lies in the ring, the messages from its offset up to the end, in order, until one
  -- write fails, and moves its offset by the slots that were passed. Nothing else changes.
  pub flush-send_all :
      (mq : MessageQueue Str) (fd : ℤ) (before after : List Client) (c : Client) (net : Net)
      → IsValid mq
      → 0 < get_length mq
      → mq.clients ≡ before ++ c ∷ after
      → NoClient fd before
      → c.fd ≡ fd
      → c.roff < mq.capacity
      → let (sent, k, net') =
          send_all c.fd (window mq.messages mq.capacity c.roff (lag mq c.roff)) net in
        flush m write mq fd net
        ≡ some (
          status_of sent,
          record mq { clients = before ++ record c { roff = (c.roff + k) % mq.capacity } ∷ after },
          net',
        )
  unfolding flush
  flush-send_all mq fd before after c net v some_wait split h same r =
      let n : ℕ = lag mq c.roff in
      let n_lt : n < mq.capacity = mod-lt (mq.end + (mq.capacity - c.roff)) v.positive in
      let (sent, k, net') = send_all c.fd (window mq.messages mq.capacity c.roff n) net in
      let run : flush_client m write mq.capacity mq fd mq.clients net
          ≡ some (
            status_of sent,
            before ++ record c { roff = (c.roff + k) % mq.capacity } ∷ after,
            net',
          ) =
        ap (λ cs. flush_client m write mq.capacity mq fd cs net) split
        ∙ flush_client-first mq.capacity mq fd before after c net net' (status_of sent)
            ((c.roff + k) % mq.capacity) h ((eq_int_iff c.fd fd).1 same)
            (flush_from-send_all mq.capacity n mq c.fd c.roff net r n_lt (omega arith)
              (lag-end mq c.roff v r)) in
      let waits : (get_length mq == 0) ≡ false = ground arith in rw (waits, run)

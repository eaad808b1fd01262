-- ===== src/MessageQueue/Ring.antt =====
-- The indices of the queue and the offsets of its clients, through every call: whether they stay in
-- the ring.
use native.Mathlib.Nat.{mod-lt}
use sys_programming_explorat.Base.{
  ℕ, ◌+◌, ◌≤◌, ◌<◌, ◌≡◌, ◌≢◌, subst, inl, inr, ap, sym, List, [], ◌∷◌, Option, none, some, arith,
  length, ℤ, eq_int, Bool-cases, Option-cases,
}
use sys_programming_explorat.MessageQueue.{
  MessageQueue, Memory, Client, mqerr_message_too_long, max_message_length, store, remove_client, q,
  register_client, unregister_client, drop_slow, drop_slow_consumers, init,
}
use sys_programming_explorat.MessageQueue.Fifo.{fresh, init-fresh}
use sys_programming_explorat.MessageQueue.Validity.{IsIndex}

abbrev pub AllIn : ℕ → List Client → Type 0
AllIn capacity [] = Unit {0}
AllIn capacity (c ∷ cs) = (c.roff < capacity) × AllIn capacity cs

pub record InRing {Str : Type 0} (mq : MessageQueue Str) : Type 0 where
  pub start_in : IsIndex mq.start mq.capacity
  pub end_in : mq.end < mq.capacity
  pub clients_in : AllIn mq.capacity mq.clients

-- The same of a queue that may be NULL.
abbrev pub IsSound : {Str : Type 0} → Option (MessageQueue Str) → Type 0
IsSound none = Unit {0}
IsSound (some mq) = InRing mq

offset_in :
    (start : Option ℕ) (capacity : ℕ)
    → 0 < capacity
    → IsIndex start capacity
    → elim start [ none ↦ 0 | some s ↦ s ] < capacity
offset_in none capacity h i = h
offset_in (some s) capacity h i = i

start-IsIndex :
    (start : Option ℕ) (capacity : ℕ)
    → 0 < capacity
    → IsIndex start capacity
    → IsIndex (elim start [ none ↦ some 0 | some i ↦ some i ]) capacity
start-IsIndex none capacity h i = h
start-IsIndex (some s) capacity h i = i

remove_client-AllIn :
    (capacity : ℕ) (cs rest : List Client) (fd : ℤ)
    → AllIn capacity cs
    → remove_client cs fd ≡ some rest
    → AllIn capacity rest
unfolding remove_client
remove_client-AllIn capacity [] rest fd all e = cc e
remove_client-AllIn capacity (c ∷ cs) rest fd (here, all) e = elim (Bool-cases (eq_int c.fd fd)) [
  | inl found ↦ let same : cs ≡ rest = ground (arith, e, found) in subst (AllIn capacity) same all
  | inr later ↦ elim (Option-cases (remove_client cs fd)) [
    | inl out ↦ ground (arith, e, later, out)
    | inr (kept, at) ↦
        let same : c ∷ kept ≡ rest = ground (arith, e, later, at) in
        subst (AllIn capacity) same (here, remove_client-AllIn capacity cs kept fd all at)
  ]
]

module _ {Str Mem : Type 0} (m : Memory Str Mem) where
  pub q-InRing :
      (mq : MessageQueue Str) (msg : List ℕ) (mem : Mem) → InRing mq → InRing (q m mq msg mem).1
  unfolding q store
  q-InRing mq msg mem r =
      let stored : (str : Str) → InRing (store mq str) = λ str. record {
        start_in = start-IsIndex mq.start mq.capacity (omega arith) r.start_in;
        end_in = mod-lt (mq.end + 1) (omega arith);
        clients_in = r.clients_in;
      } in
      ground (arith, r, stored)

  -- A message of at most 512 bytes is never answered MQERR_MESSAGE_TOO_LONG.
  pub q-ne-too_long :
      (mq : MessageQueue Str) (msg : List ℕ) (mem : Mem)
      → length msg ≤ max_message_length
      → (q m mq msg mem).0 ≢ mqerr_message_too_long
  unfolding q
  q-ne-too_long mq msg mem short e = grind (arith, short, e)

  pub register_client-InRing :
      (mq : MessageQueue Str) (fd : ℤ) (mem : Mem)
      → InRing mq
      → InRing (register_client m mq fd mem).1
  unfolding register_client
  register_client-InRing mq fd mem r =
      let first = offset_in mq.start mq.capacity (omega arith) r.start_in in ground (arith, r)

  pub unregister_client-InRing :
      (mq : MessageQueue Str) (fd : ℤ) (mem : Mem)
      → InRing mq
      → InRing (unregister_client m mq fd mem).1
  unfolding unregister_client
  unregister_client-InRing mq fd mem r = elim (Option-cases (remove_client mq.clients fd)) [
    | inl out ↦ grind (arith, r, out)
    | inr (rest, at) ↦
        let all : AllIn mq.capacity rest =
          remove_client-AllIn mq.capacity mq.clients rest fd r.clients_in at in
        let kept : InRing (record mq { clients = rest }) = record {
          start_in = r.start_in;
          end_in = r.end_in;
          clients_in = all;
        } in
        ground (arith, kept, at)
  ]

  drop_slow-AllIn :
      (mq : MessageQueue Str) (start : ℕ) (cs : List Client) (mem : Mem)
      → AllIn mq.capacity cs
      → AllIn mq.capacity (drop_slow m mq start cs mem).0
  unfolding drop_slow
  drop_slow-AllIn mq start [] mem all = tt
  drop_slow-AllIn mq start (c ∷ cs) mem (here, all) =
      let freed = drop_slow-AllIn mq start cs (m.free mem) all in
      let passed = drop_slow-AllIn mq start cs mem all in ground (arith, freed, passed, here)

  pub drop_slow_consumers-InRing :
      (mq : MessageQueue Str) (mem : Mem) → InRing mq → InRing (drop_slow_consumers m mq mem).0
  unfolding drop_slow_consumers
  drop_slow_consumers-InRing mq mem r = elim (Option-cases mq.start) [
    | inl e ↦ ground (arith, r, e)
    | inr (s, e) ↦
        let kept : InRing (record mq { clients = (drop_slow m mq s mq.clients mem).0 }) = record {
          start_in = r.start_in;
          end_in = r.end_in;
          clients_in = drop_slow-AllIn mq s mq.clients mem r.clients_in;
        } in
        ground (arith, r, kept, e)
  ]

  pub init-IsSound : (capacity : ℕ) (mem : Mem) → IsSound (init m capacity mem).0
  unfolding init
  init-IsSound capacity mem = elim (Option-cases (init m capacity mem).0) [
    | inl e ↦ rw e tt
    | inr (mq, e) ↦
        let rest = (init m capacity mem).1 in
        let (positive, same) = init-fresh m capacity mem rest mq (ap (λ o. (o, rest)) e) in
        let made : InRing (fresh m capacity) = record {
          start_in = tt;
          end_in = positive;
          clients_in = tt;
        } in
        subst IsSound (sym e) (subst InRing same made)
  ]

-- ===== src/MessageQueue/Validity.antt =====
-- The representation invariant of `struct message_queue`, and what it says of the ring.
use native.Mathlib.Nat.{mod-eq_of_lt, mod-eq-sub-mod}
use native.Mathlib.Decide.{dec_lt}
use sys_programming_explorat.Base.{
  ℕ, ◌+◌, ◌-◌, ◌%◌, ◌^◌, ◌≤◌, ◌<◌, ◌≡◌, ◌≢◌, sym, ◌∙◌, List, [], ◌∷◌, Option, none, some, arith,
  length,
}
use sys_programming_explorat.MessageQueue.{MessageQueue, get_length, first_offset}
use sys_programming_explorat.MessageQueue.Window.{window}

abbrev pub IsIndex : Option ℕ → ℕ → Type 0
IsIndex none capacity = Unit {0}
IsIndex (some s) capacity = s < capacity

abbrev pub AllSome {ℓ} : {A : Type ℓ} → List (Option A) → Type 0
AllSome [] = Unit {0}
AllSome (none ∷ xs) = ⊥
AllSome (some x ∷ xs) = AllSome xs

-- An empty queue that starts over at index 0. Only such an empty queue can be filled correctly.
abbrev pub IsAligned : Option ℕ → ℕ → Type 0
IsAligned none e = e ≡ 0
IsAligned (some s) e = Unit {0}

-- One round of `cap` steps leads from a sum back below `cap`.
pub mod-wrap : (cap e n : ℕ) → e < cap → n ≡ cap + e → n % cap ≡ e
mod-wrap cap e n h p =
    mod-eq-sub-mod {n = n} {m = cap} (omega arith)
    ∙ mod-eq_of_lt {n = n - cap} {m = cap} (omega arith)
    ∙ omega arith

module _ {Str : Type 0} where
  -- The messages that wait in the queue, the oldest first.
  abbrev pub waiting : MessageQueue Str → List (Option Str)
  waiting mq = window mq.messages mq.capacity (first_offset mq) (get_length mq)

  pub record IsValid (mq : MessageQueue Str) : Type 0 where
    pub positive : 0 < mq.capacity
    pub small : mq.capacity < 2 ^ 62
    pub stored : length mq.messages ≡ mq.capacity
    pub start_in : IsIndex mq.start mq.capacity
    pub end_in : mq.end < mq.capacity
    pub filled : AllSome (waiting mq)

  -- The length of a queue that is not empty, and how it ties `start` to `end`.
  pub get_length_bounds :
      {mq : MessageQueue Str} (s : ℕ)
      → IsValid mq
      → mq.start ≡ some s
      → (0 < get_length mq) × (get_length mq ≤ mq.capacity)
  unfolding get_length
  get_length_bounds s v e = ground arith

  pub end-eq :
      {mq : MessageQueue Str} (s : ℕ)
      → IsValid mq
      → mq.start ≡ some s
      → mq.end ≡ (s + get_length mq) % mq.capacity
  unfolding get_length
  end-eq {mq} s v e = elim (dec_lt s mq.end) [
    | yes p ↦
        let n : get_length mq ≡ mq.end - s = ground arith in
        rw n
          (sym (mod-eq_of_lt {n = s + (mq.end - s)} {m = mq.capacity} (omega arith) ∙ omega arith))
    | no p ↦
        let n : s + get_length mq ≡ mq.capacity + mq.end = ground arith in
        sym (mod-wrap mq.capacity mq.end (s + get_length mq) v.end_in n)
  ]

  -- The queue is full exactly if `start` meets `end`.
  pub get_length-full :
      {mq : MessageQueue Str} (s : ℕ)
      → IsValid mq
      → mq.start ≡ some s
      → s ≢ mq.end
      → get_length mq < mq.capacity
  unfolding get_length
  get_length-full s v e ne = ground arith

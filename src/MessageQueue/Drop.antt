-- ===== src/MessageQueue/Drop.antt =====
-- message_queue__drop_slow_consumers: which clients are unlinked.
use native.Mathlib.Nat.{mod_self}
use sys_programming_explorat.Base.{
  ℕ, ◌+◌, ◌-◌, ◌*◌, ◌/◌, ◌%◌, ◌^◌, ◌≤◌, ◌<◌, ◌≡◌, refl, ap, ◌∙◌, List, [], ◌∷◌, some, arith, leb,
  ltb, if◌then◌else◌, add_size, sub_size, ge→ltb,
}
use sys_programming_explorat.MessageQueue.{
  MessageQueue, Memory, Client, get_length, is_slow, drop_slow, drop_slow_consumers,
}
use sys_programming_explorat.MessageQueue.Validity.{IsValid}

abbrev pub Below : ℕ → List Client → Type 0
Below n [] = Unit {0}
Below n (c ∷ cs) = (c.roff < n) × Below n cs

-- The clients whose offset stands at least `least` slots behind `start`, round a ring of `cap`.
unfoldable pub keep_from : ℕ → ℕ → ℕ → List Client → List Client
keep_from cap start least [] = []
keep_from cap start least (c ∷ cs) =
    if leb least ((cap + c.roff - start) % cap)
    then c ∷ keep_from cap start least cs
    else keep_from cap start least cs

abbrev pub CaughtUp : ℕ → List Client → Type 0
CaughtUp e [] = Unit {0}
CaughtUp e (c ∷ cs) = (c.roff ≡ e) × CaughtUp e cs

keep_from-CaughtUp :
    (cap e least : ℕ) (cs : List Client) → 0 < least → CaughtUp e cs → keep_from cap e least cs ≡ []
unfolding keep_from
keep_from-CaughtUp cap e least [] h u = refl
keep_from-CaughtUp cap e least (c ∷ cs) h u =
    let home : cap + c.roff - e ≡ cap = omega arith in
    ground
      (arith, ap (λ (j : ℕ). j % cap) home, mod_self cap, keep_from-CaughtUp cap e least cs h u.1)

pub get_length_full :
    {Str : Type 0} (mq : MessageQueue Str) → mq.start ≡ some mq.end → get_length mq ≡ mq.capacity
unfolding get_length
get_length_full mq full = ground arith

module _ {Str Mem : Type 0} (m : Memory Str Mem) where
  drop_slow-keep_from :
      (mq : MessageQueue Str) (s : ℕ) (cs : List Client) (mem : Mem)
      → IsValid mq
      → s < mq.capacity
      → Below mq.capacity cs
      → (drop_slow m mq s cs mem).0 ≡ keep_from mq.capacity s (mq.capacity * 4 / 10) cs
  unfolding drop_slow keep_from is_slow
  drop_slow-keep_from mq s [] mem v hs b = refl
  drop_slow-keep_from mq s (c ∷ cs) mem v hs b =
      let exact : sub_size (add_size mq.capacity c.roff) s ≡ mq.capacity + c.roff - s =
        omega arith in
      ground (
        arith,
        ap (λ (j : ℕ). j % mq.capacity) exact,
        drop_slow-keep_from mq s cs (if is_slow mq s c then m.free mem else mem) v hs b.1,
      )

  -- Of a well-formed queue of fewer than 2 ^ 32 slots that is not empty, with client offsets in the
  -- ring: from 80% of its capacity on, `drop_slow_consumers` unlinks the clients whose offset lies
  -- in the first 40% of the ring from `start`, and keeps all others in order; below that it unlinks
  -- none.
  pub drop_slow_consumers-clients :
      (mq : MessageQueue Str) (s : ℕ) (mem : Mem)
      → IsValid mq
      → mq.capacity < 2 ^ 32
      → mq.start ≡ some s
      → Below mq.capacity mq.clients
      → (drop_slow_consumers m mq mem).0.clients ≡ (
          if ltb (get_length mq) (mq.capacity * 8 / 10)
          then mq.clients
          else keep_from mq.capacity s (mq.capacity * 4 / 10) mq.clients)
  unfolding drop_slow_consumers
  drop_slow_consumers-clients mq s mem v small e b =
      let exact : mq.capacity * 8 % 2 ^ 64 ≡ mq.capacity * 8 = omega arith in
      ground (arith, exact, drop_slow-keep_from mq s mq.clients mem v (ground arith) b)

  CaughtUp-Below : (e n : ℕ) (cs : List Client) → e < n → CaughtUp e cs → Below n cs
  CaughtUp-Below e n [] h u = tt
  CaughtUp-Below e n (c ∷ cs) h u = (omega arith, CaughtUp-Below e n cs h u.1)

  -- If all clients of a full, well-formed queue of three slots or more, and fewer than 2 ^ 32, have
  -- been sent everything, `drop_slow_consumers` unlinks all of them: their offset stands at `end`,
  -- which is `start`.
  pub drop_slow_consumers-CaughtUp :
      (mq : MessageQueue Str) (mem : Mem)
      → IsValid mq
      → 3 ≤ mq.capacity
      → mq.capacity < 2 ^ 32
      → mq.start ≡ some mq.end
      → CaughtUp mq.end mq.clients
      → (drop_slow_consumers m mq mem).0.clients ≡ []
  drop_slow_consumers-CaughtUp mq mem v big small full u =
      drop_slow_consumers-clients mq mq.end mem v small full
        (CaughtUp-Below mq.end mq.capacity mq.clients v.end_in u)
      ∙ ap
          (λ b.
            if b
            then mq.clients
            else keep_from mq.capacity mq.end (mq.capacity * 4 / 10) mq.clients)
          (ge→ltb (get_length mq) (mq.capacity * 8 / 10) (omega (arith, get_length_full mq full)))
      ∙ keep_from-CaughtUp mq.capacity mq.end (mq.capacity * 4 / 10) mq.clients (omega arith) u

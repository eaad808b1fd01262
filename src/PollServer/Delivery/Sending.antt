-- ===== src/PollServer/Delivery/Sending.antt =====
-- What one flush hands to its client and to others.
use native.Mathlib.Nat.{mod-eq_of_lt}
use native.Mathlib.Decide.{dec_lt}
use sys_programming_explorat.Base.{
  ℕ, zero, suc, ◌+◌, ◌-◌, ◌%◌, ◌≤◌, ◌<◌, ◌≡◌, ◌⊎◌, inl, inr, refl, sym, ap, ap₂, subst, ◌∙◌, List,
  [], ◌∷◌, ◌++◌, map, append-nil, append_assoc, Bool, false, Option, none, some, arith, length,
  length-map, length-drop, take, drop, drop-map, take_split, ℤ, Option-cases, eq-nil_of_length,
}
use sys_programming_explorat.MessageQueue.{MessageQueue, Memory, Client, first_offset, get_length}
use sys_programming_explorat.MessageQueue.Window.{window, length-window}
use sys_programming_explorat.MessageQueue.Validity.{mod-wrap, AllSome, waiting}
use sys_programming_explorat.MessageQueue.Flush.{send_all, send_all-refused, send_all-taken, lag}
use sys_programming_explorat.PollServer.{Network}
use sys_programming_explorat.PollServer.Delivery.{
  SameBut, Takes, IsNetwork, IsClient, posted, text_of, Delivered,
}

pub AllSome-drop {ℓ} :
    {A : Type ℓ} (k : ℕ) (xs : List (Option A)) → AllSome xs → AllSome (drop k xs)
AllSome-drop zero xs all = all
AllSome-drop (suc k) [] all = tt
AllSome-drop (suc k) (none ∷ xs) all = absurd all
AllSome-drop (suc k) (some x ∷ xs) all = AllSome-drop k xs all

-- The end of a stretch that does not go round.
drop-window :
    {Str : Type 0} (ms : List (Option Str)) (cap h n k : ℕ)
    → h + n ≤ cap
    → k ≤ n
    → drop k (window ms cap h n) ≡ window ms cap (h + k) (n - k)
drop-window ms cap h n zero fits le = ap₂ (window ms cap) (omega arith) (omega arith)
drop-window ms cap h zero (suc k) fits le = absurd (omega arith)
drop-window ms cap h (suc n) (suc k) fits le = elim (dec_lt (h + 1) cap) [
  | yes below ↦
      ap (λ j. drop k (window ms cap j n)) (mod-eq_of_lt {n = h + 1} {m = cap} below)
      ∙ drop-window ms cap (h + 1) n k (omega arith) (omega arith)
      ∙ ap₂ (window ms cap) (omega arith) (omega arith)
  | no last ↦
      eq-nil_of_length (drop k (window ms cap ((h + 1) % cap) n)) (
        omega (
          arith,
          length-drop k (window ms cap ((h + 1) % cap) n),
          length-window ms cap ((h + 1) % cap) n,
        ))
      ∙ sym (
          eq-nil_of_length (window ms cap (h + suc k) (suc n - suc k))
            (omega (arith, length-window ms cap (h + suc k) (suc n - suc k))))
]

module _ {Str Mem Net : Type 0} (m : Memory Str Mem) (n : Network Net)
    (handed : ℤ → Net → List (List ℕ)) (is_open : ℤ → Net → Bool)
    (law : IsNetwork handed is_open n) where
  SameBut-trans :
      (fd : ℤ) (net net' net'' : Net)
      → SameBut handed is_open fd net net'
      → SameBut handed is_open fd net' net''
      → SameBut handed is_open fd net net''
  SameBut-trans fd net net' net'' p q fd' differs =
      let (h, o) = p fd' differs in let (h', o') = q fd' differs in (h' ∙ h, o' ∙ o)

  -- What a run of writes on a descriptor leaves: the first messages were handed over, all of them
  -- unless a write failed.
  abbrev pub Handed : ℤ → Net → List (Option Str) → Bool × ℕ × Net → Type 0
  Handed fd net os (sent, k, net') =
      (k ≤ length os)
      × (handed fd net' ≡ handed fd net ++ take k (map (text_of m) os))
      × (is_open fd net' ≡ is_open fd net)
      × SameBut handed is_open fd net net'
      × ((sent ≡ false) ⊎ (k ≡ length os))

  Handed-none :
      (fd : ℤ) (s : Str) (os : List (Option Str)) (net net' : Net)
      → Takes handed is_open fd (m.text s) net (none, net')
      → Handed fd net (some s ∷ os) (false, 0, net')
  Handed-none fd s os net net' same = (
    omega arith,
    (same fd).0 ∙ sym (append-nil (handed fd net)),
    (same fd).1,
    (λ fd' differs. same fd'),
    inl refl,
  )

  Handed-some :
      (fd : ℤ) (s : Str) (os : List (Option Str)) (net net' : Net) (taken : ℕ) (r : Bool × ℕ × Net)
      → Takes handed is_open fd (m.text s) net (some taken, net')
      → Handed fd net' os r
      → Handed fd net (some s ∷ os) (r.0, r.1 + 1, r.2)
  Handed-some fd s os net net' taken (sent, k, net'') (got, up, but) (most, more, up', but', ends) =
      let one_more : take (k + 1) (m.text s ∷ map (text_of m) os)
          ≡ m.text s ∷ take k (map (text_of m) os) =
        ap (λ j. take j (m.text s ∷ map (text_of m) os)) {y = suc k} (omega arith) in
      (
        omega arith,
        more
            ∙ ap (λ l. l ++ take k (map (text_of m) os)) got
            ∙ append_assoc (handed fd net) (m.text s ∷ []) (take k (map (text_of m) os))
            ∙ ap (◌++◌ (handed fd net)) (sym one_more),
        up' ∙ up,
        SameBut-trans fd net net' net'' but but',
        elim ends [ inl e ↦ inl e | inr e ↦ inr (omega arith) ],
      )

  pub send_all-Handed :
      (fd : ℤ) (os : List (Option Str)) (net : Net)
      → AllSome os
      → Handed fd net os (send_all m n.write fd os net)
  unfolding send_all
  send_all-Handed fd [] net all =
      (omega arith, sym (append-nil (handed fd net)), refl, (λ fd' differs. (refl, refl)), inr refl)
  send_all-Handed fd (none ∷ os) net all = absurd all
  send_all-Handed fd (some s ∷ os) net all =
      let net' : Net = (n.write fd (m.text s) net).1 in
      let taken = law.writes fd (m.text s) net in
      elim (Option-cases (n.write fd (m.text s) net).0) [
        | inl e ↦
            subst (Handed fd net (some s ∷ os)) (sym (send_all-refused m n.write fd s os net e)) (
              Handed-none fd s os net net'
                (subst (λ o. Takes handed is_open fd (m.text s) net (o, net')) e taken))
        | inr (k, e) ↦
            subst (Handed fd net (some s ∷ os)) (sym (send_all-taken m n.write fd s os net k e)) (
              Handed-some fd s os net net' k (send_all m n.write fd os net')
                (subst (λ o. Takes handed is_open fd (m.text s) net (o, net')) e taken)
                (send_all-Handed fd os net' all))
      ]

  -- In a queue with room from which nothing was taken, the messages stand before the end.
  pub length-posted :
      (net : Net) (mq : MessageQueue Str)
      → Delivered handed is_open m net mq
      → (get_length mq ≡ mq.end) × (length (posted m mq) ≡ mq.end)
  unfolding get_length
  length-posted net mq d =
      let all : get_length mq ≡ mq.end = elim (Option-cases mq.start) [
        | inl e ↦ ground (arith, e, d.aligned)
        | inr (i, e) ↦ ground (arith, e, d.first, d.room, d.valid.end_in)
      ] in
      (
        all,
        length-map (text_of m) (waiting mq)
            ∙ length-window mq.messages mq.capacity (first_offset mq) (get_length mq)
            ∙ all,
      )

  -- What a client is still to be handed.
  pub ahead :
      (net : Net) (mq : MessageQueue Str) (roff : ℕ)
      → Delivered handed is_open m net mq
      → roff ≤ mq.end
      → window mq.messages mq.capacity roff (lag m n.write mq roff) ≡ drop roff (waiting mq)
  ahead net mq roff d le =
      let (all, _) = length-posted net mq d in
      let below : mq.end < mq.capacity = d.valid.end_in in
      let behind : lag m n.write mq roff ≡ mq.end - roff =
        mod-wrap mq.capacity (mq.end - roff) (mq.end + (mq.capacity - roff)) (omega arith)
          (omega arith) in
      ap (window mq.messages mq.capacity roff) behind
      ∙ sym (
          drop-window mq.messages mq.capacity 0 mq.end roff (omega arith) le
          ∙ ap (λ j. window mq.messages mq.capacity j (mq.end - roff)) {x = 0 + roff} (omega arith))
      ∙ ap (drop roff) (sym (ap₂ (window mq.messages mq.capacity) d.first all))

  -- A client has moved on by `k` messages, which it was handed.
  pub moved_on :
      (net net' : Net) (mq : MessageQueue Str) (c : Client) (sent : Bool) (k : ℕ)
      → Delivered handed is_open m net mq
      → IsClient handed is_open net (posted m mq) c
      → Handed c.fd net (drop c.roff (waiting mq)) (sent, k, net')
      → (c.roff + k ≤ mq.end)
        × IsClient handed is_open net' (posted m mq) (record c { roff = c.roff + k })
        × ((sent ≡ false) ⊎ (c.roff + k ≡ mq.end))
  moved_on net net' mq c sent k d (below, got, live) (most, more, up, but, ends) =
      let log : List (List ℕ) = posted m mq in
      let (all, every) = length-posted net mq d in
      let left : length (drop c.roff (waiting mq)) ≡ mq.end - c.roff = omega (
        arith,
        length-drop c.roff (waiting mq),
        length-window mq.messages mq.capacity (first_offset mq) (get_length mq),
      ) in
      let handed_on : handed c.fd net' ≡ take (c.roff + k) log =
        more
        ∙ ap (λ l. l ++ take k (map (text_of m) (drop c.roff (waiting mq)))) got
        ∙ ap (λ l. take c.roff log ++ take k l) (sym (drop-map (text_of m) c.roff (waiting mq)))
        ∙ sym (take_split c.roff k (c.roff + k) log refl) in
      (
        omega arith,
        (omega arith, handed_on, up ∙ live),
        elim ends [ inl e ↦ inl e | inr e ↦ inr (omega arith) ],
      )

-- ===== src/MessageQueue/Fifo.antt =====
-- message_queue__q and message_queue__dq against a first-in first-out list of messages.
use native.Mathlib.Nat.{mod-lt, mod-eq_of_lt, mod-add-mod}
use native.Mathlib.Decide.{dec_lt}
use sys_programming_explorat.Base.{
  Bool-cases, ◌||◌, ltb, ℕ, zero, suc, ◌+◌, ◌-◌, ◌%◌, ◌*◌, ◌/◌, ◌^◌, ◌≤◌, ◌<◌, ◌≡◌, ◌≢◌, ◌⊎◌, inl,
  inr, refl, sym, ap, ap₂, subst, ◌∙◌, List, [], ◌∷◌, ◌++◌, Option, none, some, arith, length,
  replicate, get_elem?, get_elem?-lt, length-set, length-replicate, eq-nil_of_length, replicate,
  ◌^◌, set, Option-cases,
}
use sys_programming_explorat.MessageQueue.{
  mqerr_full, is_start, MessageQueue, Memory, slot, get_length, first_offset, store, q, dq, get,
  advance, init, message, null, fault, done, max_message_length,
}
use sys_programming_explorat.MessageQueue.Window.{
  get_elem?-window, length-window, window, window-snoc, window-set_outside, slot-set_self,
}
use sys_programming_explorat.MessageQueue.Validity.{
  AllSome, waiting, IsValid, IsAligned, get_length_bounds, end-eq, mod-wrap,
}

AllSome-snoc {ℓ} :
    {A : Type ℓ} (xs : List (Option A)) (a : A) → AllSome xs → AllSome (xs ++ (some a ∷ []))
AllSome-snoc [] a h = tt
AllSome-snoc (none ∷ xs) a h = absurd h
AllSome-snoc (some x ∷ xs) a h = AllSome-snoc xs a h

AllSome-head {ℓ} :
    {A : Type ℓ} (o : Option A) (xs : List (Option A)) → AllSome (o ∷ xs) → (a : A) × (o ≡ some a)
AllSome-head none xs h = absurd h
AllSome-head (some a) xs h = (a, refl)

next_index :
    (cap e : ℕ)
    → e < cap
    → ((e + 1 < cap) × ((e + 1) % cap ≡ e + 1)) ⊎ ((e + 1 ≡ cap) × ((e + 1) % cap ≡ 0))
next_index cap e h = elim (dec_lt (e + 1) cap) [
  | yes p ↦ inl (p, mod-eq_of_lt {n = e + 1} {m = cap} p)
  | no p ↦ inr (omega arith, mod-wrap cap 0 (e + 1) (omega arith) (omega arith))
]

-- The end of a ring that is not full stands `capacity - length` steps before its start.
start_behind_end :
    (cap f n e : ℕ) → f < cap → n < cap → e ≡ (f + n) % cap → f ≡ (e + (cap - n)) % cap
start_behind_end cap f n e hf hn h = sym (
    ap (λ (j : ℕ). (j + (cap - n)) % cap) h
    ∙ mod-add-mod (f + n) cap (cap - n)
    ∙ mod-wrap cap f (f + n + (cap - n)) hf (omega arith))

module _ {Str : Type 0} where
  -- Where the ring starts behind `store`, and how long it is.
  pub store_length :
      (mq : MessageQueue Str) (s : Str)
      → IsValid mq
      → IsAligned mq.start mq.end
      → mq.start ≢ some mq.end
      → (first_offset (store mq s) ≡ first_offset mq)
        × (get_length (store mq s) ≡ get_length mq + 1)
        × (mq.end ≡ (first_offset mq + get_length mq) % mq.capacity)
        × (get_length mq < mq.capacity)
  unfolding store get_length
  store_length mq s v al ne = elim (Option-cases mq.start) [
    | inl e ↦ ground (
      arith,
      next_index mq.capacity mq.end v.end_in,
      mod-eq_of_lt {n = 0} {m = mq.capacity} v.positive,
    )
    | inr (i, e) ↦ ground (arith, next_index mq.capacity mq.end v.end_in, end-eq {mq = mq} i v e)
  ]

  first_offset-lt : (mq : MessageQueue Str) → IsValid mq → first_offset mq < mq.capacity
  first_offset-lt mq v = ground arith

  window-store :
      (mq : MessageQueue Str) (s : Str) (f n : ℕ)
      → window (store mq s).messages (store mq s).capacity f (suc n)
        ≡ window (set mq.messages mq.end (some s)) mq.capacity f (suc n)
  unfolding store
  window-store mq s f n = refl

  pub store-waiting :
      (mq : MessageQueue Str) (s : Str)
      → IsValid mq
      → IsAligned mq.start mq.end
      → mq.start ≢ some mq.end
      → waiting (store mq s) ≡ waiting mq ++ (some s ∷ [])
  store-waiting mq s v al ne =
      let (h, n, e, lt) = store_length mq s v al ne in
      let f : ℕ = first_offset mq in
      let ms : List (Option Str) = set mq.messages mq.end (some s) in
      let f_lt : f < mq.capacity = first_offset-lt mq v in
      ap₂ (window (store mq s).messages (store mq s).capacity) {v = suc (get_length mq)} h
        (n ∙ omega arith)
      ∙ window-store mq s f (get_length mq)
      ∙ window-snoc ms mq.capacity f (get_length mq) mq.end f_lt e
      ∙ ap₂ (λ w o. w ++ (o ∷ []))
          (window-set_outside mq.messages mq.capacity mq.end (mq.capacity - get_length mq) f
            (get_length mq) (some s) v.end_in (omega arith) (omega arith)
            (start_behind_end mq.capacity f (get_length mq) mq.end f_lt lt e))
          (slot-set_self mq.messages mq.end (some s) (omega arith))

  pub store-IsValid :
      (mq : MessageQueue Str) (s : Str)
      → IsValid mq
      → IsAligned mq.start mq.end
      → mq.start ≢ some mq.end
      → IsValid (store mq s) × IsAligned (store mq s).start (store mq s).end
  unfolding store
  store-IsValid mq s v al ne = (
    record {
      positive = v.positive;
      small = v.small;
      stored = length-set mq.messages mq.end (some s) ∙ v.stored;
      start_in = ground arith;
      end_in = mod-lt (mq.end + 1) v.positive;
      filled =
          subst AllSome (sym (store-waiting mq s v al ne)) (AllSome-snoc (waiting mq) s v.filled);
    },
    ground arith,
  )

  pub store-capacity : (mq : MessageQueue Str) (s : Str) → (store mq s).capacity ≡ mq.capacity
  unfolding store
  store-capacity mq s = refl

  pub store-clients : (mq : MessageQueue Str) (s : Str) → (store mq s).clients ≡ mq.clients
  unfolding store
  store-clients mq s = refl

  get_length-none : (mq : MessageQueue Str) → mq.start ≡ none → get_length mq ≡ 0
  unfolding get_length
  get_length-none mq e = ground arith

  length-waiting : (mq : MessageQueue Str) → length (waiting mq) ≡ get_length mq
  length-waiting mq = length-window mq.messages mq.capacity (first_offset mq) (get_length mq)

  advance_length :
      (mq : MessageQueue Str) (s : ℕ)
      → IsValid mq
      → mq.start ≡ some s
      → (get_length mq ≡ suc (get_length (advance mq s)))
        × ((get_length (advance mq s) ≡ 0) ⊎ (first_offset (advance mq s) ≡ (s + 1) % mq.capacity))
  unfolding advance get_length
  advance_length mq s v e = ground (arith, next_index mq.capacity s)

  window_agree :
      (ms : List (Option Str)) (cap a b k : ℕ)
      → (k ≡ 0) ⊎ (b ≡ a)
      → window ms cap a k ≡ window ms cap b k
  window_agree ms cap a b zero h = refl
  window_agree ms cap a b (suc k) (inl h) = absurd (omega arith)
  window_agree ms cap a b (suc k) (inr h) = ap (λ j. window ms cap j (suc k)) (sym h)

  window-advance :
      (mq : MessageQueue Str) (s f k : ℕ)
      → window (set mq.messages s none) mq.capacity f k
        ≡ window (advance mq s).messages (advance mq s).capacity f k
  unfolding advance
  window-advance mq s f k = refl

  first_offset-some : (mq : MessageQueue Str) (s : ℕ) → mq.start ≡ some s → first_offset mq ≡ s
  first_offset-some mq s e = ground arith

  advance-waiting :
      (mq : MessageQueue Str) (s : ℕ)
      → IsValid mq
      → mq.start ≡ some s
      → waiting mq ≡ slot mq.messages s ∷ waiting (advance mq s)
  advance-waiting mq s v e =
      let (n, first) = advance_length mq s v e in
      let (_, most) = get_length_bounds {mq = mq} s v e in
      let k : ℕ = get_length (advance mq s) in
      let next : ℕ = (s + 1) % mq.capacity in
      let s_lt : s < mq.capacity = ground arith in
      ap₂ (window mq.messages mq.capacity) (first_offset-some mq s e) n
      ∙ ap (◌∷◌ (slot mq.messages s)) (
          sym (
            window-set_outside mq.messages mq.capacity s 1 next k none s_lt (omega arith)
              (omega arith) refl)
          ∙ window_agree (set mq.messages s none) mq.capacity next (first_offset (advance mq s)) k
              first
          ∙ window-advance mq s (first_offset (advance mq s)) k)

  first_filled :
      (mq : MessageQueue Str) (s : ℕ)
      → IsValid mq
      → mq.start ≡ some s
      → (str : Str) × (slot mq.messages s ≡ some str)
  first_filled mq s v e =
      AllSome-head (slot mq.messages s) (waiting (advance mq s))
        (subst AllSome (advance-waiting mq s v e) v.filled)

  advance-IsValid :
      (mq : MessageQueue Str) (s : ℕ) (str : Str)
      → IsValid mq
      → mq.start ≡ some s
      → slot mq.messages s ≡ some str
      → IsValid (advance mq s)
  unfolding advance
  advance-IsValid mq s str v e found = record {
    positive = v.positive;
    small = v.small;
    stored = length-set mq.messages s none ∙ v.stored;
    start_in = ground (arith, mod-lt (s + 1) v.positive);
    end_in = v.end_in;
    filled =
        subst (λ o. AllSome (o ∷ waiting (advance mq s))) found
          (subst AllSome (advance-waiting mq s v e) v.filled);
  }

module _ {Str Mem : Type 0} (m : Memory Str Mem) where
  -- What `q` makes of a queue: nothing else, or it stores a string.
  pub q_cases :
      (mq : MessageQueue Str) (msg : List ℕ) (mem : Mem)
      → ((q m mq msg mem).1 ≡ mq) ⊎ ((s : Str) × ((q m mq msg mem).1 ≡ store mq s))
  unfolding q
  q_cases mq msg mem = elim (Option-cases (m.sdsnewlen msg mem).0) [
    | inl none_had ↦ inl (ground arith)
    | inr (s, had) ↦
        elim (Bool-cases (is_start mq.start mq.end || ltb max_message_length (length msg))) [
          | inl refused ↦ inl (ground arith)
          | inr taken ↦ inr (s, ground arith)
        ]
  ]

  -- Only a full queue is answered to be full.
  pub q-mqerr_full :
      (mq : MessageQueue Str) (msg : List ℕ) (mem : Mem)
      → (q m mq msg mem).0 ≡ mqerr_full
      → mq.start ≡ some mq.end
  unfolding q
  q-mqerr_full mq msg mem e = grind (arith, e)

  -- On a well-formed queue that is not full and, where it is empty, starts over at index 0: `q`
  -- puts a message that is short enough, and that sdsnewlen can copy, behind all others, and keeps
  -- the queue well formed.
  pub q-waiting :
      (mq : MessageQueue Str) (msg : List ℕ) (mem mem' : Mem) (s : Str)
      → IsValid mq
      → IsAligned mq.start mq.end
      → mq.start ≢ some mq.end
      → length msg ≤ max_message_length
      → m.sdsnewlen msg mem ≡ (some s, mem')
      → let (status, mq', mem'') = q m mq msg mem in
        (status ≡ done)
        × (waiting mq' ≡ waiting mq ++ (some s ∷ []))
        × IsValid mq'
        × IsAligned mq'.start mq'.end
  unfolding q
  q-waiting mq msg mem mem' s v al ne short new =
      let runs : q m mq msg mem ≡ (done, store mq s, mem') = ground (arith) in
      let (v', al') = store-IsValid mq s v al ne in
      rw runs (refl, store-waiting mq s v al ne, v', al')

  -- On a well-formed queue where a message waits and sdsdup can copy it, `dq` hands out the copy
  -- of the oldest, takes that one out of the queue, and keeps the queue well formed.
  pub dq-waiting :
      (mq : MessageQueue Str) (str t : Str) (rest : List (Option Str)) (mem mem' : Mem)
      → IsValid mq
      → waiting mq ≡ some str ∷ rest
      → m.sdsdup str mem ≡ (some t, mem')
      → let (fetched, mq', mem'') = dq m mq mem in
        (fetched ≡ message t) × (waiting mq' ≡ rest) × IsValid mq'
  unfolding dq
  dq-waiting mq str t rest mem mem' v w copy = elim (Option-cases mq.start) [
    | inl e ↦ absurd (omega (arith, ap length w, length-waiting mq, get_length-none mq e))
    | inr (s, e) ↦
        let both : slot mq.messages s ∷ waiting (advance mq s) ≡ some str ∷ rest =
          sym (advance-waiting mq s v e) ∙ w in
        let found : slot mq.messages s ≡ some str = cc in
        let left : waiting (advance mq s) ≡ rest = cc in
        let runs : dq m mq mem ≡ (message t, advance mq s, m.sdsfree str mem') = ground arith in
        rw runs (refl, left, advance-IsValid mq s str v e found)
  ]

  -- `dq` never calls sdsdup with NULL on a well-formed queue.
  pub dq-ne-fault : (mq : MessageQueue Str) (mem : Mem) → IsValid mq → (dq m mq mem).0 ≢ fault
  unfolding dq
  dq-ne-fault mq mem v h = elim (Option-cases mq.start) [
    | inl e ↦ ground arith
    | inr (s, e) ↦ let (str, found) = first_filled mq s v e in ground (arith, found)
  ]

  -- On a well-formed queue, `get` hands out the copy that sdsdup makes of the message that waits
  -- at the index, counted from the oldest, also where the ring wraps.
  pub get-waiting :
      (mq : MessageQueue Str) (i : ℕ) (str t : Str) (mem mem' : Mem)
      → IsValid mq
      → get_elem? (waiting mq) i ≡ some (some str)
      → m.sdsdup str mem ≡ (some t, mem')
      → get m mq i mem ≡ (message t, mem')
  unfolding get
  get-waiting mq i str t mem mem' v at copy =
      let below : i < get_length mq =
        omega (arith, get_elem?-lt (waiting mq) i at, length-waiting mq) in
      elim (Option-cases mq.start) [
        | inl e ↦ absurd (omega (arith, get_length-none mq e))
        | inr (s, e) ↦
            let seen : get_elem? (waiting mq) i ≡ some (slot mq.messages ((s + i) % mq.capacity)) =
              get_elem?-window mq.messages mq.capacity (first_offset mq) (get_length mq) i
                ((s + i) % mq.capacity) (first_offset-lt mq v) below
                (ap (λ (j : ℕ). (j + i) % mq.capacity) (sym (first_offset-some mq s e))) in
            let found : slot mq.messages ((s + i) % mq.capacity) ≡ some str = cc in ground arith
      ]

  pub get_past_end :
      (mq : MessageQueue Str) (i : ℕ) (mem : Mem) → get_length mq ≤ i → get m mq i mem ≡ (null, mem)
  unfolding get
  get_past_end mq i mem h = ground arith

  -- The queue that `init` makes.
  abbrev pub fresh : ℕ → MessageQueue Str
  fresh capacity = record {
    capacity = capacity;
    messages = replicate (8 * capacity % 2 ^ 64 / 8) none;
    start = none;
    end = 0;
    clients = [];
  }

  pub init-fresh :
      (capacity : ℕ) (mem mem' : Mem) (mq : MessageQueue Str)
      → init m capacity mem ≡ (some mq, mem')
      → (0 < capacity) × (fresh capacity ≡ mq)
  unfolding init
  init-fresh capacity mem mem' mq e = ground arith

  -- A queue that `init` makes, of a capacity below 2 ^ 61, is well formed and empty, and starts
  -- over at index 0.
  pub init-IsValid :
      (capacity : ℕ) (mem mem' : Mem) (mq : MessageQueue Str)
      → capacity < 2 ^ 61
      → init m capacity mem ≡ (some mq, mem')
      → IsValid mq × IsAligned mq.start mq.end × (waiting mq ≡ [])
  init-IsValid capacity mem mem' mq small e =
      let (positive, same) = init-fresh capacity mem mem' mq e in
      let none_waits : waiting (fresh capacity) ≡ [] =
        eq-nil_of_length (waiting (fresh capacity))
          (omega (arith, length-waiting (fresh capacity), get_length-none (fresh capacity) refl)) in
      subst (λ r. IsValid r × IsAligned r.start r.end × (waiting r ≡ [])) same
        (
          record {
            positive = positive;
            small = omega arith;
            stored = length-replicate (8 * capacity % 2 ^ 64 / 8) none ∙ omega arith;
            start_in = tt;
            end_in = positive;
            filled = subst AllSome (sym none_waits) tt;
          },
          refl,
          none_waits,
        )

-- ===== src/ReadBuffer/Assure.antt =====
-- readbuffer__assure: room at the write cursor.
use Prim.Native.String.{String}
use native.Mathlib.Decide.{dec_lt}
use sys_programming_explorat.Base.{
  ℕ, ◌+◌, ◌-◌, ◌^◌, ◌≤◌, ◌<◌, ◌≡◌, ◌⊎◌, inl, inr, refl, sym, ap, ◌∙◌, ◌∷◌, true, false, none, some,
  arith, length, slice, blit, length-blit, length-tabulate, slice-blit_self, size_max, Bool-cases,
  sub_size, add_size_exact, ge→ltb,
}
use sys_programming_explorat.Libc.{Allocator, Heap, free}
use sys_programming_explorat.ReadBuffer.{
  ReadBuffer, Result, ErrorCode, success, failure, overflow, allocation_failed, compact, reallocate,
  grow, assure, fresh_bytes, get_write_cursor_limit, next_power_of_two,
}
use sys_programming_explorat.ReadBuffer.Powers.{next_power_of_two-le, next_power_of_two_total}
use sys_programming_explorat.ReadBuffer.Validity.{
  IsValid, contents, contents-length, compact-IsValid, get_write_cursor_limit_exact,
}

-- Success: there is room for `n` bytes, and what could be read can still be read. Failure: the
-- buffer is as it was, and no block was kept or given up.
abbrev pub Assured : ReadBuffer → ℕ → Heap → Result × ReadBuffer × Heap → Type 0
Assured rb n h (r, rb', h') =
    ((r ≡ success) × IsValid rb' × (contents rb' ≡ contents rb) × (n ≤ get_write_cursor_limit rb'))
    ⊎ ((e : ErrorCode) × (m : String) × (r ≡ failure e m) × (rb' ≡ rb) × (h'.live ≡ h.live))

reallocated-IsValid :
    {rb : ReadBuffer} (a : Allocator) (n capacity p : ℕ) (h : Heap)
    → IsValid rb
    → 0 < n
    → rb.length + n ≤ capacity
    → capacity ≤ 2 ^ 63
    → let rb' : ReadBuffer = record rb {
      block = some p;
      bytes = blit (fresh_bytes a h capacity) 0 (contents rb);
      capacity = capacity;
      offset = 0;
    } in
      IsValid rb' × (contents rb' ≡ contents rb) × (n ≤ get_write_cursor_limit rb')
unfolding get_write_cursor_limit
reallocated-IsValid {rb} a n capacity p h v q fit small = (
  record {
    fits = omega arith;
    small = omega arith;
    stored =
        length-blit (fresh_bytes a h capacity) 0 (contents rb) room
        ∙ length-tabulate capacity 0 (a.junk h.requests);
    backed = omega arith;
  },
  ap (λ k. slice 0 k (blit (fresh_bytes a h capacity) 0 (contents rb))) (sym (contents-length v))
      ∙ slice-blit_self (fresh_bytes a h capacity) 0 (contents rb) room,
  omega arith,
)
  where
    room : 0 + length (contents rb) ≤ length (fresh_bytes a h capacity)
    room = omega (arith, contents-length v, length-tabulate capacity 0 (a.junk h.requests))

-- A new block takes the place of the old one, which is freed.
pub reallocate_granted :
    (a : Allocator) (rb : ReadBuffer) (capacity : ℕ) (h : Heap)
    → a.grants h.requests capacity ≡ true
    → reallocate a rb capacity h ≡ (
      success,
      record rb {
        block = some h.requests;
        bytes = blit (fresh_bytes a h capacity) 0 (contents rb);
        capacity = capacity;
        offset = 0;
      },
      free rb.block (record { requests = h.requests + 1; live = h.requests ∷ h.live }),
    )
unfolding reallocate
reallocate_granted a rb capacity h e = ground arith

reallocate_denied :
    (a : Allocator) (rb : ReadBuffer) (capacity : ℕ) (h : Heap)
    → a.grants h.requests capacity ≡ false
    → (m : String) × (reallocate a rb capacity h
        ≡ (failure allocation_failed m, rb, record h { requests = h.requests + 1 }))
unfolding reallocate
reallocate_denied a rb capacity h e = ("allocation failed", ground arith)

reallocate-Assured :
    {rb : ReadBuffer} (a : Allocator) (n capacity : ℕ) (h : Heap)
    → IsValid rb
    → 0 < n
    → rb.length + n ≤ capacity
    → capacity ≤ 2 ^ 63
    → Assured rb n h (reallocate a rb capacity h)
reallocate-Assured {rb} a n capacity h v q fit small =
    elim (Bool-cases (a.grants h.requests capacity)) [
      | inl granted ↦
          let (v', same, room) = reallocated-IsValid a n capacity h.requests h v q fit small in
          rw (reallocate_granted a rb capacity h granted) (inl (refl, v', same, room))
      | inr denied ↦
          let (m, e) = reallocate_denied a rb capacity h denied in
          rw e (inr (allocation_failed, m, refl, refl, refl))
    ]

-- The steps of `assure` that fail with an overflow, and the one that reallocates.
grow_overflow :
    (a : Allocator) (rb : ReadBuffer) (n : ℕ) (h : Heap)
    → IsValid rb
    → n ≤ size_max
    → 2 ^ 63 < rb.length + n
    → (m : String) × (grow a rb n h ≡ (failure overflow m, rb, h))
unfolding grow
grow_overflow a rb n h v s big = elim (dec_lt (size_max - rb.length) n) [
  | yes p ↦ ("requested capacity overflows", ground arith)
  | no p ↦ (
    "requested capacity overflows",
    rw (
      ge→ltb (sub_size size_max rb.length) n (omega arith),
      add_size_exact rb.length n (omega arith),
      no_power,
      grow,
    ),
  )
]
  where
    no_power : next_power_of_two (rb.length + n) ≡ none
    no_power = ground (arith, next_power_of_two_total (rb.length + n) (omega arith))

grow_reallocates :
    (a : Allocator) (rb : ReadBuffer) (n : ℕ) (h : Heap)
    → IsValid rb
    → 0 < n
    → n ≤ size_max
    → rb.length + n ≤ 2 ^ 63
    → (capacity : ℕ) × (rb.length + n ≤ capacity)
      × (capacity ≤ 2 ^ 63)
      × (grow a rb n h ≡ reallocate a rb capacity h)
unfolding grow
grow_reallocates a rb n h v q s fit = elim (next_power_of_two_total (rb.length + n) (omega arith)) [
  | inr (p, e) ↦ absurd (omega arith)
  | inl (p, r, e, up) ↦
      let (low, high) = next_power_of_two-le (rb.length + n) r (omega arith) e in
      (
        r,
        low,
        high,
        rw (
          ge→ltb (sub_size size_max rb.length) n (omega arith),
          add_size_exact rb.length n (omega arith),
          e,
          grow,
        ),
      )
]

grow-Assured :
    {rb : ReadBuffer} (a : Allocator) (n : ℕ) (h : Heap)
    → IsValid rb
    → 0 < n
    → n ≤ size_max
    → Assured rb n h (grow a rb n h)
grow-Assured {rb} a n h v q s = elim (dec_lt (2 ^ 63) (rb.length + n)) [
  | yes p ↦ let (m, e) = grow_overflow a rb n h v s p in rw e (inr (overflow, m, refl, refl, refl))
  | no p ↦
      let (capacity, low, high, e) = grow_reallocates a rb n h v q s (omega arith) in
      rw e (reallocate-Assured a n capacity h v q low high)
]

-- The three ways through `assure`.
assure_ways :
    (a : Allocator) (rb : ReadBuffer) (n : ℕ) (h : Heap)
    → IsValid rb
    → ((n ≤ get_write_cursor_limit rb) × (assure a rb n h ≡ (success, rb, h)))
      ⊎ ((n + rb.length ≤ rb.capacity) × (assure a rb n h ≡ (success, compact rb, h)))
      ⊎ ((rb.capacity < n + rb.length) × (assure a rb n h ≡ grow a rb n h))
unfolding assure get_write_cursor_limit
assure_ways a rb n h v = ground arith

compact_room :
    {rb : ReadBuffer} {n : ℕ}
    → IsValid rb
    → n + rb.length ≤ rb.capacity
    → n ≤ get_write_cursor_limit (compact rb)
unfolding compact get_write_cursor_limit
compact_room v room = omega arith

-- On a valid buffer, `assure` of any size either succeeds, with at least that much room to write
-- to and what can be read kept, or fails and leaves the buffer and the live blocks as they were.
pub assure-Assured :
    {rb : ReadBuffer} (a : Allocator) (n : ℕ) (h : Heap)
    → IsValid rb
    → n ≤ size_max
    → Assured rb n h (assure a rb n h)
assure-Assured {rb} a n h v s = elim (assure_ways a rb n h v) [
  | inl (room, e) ↦ rw e (inl (refl, v, refl, room))
  | inr (inl (room, e)) ↦
      let (v', same) = compact-IsValid v in rw e (inl (refl, v', same, compact_room v room))
  | inr (inr (short, e)) ↦ rw e (grow-Assured a n h v (omega arith) s)
]

-- On a valid buffer, with an allocator that grants every request, `assure` succeeds if the bytes
-- that can be read and the room asked for are 2 ^ 63 at most.
pub assure_succeeds :
    {rb : ReadBuffer} (a : Allocator) (n : ℕ) (h : Heap)
    → IsValid rb
    → n ≤ size_max
    → rb.length + n ≤ 2 ^ 63
    → ((k m : ℕ) → a.grants k m ≡ true)
    → (assure a rb n h).0 ≡ success
assure_succeeds {rb} a n h v s fit granted = elim (assure_ways a rb n h v) [
  | inl (room, e) ↦ ap (λ r. r.0) e
  | inr (inl (room, e)) ↦ ap (λ r. r.0) e
  | inr (inr (short, e)) ↦
      let (capacity, low, high, e') = grow_reallocates a rb n h v (omega arith) s fit in
      rw (e, e', reallocate_granted a rb capacity h (granted h.requests capacity))
]

-- On a valid buffer whose capacity is too small, where more than 2 ^ 63 bytes would be needed,
-- `assure` reports an overflow and changes nothing.
pub assure_overflows :
    {rb : ReadBuffer} (a : Allocator) (n : ℕ) (h : Heap)
    → IsValid rb
    → n ≤ size_max
    → 2 ^ 63 < rb.length + n
    → rb.capacity < n + rb.length
    → (m : String) × (assure a rb n h ≡ (failure overflow m, rb, h))
assure_overflows {rb} a n h v s big short = elim (assure_ways a rb n h v) [
  | inl (room, e) ↦ absurd (omega (arith, get_write_cursor_limit_exact v))
  | inr (inl (room, e)) ↦ absurd (omega arith)
  | inr (inr (_, e)) ↦ let (m, e') = grow_overflow a rb n h v s big in (m, e ∙ e')
]

-- ===== src/ReadBuffer/Contents.antt =====
-- A session with a buffer as a client runs it: assure, write through the cursor, commit, and
-- later view and consume. Against it stands a plain sequence of bytes.
use sys_programming_explorat.Base.{
  ℕ, ◌≤◌, ◌<◌, ◌≡◌, inl, inr, sym, ap, ◌∙◌, List, [], ◌∷◌, ◌++◌, append_assoc, append-nil, arith,
  length, take, take-append-drop, subst, size_max, refl, leb, true, false, if◌then◌else◌,
}
use native.Mathlib.Decide.{dec_le}
use sys_programming_explorat.Libc.{Allocator, Heap}
use sys_programming_explorat.ReadBuffer.{
  ReadBuffer, success, failure, assure, commit_write, consume, get_write_cursor_limit,
}
use sys_programming_explorat.ReadBuffer.Validity.{
  IsValid, contents, written, commit_write_refused, consume-contents, consume_refused,
}
use sys_programming_explorat.ReadBuffer.Commits.{
  behind, limit_written, written-IsValid, commit_write_part,
}
use sys_programming_explorat.ReadBuffer.Assure.{assure-Assured}

-- The calls of a client. `put n bs k` is `assure` of `n`, then `bs` written through the cursor,
-- then a commit of `k` bytes.
pub data Op : Type 0 where
  reserve : ℕ → Op
  put : ℕ → List ℕ → ℕ → Op
  get : ℕ → Op

-- What a session has done: the bytes whose commit succeeded, the bytes that were consumed, and
-- what it leaves.
pub record Trace : Type 0 where
  pub accepted : List ℕ
  pub taken : List ℕ
  pub buffer : ReadBuffer
  pub heap : Heap

abbrev still : ReadBuffer → Heap → Trace
still rb h = record { accepted = []; taken = []; buffer = rb; heap = h }

-- A commit takes up the first `k` bytes that stand at the cursor, fewer than were written or more.
write_and_commit : List ℕ → ℕ → ReadBuffer → Heap → Trace
write_and_commit bs k rb h =
    let (r, rb') = commit_write (written rb bs) k in
    elim r [
      | success ↦ record {
        accepted = take k (bs ++ behind rb (length bs));
        taken = [];
        buffer = rb';
        heap = h;
      }
      | failure _ _ ↦ still rb' h
    ]

-- A client does not write more than the cursor's limit, and commits only where it has written.
put_within : List ℕ → ℕ → ReadBuffer → Heap → Trace
unfolding write_and_commit
put_within bs k rb h =
    if leb (length bs) (get_write_cursor_limit rb) then write_and_commit bs k rb h else still rb h

pub step : Allocator → Op → ReadBuffer → Heap → Trace
unfolding put_within
step a (reserve n) rb h = let (r, rb', h') = assure a rb n h in still rb' h'
step a (put n bs k) rb h =
    let (r, rb', h') = assure a rb n h in
    elim r [ success ↦ put_within bs k rb' h' | failure _ _ ↦ still rb' h' ]
step a (get n) rb h =
    let (r, rb') = consume rb n in
    elim r [
      | success ↦ record { accepted = []; taken = take n (contents rb); buffer = rb'; heap = h }
      | failure _ _ ↦ still rb' h
    ]

pub run : Allocator → List Op → ReadBuffer → Heap → Trace
run a [] rb h = still rb h
run a (op ∷ ops) rb h =
    let first = step a op rb h in
    let rest = run a ops first.buffer first.heap in
    record rest { accepted = first.accepted ++ rest.accepted; taken = first.taken ++ rest.taken }

-- Sizes are those of a size_t.
abbrev pub IsSized : List Op → Type 0
IsSized [] = Unit {0}
IsSized (reserve n ∷ ops) = (n ≤ size_max) × IsSized ops
IsSized (put n bs k ∷ ops) = (n ≤ size_max) × IsSized ops
IsSized (get n ∷ ops) = IsSized ops

head-IsSized : (op : Op) (ops : List Op) → IsSized (op ∷ ops) → IsSized (op ∷ [])
head-IsSized (reserve n) ops s = (s.0, tt)
head-IsSized (put n bs k) ops s = (s.0, tt)
head-IsSized (get n) ops s = tt

tail-IsSized : (op : Op) (ops : List Op) → IsSized (op ∷ ops) → IsSized ops
tail-IsSized (reserve n) ops s = s.1
tail-IsSized (put n bs k) ops s = s.1
tail-IsSized (get n) ops s = s

-- Nothing is lost, made up or reordered.
abbrev pub IsFifo : ReadBuffer → Trace → Type 0
IsFifo rb t = IsValid t.buffer × (contents rb ++ t.accepted ≡ t.taken ++ contents t.buffer)

still-IsFifo :
    (rb rb' : ReadBuffer) (h : Heap)
    → IsValid rb'
    → contents rb' ≡ contents rb
    → IsFifo rb (still rb' h)
still-IsFifo rb rb' h v same = (v, append-nil (contents rb) ∙ sym same)

write_and_commit-IsFifo :
    {rb : ReadBuffer} (bs : List ℕ) (k : ℕ) (h : Heap)
    → IsValid rb
    → length bs ≤ get_write_cursor_limit rb
    → IsFifo rb (write_and_commit bs k rb h)
unfolding write_and_commit
write_and_commit-IsFifo {rb} bs k h v room = elim (dec_le k (get_write_cursor_limit rb)) [
  | yes p ↦
      let (r, same, v') = commit_write_part bs k v room p in rw (r, write_and_commit) (v', sym same)
  | no p ↦
      let (v', same) = written-IsValid bs v room in
      let (e, refused) =
        commit_write_refused (written rb bs) k (omega (arith, limit_written rb bs)) in
      let rb' : ReadBuffer = (commit_write (written rb bs) k).1 in
      let back : rb' ≡ written rb bs = ap (λ r. r.1) refused in
      rw (ap (λ r. r.0) refused, write_and_commit)
        (still-IsFifo rb rb' h (subst IsValid (sym back) v') (ap contents back ∙ same))
]

put_within-IsFifo :
    {rb : ReadBuffer} (bs : List ℕ) (k : ℕ) (h : Heap)
    → IsValid rb
    → IsFifo rb (put_within bs k rb h)
unfolding put_within
put_within-IsFifo {rb} bs k h v = elim (dec_le (length bs) (get_write_cursor_limit rb)) [
  | yes p ↦
      let fit : leb (length bs) (get_write_cursor_limit rb) ≡ true = ground arith in
      subst (λ b. IsFifo rb (if b then write_and_commit bs k rb h else still rb h)) (sym fit)
        (write_and_commit-IsFifo bs k h v p)
  | no p ↦
      let unfit : leb (length bs) (get_write_cursor_limit rb) ≡ false = ground arith in
      subst (λ b. IsFifo rb (if b then write_and_commit bs k rb h else still rb h)) (sym unfit)
        (still-IsFifo rb rb h v refl)
]

reserve-IsFifo :
    {rb : ReadBuffer} (a : Allocator) (n : ℕ) (h : Heap)
    → IsValid rb
    → n ≤ size_max
    → IsFifo rb (step a (reserve n) rb h)
unfolding step
reserve-IsFifo {rb} a n h v s = elim (assure-Assured a n h v s) [
  | inl (e, v', same, room) ↦ still-IsFifo rb (assure a rb n h).1 (assure a rb n h).2 v' same
  | inr (e, m, failed, kept, _) ↦
      still-IsFifo rb (assure a rb n h).1 (assure a rb n h).2 (subst IsValid (sym kept) v)
        (ap contents kept)
]

put-IsFifo :
    {rb : ReadBuffer} (a : Allocator) (n : ℕ) (bs : List ℕ) (k : ℕ) (h : Heap)
    → IsValid rb
    → n ≤ size_max
    → IsFifo rb (step a (put n bs k) rb h)
unfolding step
put-IsFifo {rb} a n bs k h v s = elim (assure-Assured a n h v s) [
  | inl (e, v', same, room) ↦
      let put : Trace = put_within bs k (assure a rb n h).1 (assure a rb n h).2 in
      let (w, fifo) = put_within-IsFifo bs k (assure a rb n h).2 v' in
      rw (e, step) (w, ap (λ c. c ++ put.accepted) (sym same) ∙ fifo)
  | inr (e, m, failed, kept, _) ↦
      rw (failed, step)
        (subst IsValid (sym kept) v, append-nil (contents rb) ∙ ap contents (sym kept))
]

step-get_refused :
    (a : Allocator) (rb : ReadBuffer) (n : ℕ) (h : Heap)
    → rb.length < n
    → step a (get n) rb h ≡ still rb h
unfolding step
step-get_refused a rb n h p = ground (arith, (consume_refused rb n p).1)

get-IsFifo :
    {rb : ReadBuffer} (a : Allocator) (n : ℕ) (h : Heap)
    → IsValid rb
    → IsFifo rb (step a (get n) rb h)
unfolding step
get-IsFifo {rb} a n h v = elim (dec_le n rb.length) [
  | yes p ↦
      let (r, rest, v') = consume-contents n v p in
      rw (r, step)
        (
          v',
          append-nil (contents rb)
              ∙ sym (take-append-drop n (contents rb))
              ∙ ap (◌++◌ (take n (contents rb))) (sym rest),
        )
  | no p ↦ rw (step-get_refused a rb n h (omega arith)) (v, append-nil (contents rb))
]

step-IsFifo :
    {rb : ReadBuffer} (a : Allocator) (op : Op) (h : Heap)
    → IsValid rb
    → IsSized (op ∷ [])
    → IsFifo rb (step a op rb h)
step-IsFifo a (reserve n) h v s = reserve-IsFifo a n h v s.0
step-IsFifo a (put n bs k) h v s = put-IsFifo a n bs k h v s.0
step-IsFifo a (get n) h v s = get-IsFifo a n h v

-- Whatever a client assures, commits and consumes on a valid buffer, in sizes that a size_t can
-- hold, if what it writes stays within the cursor's limit, and whatever the allocator answers: the
-- bytes that were to be read at the start, followed by those taken up by the commits that
-- succeeded, are those consumed, followed by those still to be read, and the buffer stays valid. A
-- commit may be of fewer bytes than were assured or written, or be refused.
pub run-IsFifo :
    {rb : ReadBuffer} (a : Allocator) (ops : List Op) (h : Heap)
    → IsValid rb
    → IsSized ops
    → IsFifo rb (run a ops rb h)
unfolding run
run-IsFifo {rb} a [] h v s = (v, append-nil (contents rb))
run-IsFifo {rb} a (op ∷ ops) h v s =
    let first : Trace = step a op rb h in
    let rest : Trace = run a ops first.buffer first.heap in
    let (v', fifo) = step-IsFifo a op h v (head-IsSized op ops s) in
    let (w, later) = run-IsFifo {rb = first.buffer} a ops first.heap v' (tail-IsSized op ops s) in
    (
      w,
      sym (append_assoc (contents rb) first.accepted rest.accepted)
          ∙ ap (λ c. c ++ rest.accepted) fifo
          ∙ append_assoc first.taken (contents first.buffer) rest.accepted
          ∙ ap (◌++◌ first.taken) later
          ∙ sym (append_assoc first.taken rest.taken (contents rest.buffer)),
    )

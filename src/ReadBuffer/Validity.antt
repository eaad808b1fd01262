-- ===== src/ReadBuffer/Validity.antt =====
-- The representation invariant of `struct ReadBuffer`, and the operations that do not allocate.
use Prim.Native.String.{String}
use native.Mathlib.Decide.{dec_lt}
use sys_programming_explorat.Base.{
  subst, ℕ, ◌+◌, ◌-◌, ◌≤◌, ◌<◌, ◌≡◌, refl, [], inl, inr, Bool-cases, length-tabulate, ◌==◌, List,
  Option, none, some, arith, length, slice, blit, take, drop, length-blit, slice-blit_self,
  slice-blit_extend, size_max, ◌++◌, ap, ◌∙◌, sym, drop-drop, drop-take, eq-nil_of_length,
  length-drop, length-slice,
}
use sys_programming_explorat.Libc.{Allocator, Heap, malloc}
use sys_programming_explorat.ReadBuffer.{
  init, init_storage, fresh_bytes, sizeof_read_buffer, ReadBuffer, success, failure, out_of_range,
  compact, commit_write, consume, get_write_cursor_limit,
}

-- There is a block exactly if there is capacity.
abbrev pub IsBacked : Option ℕ → ℕ → Type 0
IsBacked none capacity = capacity ≡ 0
IsBacked (some p) capacity = 0 < capacity

pub record IsValid (rb : ReadBuffer) : Type 0 where
  pub fits : rb.offset + rb.length ≤ rb.capacity
  pub small : rb.capacity ≤ size_max
  pub stored : length rb.bytes ≡ rb.capacity
  pub backed : IsBacked rb.block rb.capacity

-- The bytes that a client may read, in order.
abbrev pub contents : ReadBuffer → List ℕ
contents rb = slice rb.offset rb.length rb.bytes

-- What a client that writes `bs` through the write cursor makes of the buffer.
abbrev pub written : ReadBuffer → List ℕ → ReadBuffer
written rb bs = record rb { bytes = blit rb.bytes (rb.offset + rb.length) bs }

pub contents-length : {rb : ReadBuffer} → IsValid rb → length (contents rb) ≡ rb.length
contents-length {rb} v = length-slice rb.offset rb.length rb.bytes (omega arith)

-- Moving the readable bytes to the front leaves them as they were.
pub compact-IsValid :
    {rb : ReadBuffer} → IsValid rb → IsValid (compact rb) × (contents (compact rb) ≡ contents rb)
unfolding compact
compact-IsValid {rb} v = (
  record {
    fits = omega arith;
    small = v.small;
    stored = length-blit rb.bytes 0 (contents rb) room ∙ v.stored;
    backed = v.backed;
  },
  ap (λ n. slice 0 n (compact rb).bytes) (sym (contents-length v))
      ∙ slice-blit_self rb.bytes 0 (contents rb) room,
)
  where
    room : 0 + length (contents rb) ≤ length rb.bytes
    room = omega (arith, contents-length v)

-- The limit counts the bytes behind the readable ones.
pub get_write_cursor_limit_exact :
    {rb : ReadBuffer}
    → IsValid rb
    → get_write_cursor_limit rb + (rb.offset + rb.length) ≡ rb.capacity
unfolding get_write_cursor_limit
get_write_cursor_limit_exact v = omega arith

-- A commit within the limit adds to the length.
pub commit_write_exact :
    {rb : ReadBuffer} (k : ℕ)
    → IsValid rb
    → k ≤ get_write_cursor_limit rb
    → commit_write rb k ≡ (success, record rb { length = rb.length + k })
unfolding commit_write
commit_write_exact {rb} k v h = ground (arith, get_write_cursor_limit_exact v)

commit_write_runs :
    {rb : ReadBuffer} (bs : List ℕ)
    → IsValid rb
    → length bs ≤ get_write_cursor_limit rb
    → commit_write (written rb bs) (length bs)
      ≡ (success, record (written rb bs) { length = rb.length + length bs })
unfolding commit_write
commit_write_runs {rb} bs v h = ground arith

-- On a valid buffer, bytes written through the cursor within its limit and committed are appended
-- to what can be read, and the buffer stays valid.
pub commit_write-contents :
    {rb : ReadBuffer} (bs : List ℕ)
    → IsValid rb
    → length bs ≤ get_write_cursor_limit rb
    → let (r, rb') = commit_write (written rb bs) (length bs) in
      (r ≡ success) × (contents rb' ≡ contents rb ++ bs) × IsValid rb'
commit_write-contents {rb} bs v h = rw (commit_write_runs bs v h) (
  refl,
  slice-blit_extend rb.bytes rb.offset rb.length (rb.length + length bs) bs room refl,
  record {
    fits = omega (arith, get_write_cursor_limit_exact v);
    small = v.small;
    stored = length-blit rb.bytes (rb.offset + rb.length) bs room ∙ v.stored;
    backed = v.backed;
  },
)
  where
    room : rb.offset + rb.length + length bs ≤ length rb.bytes
    room = omega (arith, get_write_cursor_limit_exact v)

-- A commit of more bytes than the limit is refused and changes nothing.
pub commit_write_refused :
    (rb : ReadBuffer) (n : ℕ)
    → get_write_cursor_limit rb < n
    → (e : String) × (commit_write rb n ≡ (failure out_of_range e, rb))
unfolding commit_write
commit_write_refused rb n h = ("write exceeds assured space", ground arith)

-- On a valid buffer, `consume` of no more than can be read drops that many bytes from the front,
-- also where it takes all and rewinds, and the buffer stays valid.
pub consume-contents :
    {rb : ReadBuffer} (n : ℕ)
    → IsValid rb
    → n ≤ rb.length
    → let (r, rb') = consume rb n in
      (r ≡ success) × (contents rb' ≡ drop n (contents rb)) × IsValid rb'
unfolding consume
consume-contents {rb} n v h = elim (dec_lt n rb.length) [
  | yes p ↦
      let e : consume rb n
          ≡ (success, record rb { offset = rb.offset + n; length = rb.length - n }) =
        ground arith in
      rw e (
        refl,
        ap (take (rb.length - n)) (sym (drop-drop rb.offset n (rb.offset + n) rb.bytes refl))
            ∙ sym (drop-take n (rb.length - n) rb.length (drop rb.offset rb.bytes) (omega arith)),
        record { fits = omega arith; small = v.small; stored = v.stored; backed = v.backed },
      )
  | no p ↦
      let e : consume rb n ≡ (success, record rb { offset = 0; length = 0 }) = ground arith in
      rw e (
        refl,
        sym (
            eq-nil_of_length (drop n (contents rb))
              (omega (arith, length-drop n (contents rb), contents-length v))),
        record { fits = omega arith; small = v.small; stored = v.stored; backed = v.backed },
      )
]

-- More bytes than can be read are not consumed.
pub consume_refused :
    (rb : ReadBuffer) (n : ℕ)
    → rb.length < n
    → (e : String) × (consume rb n ≡ (failure out_of_range e, rb))
unfolding consume
consume_refused rb n h = ("consume exceeds readable bytes", ground arith)

-- What `init` makes, where it makes one, is a valid buffer with nothing to read.
abbrev pub IsFresh : Option ReadBuffer → Type 0
IsFresh none = Unit {0}
IsFresh (some rb) = IsValid rb × (contents rb ≡ [])

-- A buffer that has nothing to read.
empty-IsFresh :
    (rb : ReadBuffer)
    → rb.offset ≡ 0
    → rb.length ≡ 0
    → rb.capacity ≤ size_max
    → length rb.bytes ≡ rb.capacity
    → IsBacked rb.block rb.capacity
    → IsFresh (some rb)
empty-IsFresh rb start nothing small stored backed =
    let v : IsValid rb = record {
      fits = omega arith;
      small = small;
      stored = stored;
      backed = backed;
    } in
    (v, eq-nil_of_length (contents rb) (contents-length v ∙ nothing))

abbrev fresh : ℕ → Option ℕ → List ℕ → ℕ → ReadBuffer
fresh self block bytes capacity = record {
  self = self;
  block = block;
  bytes = bytes;
  capacity = capacity;
  length = 0;
  offset = 0;
}

init_storage-IsFresh :
    (a : Allocator) (n self : ℕ) (h : Heap)
    → 0 < n
    → n ≤ size_max
    → IsFresh (init_storage a n self h).0
unfolding init_storage malloc
init_storage-IsFresh a n self h room small = elim (Bool-cases (a.grants h.requests n)) [
  | inl granted ↦
      let made : (init_storage a n self h).0
          ≡ some (fresh self (some h.requests) (fresh_bytes a h n) n) =
        ground arith in
      subst IsFresh (sym made) (
        empty-IsFresh (fresh self (some h.requests) (fresh_bytes a h n) n) refl refl small
          (length-tabulate n 0 (a.junk h.requests)) room)
  | inr refused ↦
      let made : (init_storage a n self h).0 ≡ none = ground arith in
      subst IsFresh (sym made) (record {})
]

pub init-IsFresh : (a : Allocator) (n : ℕ) (h : Heap) → n ≤ size_max → IsFresh (init a n h).0
unfolding init malloc
init-IsFresh a n h small = elim (Bool-cases (a.grants h.requests sizeof_read_buffer)) [
  | inr refused ↦
      let made : (init a n h).0 ≡ none = ground arith in subst IsFresh (sym made) (record {})
  | inl granted ↦ elim (Bool-cases (n == 0)) [
    | inl nothing ↦
        let made : (init a n h).0 ≡ some (fresh h.requests none [] 0) = ground arith in
        subst IsFresh (sym made)
          (empty-IsFresh (fresh h.requests none [] 0) refl refl (omega arith) refl refl)
    | inr something ↦
        let h' : Heap = (malloc a sizeof_read_buffer h).1 in
        let made : (init a n h).0 ≡ (init_storage a n h.requests h').0 = ground arith in
        subst IsFresh (sym made) (init_storage-IsFresh a n h.requests h' (ground arith) small)
  ]
]

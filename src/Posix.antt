-- ===== src/Posix.antt =====
-- The system calls of the socket programs, for tcp/polling/utils.c, tcp/pthreads and
-- tcp/single_connection. What the system answers is a parameter, which may depend on all that was
-- called before; the calls and their answers are recorded, the latest first.
pub mod Log
use sys_programming_explorat.Base.{
  ℕ, zero, suc, ◌≡◌, ap, ◌+◌, List, [], ◌∷◌, ◌++◌, Bool, true, false, Option, none, some, ℤ, pos,
  negsuc,
}

-- What recv(2) answers: bytes (none if the peer closed), or -1.
pub data Received : Type 0 where
  got : List ℕ → Received
  recv_error : Received

-- An address is an entry of the list that getaddrinfo answers, known by a number.
pub data Event : Type 0 where
  getaddrinfo : List ℕ → Option (List ℕ) → Event
  freeaddrinfo : Event
  socket : ℕ → ℤ → Event
  setsockopt : ℤ → Event
  bind : ℤ → ℕ → Bool → Event
  listen : ℤ → ℕ → Bool → Event
  accept : ℤ → ℤ → Event
  recv : ℤ → Received → Event
  -- The bytes handed over, and how many were taken; `none` for -1.
  send : ℤ → List ℕ → Option ℕ → Event
  close : ℤ → Event
  fork : ℤ → Event
  malloc : Bool → Event
  free : Event
  -- A thread for a client's descriptor, and whether it was created.
  pthread_create : ℤ → Bool → Event

abbrev pub History : Type 0
History = List Event

-- The answers, given the calls so far.
pub record System : Type 0 where
  -- The addresses of a port, which is given as text.
  pub resolves : History → List ℕ → Option (List ℕ)
  pub opens : History → ℕ → ℤ
  pub binds : History → ℤ → ℕ → Bool
  pub listens : History → ℤ → Bool
  pub accepts : History → ℤ → ℤ
  pub receives : History → ℤ → Received
  pub sends : History → ℤ → List ℕ → Option ℕ
  pub forks : History → ℤ
  pub grants : History → Bool
  pub creates : History → ℤ → Bool

-- A computation that makes calls; `none` is the end of the process in exit.
abbrev pub M : Type 0 → Type 0
M A = History → Option A × History

infixl 5 ◌>>=◌ ◌>>◌
abbrev pub ◌>>=◌ : {A B : Type 0} → M A → (A → M B) → M B
◌>>=◌ m f h = let (o, h') = m h in elim o [ none ↦ (none, h') | some a ↦ f a h' ]

abbrev pub ◌>>◌ : {A B : Type 0} → M A → M B → M B
m >> k = m >>= λ _. k

-- A bind at a run of its first part.
pub >>=-some :
    {A B : Type 0} (m : M A) (f : A → M B) (h h' : History) (a : A)
    → m h ≡ (some a, h')
    → (m >>= f) h ≡ f a h'
>>=-some {B = B} m f h h' a e =
    ap (λ r. elim r.0 as (λ o. Option B × History) [ none ↦ (none, r.1) | some x ↦ f x r.1 ]) e

pub >>=-none :
    {A B : Type 0} (m : M A) (f : A → M B) (h h' : History)
    → m h ≡ (none, h')
    → (m >>= f) h ≡ (none, h')
>>=-none {B = B} m f h h' e =
    ap (λ r. elim r.0 as (λ o. Option B × History) [ none ↦ (none, r.1) | some x ↦ f x r.1 ]) e

abbrev pub pure : {A : Type 0} → A → M A
pure a h = (some a, h)

abbrev pub exit : {A : Type 0} → M A
exit h = (none, h)

-- A call without an answer.
abbrev pub perform : Event → M (Unit {0})
perform e h = (some tt, e ∷ h)

-- A call whose answer is recorded with it.
abbrev pub call : {A : Type 0} → (A → Event) → (History → A) → M A
call event answer h = (some (answer h), event (answer h) ∷ h)

-- `fd > 0`
abbrev pub is_positive : ℤ → Bool
is_positive (pos zero) = false
is_positive (pos (suc n)) = true
is_positive (negsuc n) = false

-- `fd == -1`
abbrev pub is_minus_1 : ℤ → Bool
is_minus_1 (pos n) = false
is_minus_1 (negsuc zero) = true
is_minus_1 (negsuc (suc n)) = false

-- `fd < 0`
abbrev pub is_negative : ℤ → Bool
is_negative (pos n) = false
is_negative (negsuc n) = true

abbrev pub is_zero : ℤ → Bool
is_zero (pos zero) = true
is_zero (pos (suc n)) = false
is_zero (negsuc n) = false

-- ===== src/Tail/Following.antt =====
-- The loop of tail: what is written while others append to the file or cut it down.
use sys_programming_explorat.Base.{
  append-nil, ℕ, ℤ, pos, negsuc, ◌≤◌, ◌<◌, ◌≡◌, refl, sym, ap, subst, ◌∙◌, Bool, true, false, List,
  [], ◌∷◌, ◌++◌, Option, some, arith, length, drop, length-append, drop-append,
}
use sys_programming_explorat.LineStream.{Device}
use sys_programming_explorat.Tail.{
  Sink, write_till_eof, Host, Event, same_watch, on_modified, after_event, follow,
}
use sys_programming_explorat.Tail.Copying.{
  IsSink, EndedBy, Written, Written-append, Written-failed, write_till_eof-Ends,
}
use sys_programming_explorat.Tail.ReadAll.{
  left, IsFile, Reads-Delivers, ReadAll, ReadAllAfter, write_till_eof-ReadAll,
}

-- What others do to the file between two rounds.
pub data Effect : Type 0 where
  appended : List ℕ → Effect
  cut_down : List ℕ → Effect

-- What is to be seen of it: the bytes that were appended, or all of a shorter file.
abbrev pub shown : Effect → List ℕ
shown (appended more) = more
shown (cut_down shorter) = shorter

-- The content behind it.
abbrev pub behind : List ℕ → Effect → List ℕ
behind c (appended more) = c ++ more
behind c (cut_down shorter) = shorter

abbrev pub IsEffect : List ℕ → Effect → Type 0
IsEffect c (appended more) = Unit {0}
IsEffect c (cut_down shorter) = length shorter < length c

module _ {S : Type 0} (content : S → List ℕ) (offset : S → ℕ) where
  -- A change that has the effect on a file with content `c`, and leaves the descriptor's offset.
  abbrev pub Does : List ℕ → (S → S) → Effect → Type 0
  Does c change effect =
      (s : S)
      → content s ≡ c
      → (content (change s) ≡ behind c effect) × (offset (change s) ≡ offset s)

  -- `Changes wd c events new`: each event is one of the watch, with an effect on the file, whose
  -- content is `c` before them; `new` is what is to be seen of all of them.
  pub data Changes (wd : ℤ) : List ℕ → List (Event S) → List ℕ → Type 0 where
    nothing : (c : List ℕ) → Changes wd c [] []
    then_effect :
        (c : List ℕ) (change : S → S) (effect : Effect) (events : List (Event S)) (new : List ℕ)
        → IsEffect c effect
        → Does c change effect
        → Changes wd (behind c effect) events new
        → Changes wd c ((some wd, change) ∷ events) (shown effect ++ new)

  -- fstat and lseek on the file.
  pub record IsHost (host : Host S) : Type 0 where
    pub sized : (s : S) → host.stat_size s ≡ some (length (content s))
    pub current : (s : S) → host.seek_current s ≡ some (offset s)
    pub restart :
        (s : S) → (content (host.seek_start s) ≡ content s) × (offset (host.seek_start s) ≡ 0)

same_watch_refl : (wd : ℤ) → same_watch wd wd ≡ true
same_watch_refl (pos n) = ground arith
same_watch_refl (negsuc n) = ground arith

module _ {S Out : Type 0} (content : S → List ℕ) (offset : S → ℕ) (output : Out → List ℕ)
    (host : Host S) (system : IsHost content offset host) (read : Device S)
    (law : IsFile content offset read) (write : Sink Out) (sink : IsSink output write)
    (fd : ℤ) where
  -- A round whose reads begin where `new` is left of the file.
  abbrev Shows : List ℕ → List ℕ → List ℕ → Option (Bool × S × Out) → Type 0
  Shows before new c r =
      (went : Bool) × (s : S) × (out : Out) × (r ≡ some (went, s, out))
      × Written before new went (output out)
      × EndedBy output write read fd went s out
      × ReadAll content offset c went s

  write_till_eof-Shows :
      (fuel : ℕ) (s : S) (out : Out) (c new : List ℕ)
      → content s ≡ c
      → offset s ≤ length c
      → drop (offset s) (content s) ≡ new
      → length new < fuel
      → Shows (output out) new c (write_till_eof write read fd fuel s out)
  write_till_eof-Shows fuel s out c new here low rest enough =
      let (went, s', out', e, w, why) =
        write_till_eof-Ends output write sink (left content offset) read fd fuel s out
          (λ fd' n s'' p. Reads-Delivers content offset n s'' (read fd' n s'') (law fd' n s'' p))
          (omega (arith, ap length rest)) in
      (
        went,
        s',
        out',
        e,
        subst (λ l. Written (output out) l went (output out')) rest w,
        why,
        subst (ReadAllAfter content offset write read law fd c) e
            (write_till_eof-ReadAll content offset write read law fd fuel c s out here low),
      )

  goes_on :
      (fuel : ℕ) (s : S) (out : Out)
      → offset s ≤ length (content s)
      → write_till_eof write read fd fuel s out ≡ on_modified host read write fd fuel s out
  unfolding on_modified
  goes_on fuel s out long = grind (arith, system.sized s, system.current s)

  starts_again :
      (fuel : ℕ) (s : S) (out : Out)
      → length (content s) < offset s
      → write_till_eof write read fd fuel (host.seek_start s) out
        ≡ on_modified host read write fd fuel s out
  unfolding on_modified
  starts_again fuel s out short = grind (arith, system.sized s, system.current s)

  on_modified-Shows :
      (fuel : ℕ) (s : S) (out : Out) (c : List ℕ) (effect : Effect)
      → IsEffect c effect
      → content s ≡ behind c effect
      → offset s ≡ length c
      → length (shown effect) < fuel
      → Shows
          (output out)
          (shown effect)
          (behind c effect)
          (on_modified host read write fd fuel s out)
  on_modified-Shows fuel s out c (appended more) ok here at enough =
      let rest : drop (offset s) (content s) ≡ more =
        ap (drop (offset s)) here ∙ drop-append (offset s) c more at in
      subst (Shows (output out) more (c ++ more))
        (goes_on fuel s out (omega (arith, ap length here, length-append c more)))
        (write_till_eof-Shows fuel s out (c ++ more) more here (omega (arith, length-append c more))
          rest enough)
  on_modified-Shows fuel s out c (cut_down shorter) ok here at enough =
      let (same, start) = system.restart s in
      let rest : drop (offset (host.seek_start s)) (content (host.seek_start s)) ≡ shorter =
        ap (λ n. drop n (content (host.seek_start s))) start ∙ same ∙ here in
      subst (Shows (output out) shorter shorter)
        (starts_again fuel s out (omega (arith, ap length here)))
        (write_till_eof-Shows fuel (host.seek_start s) out shorter shorter (same ∙ here)
          (omega arith) rest enough)

  abbrev Followed : List ℕ → List ℕ → Option (Bool × S × Out) → Type 0
  Followed before new r =
      (went : Bool) × (s : S) × (out : Out) × (r ≡ some (went, s, out))
      × Written before new went (output out)
      × EndedBy output write read fd went s out

  -- A round and the rounds behind it.
  then_rounds :
      (again : S → Out → Option (Bool × S × Out)) (before first new c : List ℕ)
      (r : Option (Bool × S × Out))
      → Shows before first c r
      → ((s : S) (out : Out)
          → content s ≡ c
          → offset s ≡ length c
          → Followed (output out) new (again s out))
      → Followed before (first ++ new) (after_event host read write again r)
  unfolding after_event
  then_rounds again before first new c r (true, s, out, e, w, _, (here, at)) k =
      let (went, s', out', e', w', why) = k s out here at in
      (
        went,
        s',
        out',
        ap (after_event host read write again) e ∙ e',
        Written-append before first new went (output out')
            (subst (λ o. Written o new went (output out')) w w'),
        why,
      )
  then_rounds again before first new c r (false, s, out, e, w, why, _) k = (
    false,
    s,
    out,
    ap (after_event host read write again) e,
    Written-failed before first new (output out) w,
    why,
  )

  -- Where fstat and lseek answer for the file, read delivers it from its offset on, and write takes
  -- at least one byte from the front or fails: from a moment where the file was read up to its end,
  -- through events with which others append bytes or cut the file down to shorter ones, follow
  -- returns, with fuel above the bytes to be seen. It writes, in order, the bytes appended and all
  -- of a file that was cut down, none twice; or the process ends, a first part is written, and the
  -- last read of the file or the last write has failed.
  pub follow-Followed :
      (wd : ℤ) (fuel : ℕ) (events : List (Event S)) (s : S) (out : Out) (c new : List ℕ)
      → Changes content offset wd c events new
      → content s ≡ c
      → offset s ≡ length c
      → length new < fuel
      → Followed (output out) new (follow host read write wd fd fuel events s out)
  unfolding follow
  follow-Followed wd fuel events s out c new (nothing c') here at enough =
      (true, s, out, refl, sym (append-nil (output out)), tt)
  follow-Followed wd fuel events s out c new (then_effect c' change effect rest new' ok does more)
        here at enough =
      let (here', at') = does s here in
      let again = follow host read write wd fd fuel rest in
      let round = on_modified host read write fd fuel (change s) out in
      let first =
        on_modified-Shows fuel (change s) out c effect ok here' (at' ∙ at)
          (omega (arith, length-append (shown effect) new')) in
      rw (same_watch_refl wd) (
        then_rounds again (output out) (shown effect) new' (behind c effect) round first
          (λ s' out' h a.
            follow-Followed wd fuel rest s' out' (behind c effect) new' more h a
              (omega (arith, length-append (shown effect) new'))))

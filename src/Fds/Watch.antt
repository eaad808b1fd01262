-- ===== src/Fds/Watch.antt =====
-- fd_state__watch and fd_state__unwatch on the set of descriptors.
use mathlib.Core.List.{
  mem-append, mem-cons_self, mem-cons_of_mem, Mem, Nodup, Perm, mem-cons, not-mem-nil, Nodup-cons,
  Mem-prop, perm_middle, map-append,
}
use mathlib.Core.List.Perm
use mathlib.Core.Logic.Or
use sys_programming_explorat.Base.{
  complement, suc, ◌≤◌, ◌≡◌, ◌≢◌, ◌↔◌, ◌⊎◌, inl, inr, refl, sym, ap, subst, append-nil, ◌∙◌, List,
  [], ◌∷◌, ◌++◌, map, true, false, arith, leb, length, length-append, ℤ, eq_int, eq_int_iff,
  Bool-cases,
}
use sys_programming_explorat.Fds.{
  no_events, Pollfd, Fds, is_watched, watch, last_or, init_list, swap_remove, remove_fd, unwatch,
  empty, default_fds_capacity,
}

never_prop : IsProp ⊥
never_prop x y = absurd x

abbrev pub fds_of : List Pollfd → List ℤ
fds_of = map λ p. p.fd

swap_remove-perm : (r : Pollfd) (rs : List Pollfd) → Perm (r ∷ rs) (last_or r rs ∷ init_list r rs)
unfolding last_or init_list
swap_remove-perm r [] = Perm.refl (r ∷ [])
swap_remove-perm r (s ∷ rs) =
    Perm.trans (Perm.cons r (swap_remove-perm s rs)) (Perm.swap (last_or s rs) r (init_list s rs))

swap_remove_all : (ps : List Pollfd) → Perm ps (swap_remove ps)
swap_remove_all [] = Perm.refl []
swap_remove_all (r ∷ rs) = swap_remove-perm r rs

-- What `remove_fd` takes out: the first entry of the descriptor, if there is one.
pub remove_fd-perm :
    (ps : List Pollfd) (fd : ℤ)
    → ((remove_fd ps fd ≡ ps) × ¬ (Mem fd (fds_of ps)))
      ⊎ ((p : Pollfd) × (p.fd ≡ fd) × Perm ps (p ∷ remove_fd ps fd))
unfolding remove_fd
remove_fd-perm [] fd = inl (refl, not-mem-nil)
remove_fd-perm (p ∷ ps) fd = elim (Bool-cases (eq_int p.fd fd)) [
  | inl hit ↦ rw hit (inr (p, (eq_int_iff p.fd fd).0 hit, Perm.cons p (swap_remove_all ps)))
  | inr miss ↦ rw miss (elim (remove_fd-perm ps fd) [
    | inl (same, absent) ↦ inl (
      ap (◌∷◌ p) same,
      λ mem. Or.elim never_prop (mem-cons.0 mem) (λ e. differs miss (sym e)) absent,
    )
    | inr (x, e, perm) ↦ inr (x, e, Perm.trans (Perm.cons p perm) (Perm.swap x p (remove_fd ps fd)))
  ])
]
  where
    differs : eq_int p.fd fd ≡ false → p.fd ≢ fd
    differs miss e = cc ((eq_int_iff p.fd fd).1 e)

length-init_list : (p : Pollfd) (ps : List Pollfd) → length (init_list p ps) ≡ length ps
unfolding init_list
length-init_list p [] = refl
length-init_list p (r ∷ rs) = ap suc (length-init_list r rs)

length-swap_remove : (ps : List Pollfd) → length (swap_remove ps) ≡ length ps
length-swap_remove [] = refl
length-swap_remove (r ∷ rs) = ap suc (length-init_list r rs)

pub length-remove_fd : (ps : List Pollfd) (fd : ℤ) → length (remove_fd ps fd) ≤ length ps
unfolding remove_fd
length-remove_fd [] fd = omega arith
length-remove_fd (p ∷ ps) fd = elim (Bool-cases (eq_int p.fd fd)) [
  | inl hit ↦ rw hit (omega (arith, length-swap_remove ps))
  | inr miss ↦ rw miss (omega (arith, length-remove_fd ps fd))
]

-- Where no descriptor is there twice, `unwatch` takes the given one out, keeps every other, and
-- still none is there twice.
pub unwatch-mem :
    (state : Fds) (fd x : ℤ)
    → Nodup (fds_of state.fds)
    → x ≢ fd
    → (¬ Mem fd (fds_of (unwatch state fd).fds))
      × Nodup (fds_of (unwatch state fd).fds)
      × (Mem x (fds_of state.fds) ↔ Mem x (fds_of (unwatch state fd).fds))
unfolding unwatch
unwatch-mem state fd x d ne = elim (remove_fd-perm state.fds fd) [
  | inl (same, absent) ↦ rw same (absent, d, ((λ h. h), (λ h. h)))
  | inr (p, e, perm) ↦
      let names : Perm (fds_of state.fds) (p.fd ∷ fds_of (remove_fd state.fds fd)) =
        Perm.map (λ p. p.fd) perm in
      let (gone, rest) = Nodup-cons.0 (Perm.nodup names d) in
      (
        subst (λ y. ¬ Mem y (fds_of (remove_fd state.fds fd))) e gone,
        rest,
        (
          λ h.
              Or.elim Mem-prop (mem-cons.0 ((Perm.mem_iff names).0 h)) (λ q. absurd (ne (q ∙ e)))
                (λ q. q),
          λ h. (Perm.mem_iff names).1 (mem-cons.1 (Or.inr h)),
        ),
      )
]

is_watched-false : (ps : List Pollfd) (fd : ℤ) → is_watched ps fd ≡ false → ¬ Mem fd (fds_of ps)
unfolding is_watched
is_watched-false [] fd h = not-mem-nil
is_watched-false (p ∷ ps) fd h = λ mem.
    Or.elim never_prop (mem-cons.0 mem) (λ e. ground (arith, (eq_int_iff p.fd fd).1 (sym e)))
      (is_watched-false ps fd (ground arith))

Nodup-snoc : (xs : List ℤ) (x : ℤ) → ¬ Mem x xs → Nodup xs → Nodup (xs ++ (x ∷ []))
Nodup-snoc xs x absent d =
    Perm.nodup (Perm.symm (perm_middle xs []))
      (Nodup-cons.1 (rw (append-nil xs) absent, rw (append-nil xs) d))

-- Where no descriptor is there twice, `watch` does one of three things, behind which still none is
-- there twice: it refuses, the array being full, and changes nothing; it accepts a descriptor that
-- is there already, or its complement, and changes nothing; or it puts one that is not there at the
-- end, within the capacity.
pub watch_cases :
    (state : Fds) (fd : ℤ)
    → Nodup (fds_of state.fds)
    → let (accepted, state') = watch state fd in
      Nodup (fds_of state'.fds)
      × (((accepted ≡ false) × (state' ≡ state) × (state.capacity ≤ length state.fds))
          ⊎ ((accepted ≡ true) × (state' ≡ state) × (is_watched state.fds fd ≡ true))
          ⊎ ((accepted ≡ true)
              × (fds_of state'.fds ≡ fds_of state.fds ++ (fd ∷ []))
              × (¬ Mem fd (fds_of state.fds))
              × (length state'.fds ≤ state.capacity)))
unfolding watch
watch_cases state fd d = elim (Bool-cases (leb state.capacity (length state.fds))) [
  | inl full ↦
      let run : watch state fd ≡ (false, state) = ground arith in
      rw run (d, inl (refl, refl, ground arith))
  | inr room ↦ elim (Bool-cases (is_watched state.fds fd)) [
    | inl old ↦
        let run : watch state fd ≡ (true, state) = ground arith in
        rw run (d, inr (inl (refl, refl, old)))
    | inr new ↦
        let p : Pollfd = record { fd = fd; revents = no_events } in
        let run : watch state fd ≡ (true, record state { fds = state.fds ++ (p ∷ []) }) =
          ground arith in
        let absent : ¬ Mem fd (fds_of state.fds) = is_watched-false state.fds fd new in
        let names : fds_of (state.fds ++ (p ∷ [])) ≡ fds_of state.fds ++ (fd ∷ []) =
          map-append (λ (r : Pollfd). r.fd) state.fds (p ∷ []) in
        rw run (
          subst Nodup (sym names) (Nodup-snoc (fds_of state.fds) fd absent d),
          inr (inr (refl, names, absent, ground (arith, length-append state.fds (p ∷ [])))),
        )
  ]
]

pub mem-snoc : (xs : List ℤ) (x y : ℤ) → x ≢ y → Mem x (xs ++ (y ∷ [])) → Mem x xs
mem-snoc xs x y differs there =
    Or.elim Mem-prop (mem-append.0 there) (λ h. h)
      (λ h. absurd (Or.elim never_prop (mem-cons.0 h) differs not-mem-nil))

pub watch-capacity : (state : Fds) (fd : ℤ) → (watch state fd).1.capacity ≡ state.capacity
unfolding watch
watch-capacity state fd = ground arith

-- The first descriptor that is watched.
pub watch-first :
    (fd : ℤ)
    → watch empty fd ≡ (
      true,
      record {
        capacity = default_fds_capacity;
        fds = record { fd = fd; revents = no_events } ∷ [];
      },
    )
unfolding watch empty is_watched
watch-first fd = refl

remove_fd-head :
    (ps : List Pollfd) (server fd : ℤ) (rest : List ℤ)
    → fds_of ps ≡ server ∷ rest
    → server ≢ fd
    → (rest' : List ℤ) × (fds_of (remove_fd ps fd) ≡ server ∷ rest')
unfolding remove_fd
remove_fd-head [] server fd rest e differs = cc e
remove_fd-head (p ∷ ps) server fd rest e differs =
    let first : p.fd ≡ server = grind (arith, e) in
    elim (Bool-cases (eq_int p.fd fd)) [
      | inl hit ↦ absurd (differs (sym first ∙ (eq_int_iff p.fd fd).0 hit))
      | inr miss ↦ rw miss (fds_of (remove_fd ps fd), ap (λ x. x ∷ fds_of (remove_fd ps fd)) first)
    ]

pub unwatch-fits :
    (state : Fds) (fd : ℤ)
    → length state.fds ≤ state.capacity
    → length (unwatch state fd).fds ≤ (unwatch state fd).capacity
unfolding unwatch
unwatch-fits state fd fits = omega (arith, length-remove_fd state.fds fd, fits)

-- Where the first entry is another descriptor's, it stays.
pub unwatch-head :
    (state : Fds) (server fd : ℤ) (rest : List ℤ)
    → fds_of state.fds ≡ server ∷ rest
    → server ≢ fd
    → (rest' : List ℤ) × (fds_of (unwatch state fd).fds ≡ server ∷ rest')
unfolding unwatch
unwatch-head state server fd rest = remove_fd-head state.fds server fd rest

-- What stands in the list of a descriptor that counts as watched.
pub is_watched-mem :
    (ps : List Pollfd) (fd : ℤ)
    → is_watched ps fd ≡ true
    → (x : ℤ) × Mem x (fds_of ps) × ((x ≡ fd) ⊎ (x ≡ complement fd))
unfolding is_watched
is_watched-mem [] fd e = cc e
is_watched-mem (p ∷ ps) fd e = elim (Bool-cases (eq_int p.fd fd)) [
  | inl same ↦ (p.fd, mem-cons_self, inl ((eq_int_iff p.fd fd).0 same))
  | inr differs ↦ elim (Bool-cases (eq_int p.fd (complement fd))) [
    | inl negated ↦ (p.fd, mem-cons_self, inr ((eq_int_iff p.fd (complement fd)).0 negated))
    | inr apart ↦
        let (x, there, which) = is_watched-mem ps fd (ground (arith, e, differs, apart)) in
        (x, mem-cons_of_mem p.fd there, which)
  ]
]

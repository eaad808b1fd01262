-- ===== src/MessageQueue/Clients.antt =====
-- The clients of the queue: the first one of a descriptor, and lists in which every client has a
-- descriptor of its own.
use sys_programming_explorat.Base.{
  ◌≡◌, ◌≢◌, ◌⊎◌, inl, inr, refl, sym, ap, subst, ◌∙◌, List, [], ◌∷◌, ◌++◌, false, none, some, ℤ,
  eq_int, eq_int_iff, Bool-cases,
}
use sys_programming_explorat.MessageQueue.{Client, remove_client}
use sys_programming_explorat.MessageQueue.Flush.{NoClient}

pub eq_int-ne : (a b : ℤ) → eq_int a b ≡ false → a ≢ b
eq_int-ne a b e same = cc (e, (eq_int_iff a b).1 same)

pub ne-eq_int : (a b : ℤ) → a ≢ b → eq_int a b ≡ false
ne-eq_int a b differs = elim (Bool-cases (eq_int a b)) [
  | inl e ↦ absurd (differs ((eq_int_iff a b).0 e))
  | inr e ↦ e
]

-- The clients `before` are of other descriptors.
pub record IsFirst (fd : ℤ) (cs before after : List Client) (c : Client) : Type 0 where
  pub split : cs ≡ before ++ c ∷ after
  pub others : NoClient fd before
  pub same : c.fd ≡ fd

pub find-IsFirst :
    (fd : ℤ) (cs : List Client)
    → NoClient fd cs
      ⊎ ((before : List Client) × (c : Client) × (after : List Client) × IsFirst fd cs before after
            c)
find-IsFirst fd [] = inl tt
find-IsFirst fd (c ∷ cs) = elim (Bool-cases (eq_int c.fd fd)) [
  | inl e ↦ inr ([], c, cs, record { split = refl; others = tt; same = (eq_int_iff c.fd fd).0 e })
  | inr e ↦ elim (find-IsFirst fd cs) [
    | inl absent ↦ inl (e, absent)
    | inr (before, d, after, f) ↦ inr (
      c ∷ before,
      d,
      after,
      record { split = ap (◌∷◌ c) f.split; others = (e, f.others); same = f.same },
    )
  ]
]

pub remove_client-none : (fd : ℤ) (cs : List Client) → NoClient fd cs → remove_client cs fd ≡ none
unfolding remove_client
remove_client-none fd [] apart = refl
remove_client-none fd (c ∷ cs) (differs, apart) = rw (differs, remove_client-none fd cs apart) refl

pub remove_client-first :
    (fd : ℤ) (before after : List Client) (c : Client)
    → NoClient fd before
    → c.fd ≡ fd
    → remove_client (before ++ c ∷ after) fd ≡ some (before ++ after)
unfolding remove_client
remove_client-first fd [] after c others same = rw ((eq_int_iff c.fd fd).1 same) refl
remove_client-first fd (b ∷ bs) after c (differs, others) same =
    rw (differs, remove_client-first fd bs after c others same) refl

NoClient-drop :
    (fd : ℤ) (before after : List Client) (c : Client)
    → NoClient fd (before ++ c ∷ after)
    → NoClient fd (before ++ after)
NoClient-drop fd [] after c (differs, apart) = apart
NoClient-drop fd (b ∷ bs) after c (differs, apart) = (differs, NoClient-drop fd bs after c apart)

NoClient-replace :
    (fd : ℤ) (before after : List Client) (c c' : Client)
    → c'.fd ≡ c.fd
    → NoClient fd (before ++ c ∷ after)
    → NoClient fd (before ++ c' ∷ after)
NoClient-replace fd [] after c c' same (differs, apart) =
    (ap (λ x. eq_int x fd) same ∙ differs, apart)
NoClient-replace fd (b ∷ bs) after c c' same (differs, apart) =
    (differs, NoClient-replace fd bs after c c' same apart)

-- Each client is as `P` says, and no two have the same descriptor.
abbrev pub Each : (Client → Type 0) → List Client → Type 0
Each P [] = Unit {0}
Each P (c ∷ cs) = P c × NoClient c.fd cs × Each P cs

module _ (P Q : Client → Type 0) where
  pub Each-map : (cs : List Client) → ((c : Client) → P c → Q c) → Each P cs → Each Q cs
  Each-map [] f all = tt
  Each-map (c ∷ cs) f (here, apart, all) = (f c here, apart, Each-map cs f all)

  -- What concerns one descriptor alone does not matter where it has no client.
  pub Each-map_but :
      (fd : ℤ) (cs : List Client)
      → ((c : Client) → c.fd ≢ fd → P c → Q c)
      → NoClient fd cs
      → Each P cs
      → Each Q cs
  Each-map_but fd [] f apart all = tt
  Each-map_but fd (c ∷ cs) f (differs, apart) (here, own, all) =
      (f c (eq_int-ne c.fd fd differs) here, own, Each-map_but fd cs f apart all)

  -- One client is replaced by one of the same descriptor.
  pub Each-replace :
      (before after : List Client) (c c' : Client)
      → ((d : Client) → d.fd ≢ c.fd → P d → Q d)
      → NoClient c.fd before
      → c'.fd ≡ c.fd
      → Q c'
      → Each P (before ++ c ∷ after)
      → Each Q (before ++ c' ∷ after)
  Each-replace [] after c c' f others same moved (here, apart, all) =
      (moved, subst (λ fd. NoClient fd after) (sym same) apart, Each-map_but c.fd after f apart all)
  Each-replace (b ∷ bs) after c c' f (differs, others) same moved (here, apart, all) = (
    f b (eq_int-ne b.fd c.fd differs) here,
    NoClient-replace b.fd bs after c c' same apart,
    Each-replace bs after c c' f others same moved all,
  )

module _ (P : Client → Type 0) where
  pub Each-drop :
      (before after : List Client) (c : Client)
      → NoClient c.fd before
      → Each P (before ++ c ∷ after)
      → Each P (before ++ after) × NoClient c.fd (before ++ after)
  Each-drop [] after c others (here, apart, all) = (all, apart)
  Each-drop (b ∷ bs) after c (differs, others) (here, apart, all) =
      let (rest, gone) = Each-drop bs after c others all in
      ((here, NoClient-drop b.fd bs after c apart, rest), (differs, gone))

  -- Behind `remove_client` the descriptor has no client.
  pub Each-remove_client :
      (fd : ℤ) (cs : List Client)
      → Each P cs
      → ((remove_client cs fd ≡ none) × NoClient fd cs)
        ⊎ ((rest : List Client) × (remove_client cs fd ≡ some rest)
            × Each P rest
            × NoClient fd rest)
  Each-remove_client fd cs all = elim (find-IsFirst fd cs) [
    | inl apart ↦ inl (remove_client-none fd cs apart, apart)
    | inr (before, c, after, f) ↦
        let (rest, gone) =
          Each-drop before after c (subst (λ x. NoClient x before) (sym f.same) f.others)
            (subst (Each P) f.split all) in
        inr (
          before ++ after,
          ap (λ l. remove_client l fd) f.split
              ∙ remove_client-first fd before after c f.others f.same,
          rest,
          subst (λ x. NoClient x (before ++ after)) f.same gone,
        )
  ]

  pub Each-at : (before after : List Client) (c : Client) → Each P (before ++ c ∷ after) → P c
  Each-at [] after c (here, apart, all) = here
  Each-at (b ∷ bs) after c (here, apart, all) = Each-at bs after c all

  pub NoClient-after :
      (before after : List Client) (c : Client) → Each P (before ++ c ∷ after) → NoClient c.fd after
  NoClient-after [] after c (here, apart, all) = apart
  NoClient-after (b ∷ bs) after c (here, apart, all) = NoClient-after bs after c all

  pub Each-NoClient :
      (fd : ℤ) (cs : List Client) → ((c : Client) → P c → c.fd ≢ fd) → Each P cs → NoClient fd cs
  Each-NoClient fd [] f all = tt
  Each-NoClient fd (c ∷ cs) f (here, apart, all) =
      (ne-eq_int c.fd fd (f c here), Each-NoClient fd cs f all)

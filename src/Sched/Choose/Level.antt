-- ===== src/Sched/Choose/Level.antt =====
-- The feedback queue takes the first process that can run, from the lowest level.
use hyu_2020_operating_syste.Base.{
  ℕ, ◌≡◌, ◌⊎◌, inl, inr, Bool, true, false, ◌&&◌, List, [], ◌∷◌, ◌++◌, refl, All, Bool-cases, ◌==◌,
  ap,
}
use hyu_2020_operating_syste.Sched.{is_runnable, Proc}
use hyu_2020_operating_syste.Sched.Choose.{find_in, find_runnable}

module _ (procs : ℕ → Proc) where
  abbrev pub ready : ℕ → Bool
  ready x = is_runnable (procs x).state && ((procs x).share == 0)

  -- `x` is the first ready entry of the queue.
  abbrev pub FirstReady : ℕ → List ℕ → Type 0
  FirstReady x q =
      (pre post : List ℕ) × (q ≡ pre ++ (x ∷ post))
      × (ready x ≡ true)
      × All (λ y. ready y ≡ false) pre

  abbrev pub NoneReady : List ℕ → Type 0
  NoneReady q = All (λ y. ready y ≡ false) q

  find_in-cases :
      (p : ℕ) (q : List ℕ)
      → (((find_in procs p q).0 ≡ true) × FirstReady (find_in procs p q).1 q)
        ⊎ (((find_in procs p q).0 ≡ false) × NoneReady q)
  unfolding find_in
  find_in-cases p [] = inr (refl, tt)
  find_in-cases p (x ∷ xs) = elim (Bool-cases (ready x)) [
    | inl r ↦ rw r (inl (refl, ([], xs, refl, r, tt)))
    | inr n ↦ rw n (elim (find_in-cases x xs) [
      | inl (f, (pre, post, e, r, a)) ↦ inl (f, (x ∷ pre, post, ap (λ l. x ∷ l) e, r, (n, a)))
      | inr (f, a) ↦ inr (f, (refl, a))
    ])
  ]

  -- The process that is found is the first ready entry of a level below which no entry is ready, and
  -- one is found unless no entry of the three levels is ready.
  pub find_runnable_lem :
      (queue : ℕ → List ℕ) (p : ℕ)
      → let (found, x) = find_runnable procs queue p in
        ((found ≡ true)
          × (FirstReady x (queue 0)
              ⊎ ((NoneReady (queue 0) × FirstReady x (queue 1))
                  ⊎ (NoneReady (queue 0) × NoneReady (queue 1) × FirstReady x (queue 2)))))
        ⊎ ((found ≡ false) × NoneReady (queue 0) × NoneReady (queue 1) × NoneReady (queue 2))
  unfolding find_runnable
  find_runnable_lem queue p = elim (find_in-cases p (queue 0)) [
    | inl (f0, r0) ↦ rw f0 (inl (refl, inl r0))
    | inr (f0, n0) ↦ elim (find_in-cases (find_in procs p (queue 0)).1 (queue 1)) [
      | inl (f1, r1) ↦ rw (f0, f1) (inl (refl, inr (inl (n0, r1))))
      | inr (f1, n1) ↦
          elim (find_in-cases (find_in procs (find_in procs p (queue 0)).1 (queue 1)).1 (queue 2)) [
            | inl (f2, r2) ↦ rw (f0, f1) (inl (f2, inr (inr (n0, n1, r2))))
            | inr (f2, n2) ↦ rw (f0, f1) (inr (f2, n0, n1, n2))
          ]
    ]
  ]

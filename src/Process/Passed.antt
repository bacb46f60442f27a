-- ===== src/Process/Passed.antt =====
-- The loop of `exit` that gives the children of the process to init.
use hyu_2020_operating_syste.Base.{
  ℕ, zero, suc, ◌+◌, ◌≤◌, ◌<◌, ◌≡◌, ◌≢◌, ◌∙◌, sym, ap, refl, ◌⊎◌, inl, inr, Bool, true, false,
  Bool-cases, eq_cases, ◌==◌, update-cases, arith, ==→eq, ==→ne,
}
use hyu_2020_operating_syste.Sched.{State, nproc}
use hyu_2020_operating_syste.Process.{ptr, Procs, is_zombie, set_process, wakeup1, pass_children}
use hyu_2020_operating_syste.Process.Relate.{
  state_of, parent_of, Waiting, wakeup1-cases, wakeup1-awake,
}

-- What the loop has done to the entries from `i` on, `n` of them.
pub record Passed (k i n : ℕ) (s t : Procs) : Type 0 where
  pub init : t.init ≡ s.init
  pub parent :
      (j : ℕ)
      → ((parent_of s j ≡ ptr k) × (i ≤ j) × (j < i + n) × (parent_of t j ≡ ptr s.init))
        ⊎ ((parent_of t j ≡ parent_of s j) × (i ≤ j → j < i + n → parent_of s j ≢ ptr k))
  pub change :
      (j : ℕ)
      → ((state_of t j ≡ state_of s j) × ((t.table j).chan ≡ (s.table j).chan))
        ⊎ ((state_of s j ≡ State.sleeping) × (state_of t j ≡ State.runnable))
  pub woken :
      (j : ℕ)
      → i ≤ j
      → j < i + n
      → parent_of s j ≡ ptr k
      → state_of s j ≡ State.zombie
      → ¬ Waiting t s.init

pub still_waiting :
    {k i n : ℕ} (s t : Procs) → Passed k i n s t → (q : ℕ) → Waiting t q → Waiting s q
still_waiting s t p q w = elim (p.change q) [
  | inl (e, f) ↦ (sym e ∙ w.0, sym f ∙ w.1)
  | inr (e, f) ↦ absurd (no (sym f ∙ w.0))
]
  where
    no : State.runnable ≢ State.sleeping
    no e = cc

zombie_stays :
    {k i n : ℕ} (s t : Procs)
    → Passed k i n s t
    → (j : ℕ) → state_of s j ≡ State.zombie
    → state_of t j ≡ State.zombie
zombie_stays s t p j z = elim (p.change j) [
  | inl (e, f) ↦ e ∙ z
  | inr (e, f) ↦ absurd (no (sym z ∙ e))
]
  where
    no : State.zombie ≢ State.sleeping
    no e = cc

Passed-trans :
    (k i n : ℕ) (s t u : Procs) → Passed k i 1 s t → Passed k (i + 1) n t u → Passed k i (suc n) s u
Passed-trans k i n s t u a b = record {
  init = b.init ∙ a.init;
  parent = λ j. elim (b.parent j) [
    | inl (p, l, h, q) ↦ elim (a.parent j) [
      | inl (p', l', h', q') ↦ absurd (omega arith)
      | inr (same, o) ↦ inl (sym same ∙ p, omega arith, omega arith, q ∙ ap ptr a.init)
    ]
    | inr (same, o) ↦ elim (a.parent j) [
      | inl (p, l, h, q) ↦ inl (p, l, omega arith, same ∙ q)
      | inr (same', o') ↦ inr (
        same ∙ same',
        λ l h p. elim (eq_cases j i) [
          | inl e ↦ o' l (omega arith) p
          | inr ne ↦ o (omega arith) (omega arith) (same' ∙ p)
        ],
      )
    ]
  ];
  change = λ j. elim (b.change j) [
    | inl (e, f) ↦ elim (a.change j) [
      | inl (e', f') ↦ inl (e ∙ e', f ∙ f')
      | inr (e', f') ↦ inr (e', e ∙ f')
    ]
    | inr (e, f) ↦ elim (a.change j) [
      | inl (e', f') ↦ inr (sym e' ∙ e, f)
      | inr (e', f') ↦ inr (e', f)
    ]
  ];
  woken = λ j l h p z w. elim (eq_cases j i) [
    | inl e ↦ a.woken j l (omega arith) p z (still_waiting t u b s.init w)
    | inr ne ↦ elim (a.parent j) [
      | inl (p', l', h', q') ↦ absurd (omega arith)
      | inr (same, o) ↦
          b.woken j (omega arith) (omega arith) (same ∙ p) (zombie_stays s t a j z)
            (moved t s.init a.init w)
    ]
  ];
}
  where
    moved : (t : Procs) (i : ℕ) → t.init ≡ i → Waiting u i → Waiting u t.init
    moved t i e w = rw e w

Passed-self : (k i : ℕ) (s : Procs) → Passed k i 0 s s
Passed-self k i s = record {
  init = refl;
  parent = λ j. inr (refl, λ l h. absurd (omega arith));
  change = λ j. inl (refl, refl);
  woken = λ j l h. absurd (omega arith);
}

-- An entry that is no child of `k` is left alone.
Passed-other : (k i : ℕ) (s : Procs) → parent_of s i ≢ ptr k → Passed k i 1 s s
Passed-other k i s n = record {
  init = refl;
  parent = λ j. inr (refl, λ l h p. n (child j l h p));
  change = λ j. inl (refl, refl);
  woken = λ j l h p z w. n (child j l h p);
}
  where
    child : (j : ℕ) → i ≤ j → j < i + 1 → parent_of s j ≡ ptr k → parent_of s i ≡ ptr k
    child j l h p = let e : i ≡ j = omega arith in ap (parent_of s) e ∙ p

module _ (k i : ℕ) (s : Procs) (child : parent_of s i ≡ ptr k) (low : s.init < nproc) where
  abbrev given : Procs
  given = set_process i (record (s.table i) { parent = ptr s.init }) s

  given_state :
      (j : ℕ) → (state_of given j ≡ state_of s j) × ((given.table j).chan ≡ (s.table j).chan)
  given_state j = elim (update-cases s.table i (record (s.table i) { parent = ptr s.init }) j) [
    | inl (e, h) ↦ (
      ap (λ x. x.state) h ∙ ap (state_of s) (sym e),
      ap (λ x. x.chan) h ∙ ap (λ x. (s.table x).chan) (sym e),
    )
    | inr (e, h) ↦ (ap (λ x. x.state) h, ap (λ x. x.chan) h)
  ]

  given_parent :
      (j : ℕ)
      → ((parent_of s j ≡ ptr k) × (i ≤ j) × (j < i + 1) × (parent_of given j ≡ ptr s.init))
        ⊎ ((parent_of given j ≡ parent_of s j) × (i ≤ j → j < i + 1 → parent_of s j ≢ ptr k))
  given_parent j = elim (update-cases s.table i (record (s.table i) { parent = ptr s.init }) j) [
    | inl (e, h) ↦ inl (ap (parent_of s) e ∙ child, omega arith, omega arith, ap (λ x. x.parent) h)
    | inr (e, h) ↦ inr (ap (λ x. x.parent) h, λ l h. absurd (e (omega arith)))
  ]

  Passed-child : (state_of s i ≢ State.zombie) → Passed k i 1 s given
  Passed-child n = record {
    init = refl;
    parent = given_parent;
    change = λ j. inl (given_state j);
    woken = λ j l h p z. absurd (n (let e : i ≡ j = omega arith in ap (state_of s) e ∙ z));
  }

  Passed-zombie : Passed k i 1 s (wakeup1 (ptr s.init) given)
  Passed-zombie = record {
    init = unfold wakeup1 in refl;
    parent = λ j. elim (wakeup1-cases (ptr s.init) given j) [
      | inl (e, f, w) ↦ along j (ap (λ x. x.parent) w)
      | inr (w, n) ↦ along j (ap (λ x. x.parent) w)
    ];
    change = λ j. elim (wakeup1-cases (ptr s.init) given j) [
      | inl (e, f, w) ↦ inr (sym (given_state j).0 ∙ e, ap (λ x. x.state) w)
      | inr (w, n) ↦
          inl (ap (λ x. x.state) w ∙ (given_state j).0, ap (λ x. x.chan) w ∙ (given_state j).1)
    ];
    woken = λ j l h p z w. wakeup1-awake (ptr s.init) given s.init low w.0 w.1;
  }
    where
      along :
          (j : ℕ)
          → parent_of (wakeup1 (ptr s.init) given) j ≡ parent_of given j
          → ((parent_of s j ≡ ptr k)
              × (i ≤ j)
              × (j < i + 1)
              × (parent_of (wakeup1 (ptr s.init) given) j ≡ ptr s.init))
            ⊎ ((parent_of (wakeup1 (ptr s.init) given) j ≡ parent_of s j)
                × (i ≤ j → j < i + 1 → parent_of s j ≢ ptr k))
      along j e = elim (given_parent j) [
        | inl (p, l, h, q) ↦ inl (p, l, h, e ∙ q)
        | inr (q, n) ↦ inr (e ∙ q, n)
      ]

pub zombie_or_not : (st : State) → is_zombie st ≡ true → st ≡ State.zombie
zombie_or_not State.zombie e = refl
zombie_or_not State.unused e = cc
zombie_or_not State.embryo e = cc
zombie_or_not State.sleeping e = cc
zombie_or_not State.runnable e = cc
zombie_or_not State.running e = cc

pub pass_children-Passed :
    (n i k : ℕ) (s : Procs) → s.init < nproc → Passed k i n s (pass_children n i k s)
unfolding pass_children wakeup1
pass_children-Passed zero i k s low = Passed-self k i s
pass_children-Passed (suc n) i k s low = elim (Bool-cases ((s.table i).parent == ptr k)) [
  | inr other ↦ rw other (
      Passed-trans k i n s s _ (Passed-other k i s (==→ne _ _ other))
        (pass_children-Passed n (i + 1) k s low))
  | inl child ↦ elim (Bool-cases (is_zombie (s.table i).state)) [
    | inl z ↦
        rw (child, z)
          (Passed-trans k i n s woken _ (Passed-zombie k i s (==→eq _ _ child) low)
            (pass_children-Passed n (i + 1) k woken low))
    | inr a ↦
        rw (child, a)
          (Passed-trans k i n s given' _
            (Passed-child k i s (==→eq _ _ child) low (λ z. alive a (ap is_zombie z)))
            (pass_children-Passed n (i + 1) k given' low))
  ]
]
  where
    given' : Procs
    given' = set_process i (record (s.table i) { parent = ptr s.init }) s

    woken : Procs
    woken = wakeup1 (ptr s.init) given'

    alive : {b : Bool} → b ≡ false → b ≢ true
    alive e f = let g = sym e ∙ f in cc

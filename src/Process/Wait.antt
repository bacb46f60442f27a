-- ===== src/Process/Wait.antt =====
-- `wait` and `kill`.
use hyu_2020_operating_syste.Base.{
  ℕ, zero, suc, ◌+◌, ◌≤◌, ◌<◌, ◌≡◌, ◌≢◌, ◌∙◌, sym, ap, subst, refl, ◌⊎◌, inl, inr, Bool, true,
  false, ◌&&◌, ◌||◌, Bool-cases, eq_cases, ◌==◌, if◌then◌else◌, update-cases, arith, ==→eq, eq→==,
}
use hyu_2020_operating_syste.Sched.{State, nproc}
use hyu_2020_operating_syste.Process.{
  ptr, Procs, is_zombie, is_sleeping, set_process, sleep, reaps, children, scan, returns, sleeps,
  wait, kill_from,
}
use hyu_2020_operating_syste.Process.Relate.{
  is_active, state_of, parent_of, Waiting, Tree, Calm, update-Calm, Calm-Tree, sleeping_or_not,
}
use hyu_2020_operating_syste.Process.Passed.{zombie_or_not}
use hyu_2020_operating_syste.Process.Exit.{in_table}
use hyu_2020_operating_syste.Process.Replace.{is_fresh, replace-Tree}

-- The scan finds an exited child, or there is none and it says whether there are children.
pub scan-cases :
    (n i k : ℕ) (b : Bool) (s : Procs)
    → ((j : ℕ) × (scan n i k b s ≡ reaps j)
        × (parent_of s j ≡ ptr k)
        × (state_of s j ≡ State.zombie)
        × (j < i + n))
      ⊎ ((h : Bool) × (scan n i k b s ≡ children h)
          × ((j : ℕ) → i ≤ j → j < i + n → parent_of s j ≡ ptr k → state_of s j ≢ State.zombie)
          × (h ≡ true → (b ≡ true) ⊎ ((j : ℕ) × (parent_of s j ≡ ptr k))))
unfolding scan
scan-cases zero i k b s = inr (b, refl, (λ j l h. absurd (omega arith)), λ e. inl e)
scan-cases (suc n) i k b s =
    elim (Bool-cases (((s.table i).parent == ptr k) && is_zombie (s.table i).state)) [
      | inl found ↦ inl (
        i,
        rw found refl,
        ==→eq _ _ (left _ _ found),
        zombie_or_not _ (right _ _ found),
        omega arith,
      )
      | inr on ↦ elim (scan-cases n (i + 1) k (b || ((s.table i).parent == ptr k)) s) [
        | inl (j, e, p, z, h) ↦ inl (j, rw on e, p, z, omega arith)
        | inr (h, e, no_zombie, some_child) ↦ inr (
          h,
          rw on e,
          λ j l m p z. elim (eq_cases j i) [
            | inl same ↦
                both _ _ (eq→== _ _ (ap (parent_of s) (sym same) ∙ p))
                  (ap is_zombie (ap (state_of s) (sym same) ∙ z)) on
            | inr other ↦ no_zombie j (omega arith) (omega arith) p z
          ],
          λ t. elim (some_child t) [
            | inl o ↦ elim (Bool-cases b) [
              | inl y ↦ inl y
              | inr n' ↦ inr (i, ==→eq _ _ (last b _ o n'))
            ]
            | inr c ↦ inr c
          ],
        )
      ]
    ]
  where
    left : (a b : Bool) → (a && b) ≡ true → a ≡ true
    left a b h = ground arith

    right : (a b : Bool) → (a && b) ≡ true → b ≡ true
    right a b h = ground arith

    both : (a b : Bool) → a ≡ true → b ≡ true → (a && b) ≢ false
    both a b h k l = ground arith

    last : (a b : Bool) → (a || b) ≡ true → a ≡ false → b ≡ true
    last a b h k = ground arith

-- A process that sleeps in `wait` may do so.
pub wait-sleeps-Tree :
    (s t : Procs) (k : ℕ) → Tree s → is_active (state_of s k) ≡ true → wait k s ≡ sleeps t → Tree t
unfolding wait sleep
wait-sleeps-Tree s t k v run e = elim (scan-cases nproc 0 k false s) [
  | inl (j, f, p, z, h) ↦ let g = (rw (f, wait) at e) in cc
  | inr (h, f, no_zombie, some_child) ↦
      let g = (rw (f, wait) at e) in
      elim (Bool-cases (h && (if (s.table k).killed then false else true))) [
        | inr stop ↦ let g' = (rw stop at g) in cc
        | inl go_on ↦
            let g' = (rw go_on at g) in
            let same : sleep k (ptr k) s ≡ t = cc in
            let kids : (j : ℕ) × (parent_of s j ≡ ptr k) = elim (some_child (left _ _ go_on)) [
              | inl c ↦ absurd (no_b c)
              | inr c ↦ c
            ] in
            subst Tree same (
              Calm-Tree s (sleep k (ptr k) s)
                (update-Calm s (sleep k (ptr k) s) k _ refl refl refl run refl
                  (λ a b. (λ j p z. no_zombie j (omega arith) (in_table s v j (dead z)) p z, kids)))
                v)
      ]
]
  where
    left : (a b : Bool) → (a && b) ≡ true → a ≡ true
    left a b h = ground arith

    no_b : ◌≢◌ {A = Bool} false true
    no_b c = cc

    dead : {st : State} → st ≡ State.zombie → st ≢ State.unused
    dead e f = let g = sym e ∙ f in cc

pub wait-returns-Tree :
    (s t : Procs) (k pid : ℕ)
    → Tree s
    → state_of s k ≡ State.running
    → wait k s ≡ returns pid t
    → Tree t
unfolding wait
wait-returns-Tree s t k pid v run e = elim (scan-cases nproc 0 k false s) [
  | inr (h, f, no_zombie, some_child) ↦
      let g = (rw (f, wait) at e) in
      elim (Bool-cases (h && (if (s.table k).killed then false else true))) [
        | inl go_on ↦ let g' = (rw go_on at g) in cc
        | inr stop ↦ let g' = (rw stop at g) in cc
      ]
  | inl (j, f, p, z, h) ↦
      let g = (rw (f, wait) at e) in
      let same : reaped j ≡ t = cc in
      subst Tree same (
        replace-Tree s (reaped j) v j _ refl refl (omega arith) (ap is_active z)
          (λ q w r. waits q (ap_ptr q (sym p ∙ r)) w) (is_fresh (inl refl) refl))
]
  where
    reaped : ℕ → Procs
    reaped j =
        set_process j
          (record (s.table j) { pid = 0; parent = 0; killed = false; state = State.unused }) s

    ap_ptr : (q : ℕ) → ptr k ≡ ptr q → k ≡ q
    ap_ptr q e = omega arith

    waits : (q : ℕ) → k ≡ q → ¬ Waiting s q
    waits q e w = let f = sym run ∙ ap (state_of s) e ∙ w.0 in cc

-- `kill` wakes the process that it finds, and changes no other state.
pub kill_from-Calm : (n i pid : ℕ) (s : Procs) → Calm s (kill_from n i pid s).1
unfolding kill_from
kill_from-Calm zero i pid s = record {
  init = refl;
  parent = λ j. refl;
  change = λ j. inl (refl, refl);
}
kill_from-Calm (suc n) i pid s = elim (Bool-cases ((s.table i).pid == pid)) [
  | inr other ↦ rw other (kill_from-Calm n (i + 1) pid s)
  | inl here ↦ elim (Bool-cases (is_sleeping (s.table i).state)) [
    | inl asleep ↦
        rw (here, asleep)
          (update-Calm s _ i _ refl refl refl (ap is_active (sleeping_or_not _ asleep)) refl
            (λ e. absurd (not_asleep e)))
    | inr awake ↦
        rw (here, awake)
          (record {
            init = refl;
            parent = λ j. elim (update-cases s.table i (record (s.table i) { killed = true }) j) [
              | inl (a, b) ↦ ap (λ x. x.parent) b ∙ ap (parent_of s) (sym a)
              | inr (a, b) ↦ ap (λ x. x.parent) b
            ];
            change = λ j.
                inl (elim (update-cases s.table i (record (s.table i) { killed = true }) j) [
                  | inl (a, b) ↦ (
                    ap (λ x. x.state) b ∙ ap (state_of s) (sym a),
                    ap (λ x. x.chan) b ∙ ap (λ x. (s.table x).chan) (sym a),
                  )
                  | inr (a, b) ↦ (ap (λ x. x.state) b, ap (λ x. x.chan) b)
                ]);
          })
  ]
]
  where
    not_asleep : State.runnable ≢ State.sleeping
    not_asleep e = cc

-- ===== src/Process/Reach.antt =====
-- The calls of all processes in any order.
use hyu_2020_operating_syste.Base.{
  ℕ, ◌<◌, ◌≡◌, ◌≢◌, ◌∙◌, sym, ap, refl, ◌⊎◌, inl, inr, true, some, arith,
}
use hyu_2020_operating_syste.Sched.{State, nproc}
use hyu_2020_operating_syste.Process.{
  Ptr, ptr, Procs, set_process, wakeup1, sleep, tidy_up, kill, allocproc, give_up, fork_child, exit,
  returns, sleeps, wait,
}
use hyu_2020_operating_syste.Process.Relate.{
  is_active, state_of, parent_of, Waiting, Tree, update-Calm, Calm-Tree, wakeup1-Calm,
}
use hyu_2020_operating_syste.Process.Exit.{in_table, active-ne-unused, exit-Tree}
use hyu_2020_operating_syste.Process.Replace.{
  is_fresh, is_child, replace-Tree, allocproc-Tree, no_pointer,
}
use hyu_2020_operating_syste.Process.Wait.{wait-sleeps-Tree, wait-returns-Tree, kill_from-Calm}

-- The scheduler picks a process and the process yields; a running process sleeps on an address that is
-- no process's, wakes, forks in steps, exits and waits.
pub data Step : Procs → Procs → Type 0 where
  picks :
      (s : Procs) (k : ℕ)
      → state_of s k ≡ State.runnable
      → Step s (set_process k (record (s.table k) { state = State.running }) s)
  yields :
      (s : Procs) (k : ℕ)
      → state_of s k ≡ State.running
      → Step s (set_process k (record (s.table k) { state = State.runnable }) s)
  falls_asleep :
      (s : Procs) (k : ℕ) (chan : Ptr)
      → state_of s k ≡ State.running
      → nproc < chan
      → Step s (sleep k chan s)
  goes_on : (s : Procs) (k : ℕ) → state_of s k ≡ State.running → Step s (tidy_up k s)
  wakes : (s : Procs) (chan : Ptr) → Step s (wakeup1 chan s)
  kills : (s : Procs) (pid : ℕ) → Step s (kill pid s).1
  allocates : (s t : Procs) (np : ℕ) → allocproc s ≡ some (np, t) → Step s t
  gives_up : (s : Procs) (np : ℕ) → state_of s np ≡ State.embryo → Step s (give_up np s)
  forks :
      (s : Procs) (k np : ℕ)
      → state_of s k ≡ State.running
      → state_of s np ≡ State.embryo
      → Step s (fork_child k np s)
  exits : (s t : Procs) (k : ℕ) → state_of s k ≡ State.running → exit k s ≡ some t → Step s t
  reaps_child :
      (s t : Procs) (k pid : ℕ) → state_of s k ≡ State.running → wait k s ≡ returns pid t → Step s t
  waits : (s t : Procs) (k : ℕ) → state_of s k ≡ State.running → wait k s ≡ sleeps t → Step s t

pub data Reach (s : Procs) : Procs → Type 0 where
  here : Reach s s
  next : {t u : Procs} → Reach s t → Step t u → Reach s u

embryo_low : (s : Procs) → Tree s → (j : ℕ) → state_of s j ≡ State.embryo → j < nproc
embryo_low s v j e = in_table s v j (λ u. let f = sym e ∙ u in cc)

Step-Tree : {s t : Procs} → Step s t → Tree s → Tree t
Step-Tree (picks s k r) v =
    Calm-Tree s _ (update-Calm s _ k _ refl refl refl (ap is_active r) refl (λ e. cc)) v
Step-Tree (yields s k r) v =
    Calm-Tree s _ (update-Calm s _ k _ refl refl refl (ap is_active r) refl (λ e. cc)) v
Step-Tree (falls_asleep s k chan r far) v =
    let low = in_table s v k (active-ne-unused _ (ap is_active r)) in
    Calm-Tree s (sleep k chan s)
      (update-Calm s (sleep k chan s) k (record (s.table k) { chan = chan; state = State.sleeping })
        (unfold sleep in refl) (unfold sleep in refl) refl (ap is_active r) refl
        (λ e f. absurd (omega arith)))
      v
Step-Tree (goes_on s k r) v =
    Calm-Tree s (tidy_up k s)
      (update-Calm s (tidy_up k s) k (record (s.table k) { chan = 0 }) (unfold tidy_up in refl)
        (unfold tidy_up in refl) refl (ap is_active r) (ap is_active r)
        (λ e f. absurd (awake (sym r ∙ e))))
      v
  where
    awake : State.running ≢ State.sleeping
    awake e = cc
Step-Tree (wakes s chan) v = Calm-Tree s _ (wakeup1-Calm chan s) v
Step-Tree (kills s pid) v =
    Calm-Tree s (kill pid s).1 (unfold kill in kill_from-Calm nproc 0 pid s) v
Step-Tree (allocates s t np e) v = allocproc-Tree s t np v e
Step-Tree (gives_up s np e) v =
    replace-Tree s (give_up np s) v np (record (s.table np) { state = State.unused })
      (unfold give_up in refl) (unfold give_up in refl) (embryo_low s v np e) (ap is_active e)
      (λ q w p. no_pointer q (sym (v.fresh np (inr e)) ∙ p))
      (is_fresh (inl refl) (v.fresh np (inr e)))
Step-Tree (forks s k np r e) v =
    replace-Tree s (fork_child k np s) v np
      (record (s.table np) { parent = ptr k; state = State.runnable }) (unfold fork_child in refl)
      (unfold fork_child in refl) (embryo_low s v np e) (ap is_active e)
      (λ q w p. no_pointer q (sym (v.fresh np (inr e)) ∙ p)) (is_child k refl refl (ap is_active r))
Step-Tree (exits s t k r e) v = exit-Tree s t k v (ap is_active r) e
Step-Tree (reaps_child s t k pid r e) v = wait-returns-Tree s t k pid v r e
Step-Tree (waits s t k r e) v = wait-sleeps-Tree s t k v (ap is_active r) e

-- From a table that is a tree, in every sequence of fork, exit, wait, sleep, wakeup and kill runs and
-- of switches between processes, it stays one: init is active and has no parent, the parent of every
-- other active or exited process is another active process, and free slots have none; a process that
-- sleeps in `wait` has children, none of which has exited.
pub Reach-Tree : {s t : Procs} → Tree s → Reach s t → Tree t
Reach-Tree v here = v
Reach-Tree v (next r st) = Step-Tree st (Reach-Tree v r)

-- From a table that is a tree, in every table that such runs of fork, exit, wait, sleep, wakeup and
-- kill reach, a process that sleeps in `wait` has an active child.
pub waiting-active :
    {s t : Procs} (q : ℕ)
    → Tree s
    → Reach s t
    → Waiting t q
    → (j : ℕ) × (parent_of t j ≡ ptr q) × (is_active (state_of t j) ≡ true)
waiting-active {s} {t} q v r w =
    let u = Reach-Tree v r in
    let (j, p) = u.has_child q w in
    (
      j,
      p,
      active_of (state_of t j) (u.no_zombie q j w p) (λ e. no_pointer q (sym (u.fresh j e) ∙ p)),
    )
  where
    active_of :
        (st : State)
        → st ≢ State.zombie
        → ¬ ((st ≡ State.unused) ⊎ (st ≡ State.embryo))
        → is_active st ≡ true
    active_of State.sleeping z f = refl
    active_of State.runnable z f = refl
    active_of State.running z f = refl
    active_of State.zombie z f = absurd (z refl)
    active_of State.unused z f = absurd (f (inl refl))
    active_of State.embryo z f = absurd (f (inr refl))

-- ===== src/Sched/Tests.antt =====
-- The scheduler on two feedback-queue processes and one stride process.
use hyu_2020_operating_syste.Base.{
  ℕ, ◌+◌, ◌^◌, ◌<◌, ◌≤◌, ◌≡◌, ◌≢◌, ◌⊎◌, refl, true, false, none, List, [], ◌∷◌, ◌==◌, if◌then◌else◌,
  arith,
}
use hyu_2020_operating_syste.Sched.{
  State, Proc, Sched, mlfq, stride_lev, dequeue, leave, refuses, grant, set_cpu_share,
}
use hyu_2020_operating_syste.Sched.Shares.{IsShared}
use hyu_2020_operating_syste.Sched.Shares.Grant.{set_cpu_share_lem}
use hyu_2020_operating_syste.Sched.Shares.Exit.{leave_lem}
use hyu_2020_operating_syste.Sched.Shares.Reach.{
  System, idle, passed, Reach, here, next, tests, exits, grants, Reach-IsShared, schedule-ne-none,
}
use hyu_2020_operating_syste.Sched.Choose.{min_from, find_runnable, find_in, schedule}
use hyu_2020_operating_syste.Sched.Choose.Stride.{Least, min_from-Least}
use hyu_2020_operating_syste.Sched.Choose.Level.{FirstReady, NoneReady, find_runnable_lem}

abbrev feedback : Proc
feedback = record {
  state = State.runnable;
  share = 0;
  pass = 0;
  lev = 0;
  time_allotment = 5;
  start_tick = 0;
  from_trap = false;
}

-- process 1 sleeps, process 2 is ready in level 1, process 3 has a share of 40
abbrev procs : ℕ → Proc
procs k =
    if k == mlfq
    then record feedback { share = 60; pass = 32 }
    else (if k == 1
        then record feedback { state = State.sleeping }
        else (if k == 3
            then record feedback { share = 40; pass = 25; lev = stride_lev }
            else record feedback { lev = 1 }))

abbrev queues : ℕ → List ℕ
queues l = if l == 0 then 1 ∷ [] else (if l == 1 then 2 ∷ [] else [])

abbrev two_and_one : Sched
two_and_one = record {
  procs = procs;
  queue = queues;
  stable = mlfq ∷ 3 ∷ [];
  min_pass = 32;
  mlfq_ticks = 0;
}

min_from_runs : min_from procs (0, mlfq) 0 (mlfq ∷ 3 ∷ []) ≡ (1, 3)
unfolding min_from
min_from_runs = refl

find_runnable_runs : find_runnable procs queues mlfq ≡ (true, 2)
unfolding find_runnable find_in
find_runnable_runs = refl

min_from-Least_example :
    Least procs (0, mlfq) 0 (mlfq ∷ 3 ∷ []) (min_from procs (0, mlfq) 0 (mlfq ∷ 3 ∷ []))
min_from-Least_example = min_from-Least procs (0, mlfq) 0 (mlfq ∷ 3 ∷ [])

find_runnable_lem_example :
    let (found, x) = find_runnable procs queues mlfq in
    ((found ≡ true)
      × (FirstReady procs x (1 ∷ [])
          ⊎ ((NoneReady procs (1 ∷ []) × FirstReady procs x (2 ∷ []))
              ⊎ (NoneReady procs (1 ∷ []) × NoneReady procs (2 ∷ []) × FirstReady procs x []))))
    ⊎ ((found ≡ false) × NoneReady procs (1 ∷ []) × NoneReady procs (2 ∷ []) × NoneReady procs [])
find_runnable_lem_example = find_runnable_lem procs queues mlfq

two_and_one-IsShared : IsShared two_and_one
two_and_one-IsShared = record {
  rest = 3 ∷ [];
  first = refl;
  apart = ((λ e. omega (arith, e)), tt);
  distinct = (tt, tt);
  paying = ((refl, λ e. omega (arith, e)), tt);
  member = λ k n l a. let d = a.0 in ground arith;
  total = refl;
  floor = omega arith;
}

set_cpu_share_lem_example :
    let (ok, t) = set_cpu_share 2 30 two_and_one in
    (((60 < 30 + 20) ⊎ (2 ^ 31 ≤ 30)) × (ok ≡ false) × (t ≡ two_and_one))
    ⊎ ((30 + 20 ≤ 60)
        × (ok ≡ true)
        × IsShared t
        × ((t.procs 2).share ≡ 30)
        × ((t.procs mlfq).share + 30 ≡ 60))
set_cpu_share_lem_example =
    set_cpu_share_lem two_and_one two_and_one-IsShared 2 30 (omega arith) (λ e. omega (arith, e))
      (λ e. omega (arith, e)) refl refl

leave_lem_example :
    IsShared (leave 3 two_and_one) × (((leave 3 two_and_one).procs mlfq).share ≡ 60 + 40)
leave_lem_example = leave_lem two_and_one two_and_one-IsShared 3 (λ e. omega (arith, e)) refl

-- A test of 30 passes; if two pass before either is granted, the virtual process is left with nothing.
test_passes : refuses mlfq 30 two_and_one ≡ false
test_passes = refl

nothing_left : ((grant 4 mlfq 30 (grant 2 mlfq 30 two_and_one)).procs mlfq).share ≡ 0
unfolding grant dequeue
nothing_left = refl

abbrev at_first : System
at_first = record { sched = two_and_one; asking = idle }

-- Process 3 exits between the test of process 2 and its lock.
abbrev after_grant : System
after_grant = record { sched = grant 2 mlfq 30 (leave 3 two_and_one); asking = idle }

abbrev test_exit_grant : Reach at_first after_grant
test_exit_grant =
    next
      (next
        (next here (
          tests at_first 2 30 refl (omega arith) (λ e. omega (arith, e)) (λ e. omega (arith, e))
            refl refl))
        (exits (record at_first { asking = passed 2 mlfq 30 }) 3 (λ e. omega (arith, e)) refl
          (λ e. omega (arith, e))))
      (grants (record { sched = leave 3 two_and_one; asking = passed 2 mlfq 30 }) 2 mlfq 30 refl)

Reach-IsShared_example : IsShared (grant 2 mlfq 30 (leave 3 two_and_one))
Reach-IsShared_example = Reach-IsShared two_and_one-IsShared refl test_exit_grant

schedule-ne-none_example : schedule (grant 2 mlfq 30 (leave 3 two_and_one)) ≢ none
schedule-ne-none_example = schedule-ne-none two_and_one-IsShared refl test_exit_grant

-- ===== src/Process/Tests.antt =====
-- Init forks a child and waits for it.
use hyu_2020_operating_syste.Base.{
  ℕ, ◌≡◌, refl, true, false, some, ◌==◌, if◌then◌else◌, arith, update,
}
use hyu_2020_operating_syste.Sched.{State}
use hyu_2020_operating_syste.Process.{
  ptr, Process, Procs, find_unused, allocproc, fork_child, sleep, scan, sleeps, wait,
}
use hyu_2020_operating_syste.Process.Relate.{is_active, state_of, parent_of, Tree, Waiting}
use hyu_2020_operating_syste.Process.Reach.{
  Reach, here, next, allocates, forks, waits, Reach-Tree, waiting-active,
}

abbrev free_slot : Process
free_slot = record { state = State.unused; pid = 0; parent = 0; chan = 0; killed = false }

abbrev init_only : Procs
init_only = record {
  table = λ k. if k == 0 then record free_slot { state = State.running; pid = 1 } else free_slot;
  next_pid = 2;
  init = 0;
}

abbrev with_embryo : Procs
with_embryo = record init_only {
  table = update init_only.table 1 (record free_slot { state = State.embryo; pid = 2 });
  next_pid = 3;
}

init_only-Tree : Tree init_only
init_only-Tree = record {
  init_active = refl;
  root = refl;
  outside = λ j h. ground arith;
  fresh = λ j e. ground arith;
  parents = λ j n e. ground arith;
  no_zombie = λ q j w p z. ground arith;
  has_child = λ q w. absurd (ground arith);
}

allocproc_runs : allocproc init_only ≡ some (1, with_embryo)
unfolding allocproc find_unused
allocproc_runs = refl

abbrev forked : Procs
forked = fork_child 0 1 with_embryo

wait_runs : wait 0 forked ≡ sleeps (sleep 0 (ptr 0) forked)
unfolding wait scan fork_child
wait_runs = refl

init_runs : state_of forked 0 ≡ State.running
unfolding fork_child
init_runs = refl

waiting-Reach : Reach init_only (sleep 0 (ptr 0) forked)
waiting-Reach =
    next
      (next (next here (allocates init_only with_embryo 1 allocproc_runs))
        (forks with_embryo 0 1 refl refl))
      (waits forked (sleep 0 (ptr 0) forked) 0 init_runs wait_runs)

init_waits : Waiting (sleep 0 (ptr 0) forked) 0
unfolding sleep
init_waits = (refl, refl)

Reach-Tree_example : Tree (sleep 0 (ptr 0) forked)
Reach-Tree_example = Reach-Tree init_only-Tree waiting-Reach

waiting-active_example :
    (j : ℕ) × (parent_of (sleep 0 (ptr 0) forked) j ≡ ptr 0)
    × (is_active (state_of (sleep 0 (ptr 0) forked) j) ≡ true)
waiting-active_example = waiting-active 0 init_only-Tree waiting-Reach init_waits

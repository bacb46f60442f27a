-- ===== src/Process.antt =====
-- The lives of processes in project1/xv6-public/proc.c: fork, exit, wait, sleep, wakeup and kill.
-- Each function here runs under `ptable.lock`.
pub mod Relate
pub mod Passed
pub mod Exit
pub mod Replace
pub mod Wait
pub mod Reach
mod Tests
use hyu_2020_operating_syste.Base.{
  ℕ, zero, suc, ◌+◌, ◌%◌, ◌^◌, Bool, true, false, ◌&&◌, ◌||◌, Option, none, some, ◌==◌,
  if◌then◌else◌, ltb, update,
}
use hyu_2020_operating_syste.Sched.{State, nproc, is_runnable}

-- A pointer is a number: 0 is null, `k + 1` is `&ptable.proc[k]`, and other addresses come after these.
abbrev pub Ptr : Type 0
Ptr = ℕ

abbrev pub ptr : ℕ → Ptr
ptr k = k + 1

-- the fields of `struct proc` that these functions use
pub record Process : Type 0 where
  pub state : State
  pub pid : ℕ
  pub parent : Ptr
  pub chan : Ptr
  pub killed : Bool

-- `table k` is `ptable.proc[k]` for k < NPROC, and `init` the index of `initproc`.
pub record Procs : Type 0 where
  pub table : ℕ → Process
  pub next_pid : ℕ
  pub init : ℕ

abbrev pub is_sleeping : State → Bool
is_sleeping State.sleeping = true
is_sleeping _ = false

abbrev pub is_zombie : State → Bool
is_zombie State.zombie = true
is_zombie _ = false

abbrev pub is_unused : State → Bool
is_unused State.unused = true
is_unused _ = false

abbrev pub set_process : ℕ → Process → Procs → Procs
set_process k p s = record s { table = update s.table k p }

-- `wakeup1`
unfoldable pub wakeup1 : Ptr → Procs → Procs
wakeup1 chan s = record s {
  table = λ k.
      if ltb k nproc && (is_sleeping (s.table k).state && ((s.table k).chan == chan))
      then record (s.table k) { state = State.runnable }
      else s.table k;
}

-- `sleep` of process `k`, up to `sched()`
unfoldable pub sleep : ℕ → Ptr → Procs → Procs
sleep k chan s = set_process k (record (s.table k) { chan = chan; state = State.sleeping }) s

-- the rest of `sleep`, when `k` runs again
unfoldable pub tidy_up : ℕ → Procs → Procs
tidy_up k s = set_process k (record (s.table k) { chan = 0 }) s

-- the loop of `kill` from entry `i` on; the Boolean says whether it returns 0
unfoldable pub kill_from : ℕ → ℕ → ℕ → Procs → Bool × Procs
kill_from zero i pid s = (false, s)
kill_from (suc n) i pid s =
    let rest = kill_from n (i + 1) pid s in
    let p = s.table i in
    if p.pid == pid
    then (
      true,
      set_process i
          (record p {
            killed = true;
            state = (if is_sleeping p.state then State.runnable else p.state);
          })
          s,
    )
    else rest

unfoldable pub kill : ℕ → Procs → Bool × Procs
kill pid s = kill_from nproc 0 pid s

-- the search of `allocproc`, from entry `i` on
unfoldable pub find_unused : ℕ → ℕ → Procs → Option ℕ
find_unused zero i s = none
find_unused (suc n) i s =
    let rest = find_unused n (i + 1) s in if is_unused (s.table i).state then some i else rest

-- `allocproc` up to its first `release`
unfoldable pub allocproc : Procs → Option (ℕ × Procs)
allocproc s = elim (find_unused nproc 0 s) [
  | none ↦ none
  | some k ↦ some (
    k,
    record s {
      table = update s.table k (record (s.table k) { state = State.embryo; pid = s.next_pid });
      next_pid = (s.next_pid + 1) % 2 ^ 32;
    },
  )
]

-- `np->state = UNUSED` of `allocproc` and `fork`, where memory runs out
unfoldable pub give_up : ℕ → Procs → Procs
give_up np s = set_process np (record (s.table np) { state = State.unused }) s

-- The end of `fork` by process `k`: `np->parent = curproc`, which the code sets on its own embryo before
-- it takes the lock, and then, under the lock, `np->state = RUNNABLE`. One step is enough: only `wait` and
-- `exit` of `k` look for the children of `k`, which is still in `fork`.
unfoldable pub fork_child : ℕ → ℕ → Procs → Procs
fork_child k np s =
    set_process np (record (s.table np) { parent = ptr k; state = State.runnable }) s

-- the loop of `exit` from entry `i` on: `curproc` is `k`
unfoldable pub pass_children : ℕ → ℕ → ℕ → Procs → Procs
pass_children zero i k s = s
pass_children (suc n) i k s =
    let given = set_process i (record (s.table i) { parent = ptr s.init }) s in
    let woken = if is_zombie (s.table i).state then wakeup1 (ptr s.init) given else given in
    pass_children n (i + 1) k (if (s.table i).parent == ptr k then woken else s)

-- `exit` of process `k` from `acquire(&ptable.lock)` on; `none` is the panic.
unfoldable pub exit : ℕ → Procs → Option Procs
exit k s =
    if k == s.init
    then none
    else (let s1 = wakeup1 (s.table k).parent s in
        let s2 = pass_children nproc 0 k s1 in
        some (set_process k (record (s2.table k) { state = State.zombie }) s2))

-- What the scan of `wait` finds: a child that has exited, or whether there are children.
pub data Scan : Type 0 where
  reaps : ℕ → Scan
  children : Bool → Scan

unfoldable pub scan : ℕ → ℕ → ℕ → Bool → Procs → Scan
scan zero i k have_kids s = children have_kids
scan (suc n) i k have_kids s =
    let p = s.table i in
    let rest = scan n (i + 1) k (have_kids || (p.parent == ptr k)) s in
    if p.parent == ptr k && is_zombie p.state then reaps i else rest

-- A run of `wait`: it returns a pid, returns -1, or sleeps.
pub data Waited : Type 0 where
  returns : ℕ → Procs → Waited
  fails : Waited
  sleeps : Procs → Waited

unfoldable pub wait : ℕ → Procs → Waited
wait k s = elim (scan nproc 0 k false s) [
  | reaps i ↦ returns (s.table i).pid (
      set_process i
        (record (s.table i) { pid = 0; parent = 0; killed = false; state = State.unused }) s)
  | children have_kids ↦
      if have_kids && (if (s.table k).killed then false else true)
      then sleeps (sleep k (ptr k) s)
      else fails
]

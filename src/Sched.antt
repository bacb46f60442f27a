-- ===== src/Sched.antt =====
-- The scheduler of project1/xv6-public/proc.c and trap.c: a multilevel feedback queue under a stride
-- scheduler, on one CPU: `scheduler` adds a virtual process to the stride table for each. Each function
-- runs under `ptable.lock`, but for the test of `set_cpu_share`, which is a function of its own, and the
-- fields that `allocproc` sets on its own slot. The queues and the table are lists, without the 64
-- entries of the arrays.
pub mod Choose
pub mod Shares
mod Tests
use hyu_2020_operating_syste.Base.{
  ℕ, zero, suc, ◌+◌, ◌-◌, ◌/◌, ◌%◌, ◌^◌, Bool, true, false, not, ◌&&◌, ◌||◌, Option, none, some,
  List, [], ◌∷◌, ◌++◌, ◌==◌, if◌then◌else◌, ltb, int_lt, update, get_or,
}

-- `enum procstate`
pub data State : Type 0 where
  unused embryo sleeping runnable running zombie : State

abbrev pub is_runnable : State → Bool
is_runnable State.runnable = true
is_runnable _ = false

-- The fields of `struct proc` that the scheduler uses; `int`s are bit patterns.
pub record Proc : Type 0 where
  pub state : State
  pub share : ℕ
  pub pass : ℕ
  pub lev : ℕ
  pub time_allotment : ℕ
  pub start_tick : ℕ
  pub from_trap : Bool

-- `procs k` is `ptable.proc[k]`, and `mlfq`, past them, the virtual process of `scheduler`.
-- `queue l` is `ARRAYQUEUE[l][0..q_size[l]]`, and `stable` is `stable.proc[0..stable_size]`.
pub record Sched : Type 0 where
  pub procs : ℕ → Proc
  pub queue : ℕ → List ℕ
  pub stable : List ℕ
  pub min_pass : ℕ
  pub mlfq_ticks : ℕ

abbrev pub nproc : ℕ
nproc = 64

abbrev pub mlfq : ℕ
mlfq = nproc

abbrev pub stride_lev : ℕ
stride_lev = 9

-- `int time_quantom[10]` and `time_allotment[10]`, with the entries that `scheduler` sets
pub time_quantom : ℕ → ℕ
time_quantom l =
    if l == 0
    then 1
    else if l == 1
    then 2
    else if l == 2
    then 4
    else if l == stride_lev
    then 5
    else 0

pub allotment : ℕ → ℕ
allotment l = if l == 0 then 5 else if l == 1 then 10 else if l == stride_lev then 5 else 0

abbrev pub set_proc : ℕ → Proc → Sched → Sched
set_proc k p s = record s { procs = update s.procs k p }

abbrev pub set_queue : ℕ → List ℕ → Sched → Sched
set_queue l q s = record s { queue = update s.queue l q }

-- the loop that takes the first entry for `k` out of a queue
pub dequeue : ℕ → List ℕ → List ℕ
dequeue k [] = []
dequeue k (x ∷ xs) = if x == k then xs else x ∷ dequeue k xs

-- The loop of `yield` goes on after a match, past the entry that has moved into its place; the flag
-- says that this entry is the next one.
pub dequeue_all : Bool → ℕ → List ℕ → List ℕ
dequeue_all skip k [] = []
dequeue_all true k (x ∷ xs) = x ∷ dequeue_all false k xs
dequeue_all false k (x ∷ xs) =
    let rest = dequeue_all true k xs in
    let kept = dequeue_all false k xs in if x == k then rest else x ∷ kept

-- `stable.proc[0]`
abbrev pub table_head : Sched → ℕ
table_head s = get_or s.stable 0 mlfq

-- the test of `set_cpu_share`, without the lock: `m` is its `mlfq`
abbrev pub refuses : ℕ → ℕ → Sched → Bool
refuses m share s = int_lt (((s.procs m).share + 2 ^ 32 - share) % 2 ^ 32) 20 || int_lt share 0

-- what `set_cpu_share` does under the lock, for process `k`
pub grant : ℕ → ℕ → ℕ → Sched → Sched
unfolding dequeue
grant k m share s =
    let left = ((s.procs m).share + 2 ^ 32 - share) % 2 ^ 32 in
    let s1 = set_proc m (record (s.procs m) { share = left }) s in
    let l = (s1.procs k).lev in
    record s1 {
      stable = s.stable ++ (k ∷ []);
      procs = update s1.procs k (record (s1.procs k) {
        share = share;
        pass = s.min_pass;
        lev = stride_lev;
        time_allotment = 5;
      });
      queue = update s1.queue l (dequeue k (s1.queue l));
    }

-- `set_cpu_share` called by process `k`, where nothing comes between its test and its lock; the result
-- is its return value.
pub set_cpu_share : ℕ → ℕ → Sched → Bool × Sched
set_cpu_share k share s =
    let m = table_head s in if refuses m share s then (false, s) else (true, grant k m share s)

-- the scheduling part of `allocproc`, on the slot `k` that it has found
pub enqueue_new : ℕ → ℕ → Sched → Sched
unfolding allotment
enqueue_new k ticks s = record s {
  procs = update s.procs k (record (s.procs k) {
    state = State.embryo;
    lev = 0;
    time_allotment = allotment 0;
    start_tick = ticks;
    share = 0;
    pass = 0;
  });
  queue = update s.queue 0 (s.queue 0 ++ (k ∷ []));
}

-- the scheduling part of `exit`
pub leave : ℕ → Sched → Sched
unfolding dequeue
leave k s =
    let p = s.procs k in
    let s1 =
      (if p.share == 0
        then set_queue p.lev (dequeue k (s.queue p.lev)) s
        else (let rest = dequeue k s.stable in
            let m = get_or rest 0 mlfq in
            record s {
              stable = rest;
              procs =
                  update s.procs m
                    (record (s.procs m) { share = ((s.procs m).share + p.share) % 2 ^ 32 });
            })) in
    set_proc k (record (s1.procs k) { state = State.zombie }) s1

-- `boost`: over `ptable.proc`, which leaves the virtual process out
pub boost : Sched → Sched
unfolding allotment
boost s = record s {
  procs = λ k.
      if ltb k nproc
      then record (s.procs k) { lev = 0; time_allotment = allotment 0 }
      else s.procs k;
}

-- `yield` of process `k`, up to `sched()`
pub yield : ℕ → Sched → Sched
unfolding allotment dequeue_all
yield k s =
    let p = s.procs k in
    let used =
      (if p.from_trap then p.time_allotment else (p.time_allotment + 2 ^ 32 - 1) % 2 ^ 32) in
    if p.share == 0
    then (let now = (if used == 0 && not (p.lev == 2) then p.lev + 1 else p.lev) in
        let q = update s.queue p.lev (dequeue_all false k (s.queue p.lev)) in
        record s {
          procs = update s.procs k (record p {
            state = State.runnable;
            lev = now;
            time_allotment = (if now == p.lev then used else allotment now);
          });
          queue = update q now (q now ++ (k ∷ []));
        })
    else set_proc k (record p { state = State.runnable; time_allotment = allotment p.lev }) s

-- `x % q == 0` for an `int` x
abbrev pub rem_zero : ℕ → ℕ → Bool
rem_zero x q = if ltb x (2 ^ 31) then x % q == 0 else (2 ^ 32 - x) % q == 0

-- The timer interrupt of `trap`, while process `k` is RUNNING.
pub timer : ℕ → Sched → Sched
unfolding boost yield time_quantom
timer k s =
    let s1 =
      (if (s.procs k).share == 0
        then record s { mlfq_ticks = (s.mlfq_ticks + 1) % 2 ^ 32 }
        else s) in
    let s2 = (if s1.mlfq_ticks % 200 == 0 then boost s1 else s1) in
    let p = s2.procs k in
    let s3 =
      set_proc k (record p { time_allotment = (p.time_allotment + 2 ^ 32 - 1) % 2 ^ 32 }) s2 in
    if rem_zero ((s3.procs k).time_allotment) (time_quantom p.lev)
    then yield k (set_proc k (record (s3.procs k) { from_trap = true }) s3)
    else s3

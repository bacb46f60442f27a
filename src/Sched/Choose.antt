-- ===== src/Sched/Choose.antt =====
-- One round of the loop of `scheduler` in project1/xv6-public/proc.c: which process runs next.
pub mod Stride
pub mod Level
use hyu_2020_operating_syste.Base.{
  ℕ, zero, suc, ◌+◌, ◌/◌, ◌%◌, ◌^◌, Bool, true, false, ◌&&◌, Option, none, some, List, [], ◌∷◌,
  ◌==◌, if◌then◌else◌, int_lt, get_or, update,
}
use hyu_2020_operating_syste.Sched.{State, is_runnable, Proc, Sched, set_proc, mlfq}

-- The loop over `stable.proc` from index `i` on; the pair is `min_index` and the process there.
unfoldable pub min_from : (ℕ → Proc) → ℕ × ℕ → ℕ → List ℕ → ℕ × ℕ
min_from procs best i [] = best
min_from procs best i (x ∷ xs) =
    min_from procs
      (if is_runnable (procs x).state && int_lt (procs x).pass (procs best.1).pass
        then (i, x)
        else best)
      (i + 1) xs

-- The loop over one level, with the `p` that it starts from; the Boolean is `found`.
unfoldable pub find_in : (ℕ → Proc) → ℕ → List ℕ → Bool × ℕ
find_in procs p [] = (false, p)
find_in procs p (x ∷ xs) =
    let rest = find_in procs x xs in
    if is_runnable (procs x).state && ((procs x).share == 0) then (true, x) else rest

-- the loop over the three levels
unfoldable pub find_runnable : (ℕ → Proc) → (ℕ → List ℕ) → ℕ → Bool × ℕ
unfolding find_in
find_runnable procs queue p0 =
    let (f0, p1) = find_in procs p0 (queue 0) in
    let (f1, p2) = find_in procs p1 (queue 1) in
    let last = find_in procs p2 (queue 2) in
    if f0 then (true, p1) else if f1 then (true, p2) else last

-- The round. `none` is the trap of a division by 0; the inner option is the process that is run.
unfoldable pub schedule : Sched → Option (Option ℕ × Sched)
unfolding min_from find_runnable
schedule s =
    let head = get_or s.stable 0 mlfq in
    let (i, b) = min_from s.procs (0, head) 0 s.stable in
    if (s.procs b).share == 0
    then none
    else (let pass = ((s.procs b).pass + 1000 / (s.procs b).share) % 2 ^ 32 in
        let s1 = record (set_proc b (record (s.procs b) { pass = pass }) s) { min_pass = pass } in
        let p = (if i == 0 then (find_runnable s1.procs s1.queue b).1 else b) in
        if is_runnable (s1.procs p).state
        then some (
          some p,
          set_proc p (record (s1.procs p) { start_tick = s1.mlfq_ticks; state = State.running }) s1,
        )
        else some (none, s1))

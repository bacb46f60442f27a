-- ===== src/Sched/Shares/Reach.antt =====
-- Any sequence of scheduler calls keeps the stride table well formed.
use hyu_2020_operating_syste.Base.{
  ℕ, ◌+◌, ◌^◌, ◌<◌, ◌≤◌, ◌≡◌, ◌≢◌, ◌∙◌, ap, refl, sym, subst, inl, inr, true, false, Option, none,
  some, arith, if◌then◌else◌, Bool-cases,
}
use hyu_2020_operating_syste.Sched.{
  Sched, mlfq, table_head, refuses, grant, leave, enqueue_new, yield, timer,
}
use hyu_2020_operating_syste.Sched.Choose.{schedule}
use hyu_2020_operating_syste.Sched.Shares.{is_live, live_at, IsShared}
use hyu_2020_operating_syste.Sched.Shares.Change.{SameShares, SameShares-IsShared}
use hyu_2020_operating_syste.Sched.Shares.Grant.{grant-IsShared}
use hyu_2020_operating_syste.Sched.Shares.Exit.{
  leave_lem, leave-other, enqueue_new-IsShared, enqueue_new-other,
}
use hyu_2020_operating_syste.Sched.Shares.Frame.{yield-SameShares, timer-SameShares}
use hyu_2020_operating_syste.Sched.Shares.Round.{schedule-SameShares, chosen-Paying}

-- A call of `set_cpu_share` that has passed its test and waits for the lock: its process, its `mlfq`
-- and the share.
pub data Asking : Type 0 where
  idle : Asking
  passed : ℕ → ℕ → ℕ → Asking

-- the test by process `k`
abbrev pub test_share : ℕ → ℕ → Sched → Asking
test_share k n s = if refuses (table_head s) n s then idle else passed k (table_head s) n

-- The process is in no call of `set_cpu_share`.
abbrev Outside : ℕ → Asking → Type 0
Outside k idle = Unit {0}
Outside k (passed j m n) = k ≢ j

pub record System : Type 0 where
  pub sched : Sched
  pub asking : Asking

-- One run of the scheduler's code under `ptable.lock`, by a live process or on a free slot, or the test
-- of `set_cpu_share` without it. Other runs may come between a test and its lock, but no other test.
pub data Step : System → System → Type 0 where
  tests :
      (s : System) (k n : ℕ)
      → s.asking ≡ idle
      → n < 2 ^ 32
      → n ≢ 0
      → k ≢ mlfq
      → live_at s.sched k ≡ true
      → (s.sched.procs k).share ≡ 0
      → Step s (record s { asking = test_share k n s.sched })
  grants :
      (s : System) (k m n : ℕ)
      → s.asking ≡ passed k m n
      → Step s (record { sched = grant k m n s.sched; asking = idle })
  exits :
      (s : System) (k : ℕ)
      → k ≢ mlfq
      → live_at s.sched k ≡ true
      → Outside k s.asking
      → Step s (record s { sched = leave k s.sched })
  creates :
      (s : System) (k ticks : ℕ)
      → k ≢ mlfq
      → live_at s.sched k ≡ false
      → Step s (record s { sched = enqueue_new k ticks s.sched })
  yields :
      (s : System) (k : ℕ)
      → live_at s.sched k ≡ true
      → Step s (record s { sched = yield k s.sched })
  interrupts :
      (s : System) (k : ℕ)
      → live_at s.sched k ≡ true
      → Step s (record s { sched = timer k s.sched })
  chooses :
      (s : System) (t : Sched) (o : Option ℕ)
      → schedule s.sched ≡ some (o, t)
      → Step s (record s { sched = t })

pub data Reach (s : System) : System → Type 0 where
  here : Reach s s
  next : {t u : System} → Reach s t → Step t u → Reach s u

-- What the test has found stays true until the lock.
pub record StillFits (k m n : ℕ) (s : Sched) : Type 0 where
  pub head : m ≡ mlfq
  pub some_share : n ≢ 0
  pub real : k ≢ mlfq
  pub live : live_at s k ≡ true
  pub none_yet : (s.procs k).share ≡ 0
  pub fits : n + 20 ≤ (s.procs mlfq).share

abbrev pub Fits : Asking → Sched → Type 0
Fits idle s = Unit {0}
Fits (passed k m n) s = StillFits k m n s

-- The table is well formed, and a call of `set_cpu_share` that has passed its test may still be granted.
pub record Consistent (s : System) : Type 0 where
  pub shared : IsShared s.sched
  pub fits : Fits s.asking s.sched

StillFits-keeps :
    (k m n : ℕ) (s t : Sched)
    → StillFits k m n s
    → live_at t k ≡ live_at s k
    → (t.procs k).share ≡ (s.procs k).share
    → (s.procs mlfq).share ≤ (t.procs mlfq).share
    → StillFits k m n t
StillFits-keeps k m n s t f l e g = record {
  head = f.head;
  some_share = f.some_share;
  real = f.real;
  live = l ∙ f.live;
  none_yet = e ∙ f.none_yet;
  fits = let h = f.fits in omega arith;
}

SameShares-Fits : (a : Asking) (s t : Sched) → SameShares s t → Fits a s → Fits a t
SameShares-Fits idle s t h f = tt
SameShares-Fits (passed k m n) s t h f =
    let e = h.share mlfq in StillFits-keeps k m n s t f (h.live k) (h.share k) (omega arith)

-- An exit of another process only adds to the share of the virtual process.
leave-Fits :
    (a : Asking) (s : Sched) (k : ℕ)
    → IsShared s
    → k ≢ mlfq
    → live_at s k ≡ true
    → Outside k a
    → Fits a s
    → Fits a (leave k s)
leave-Fits idle s k v nk l o f = tt
leave-Fits (passed j m n) s k v nk l o f =
    let same = leave-other s v k nk l j (λ e. o (sym e)) f.real in
    let grown = (leave_lem s v k nk l).1 in
    StillFits-keeps j m n s (leave k s) f (ap (λ q. is_live q.state) same) (ap (λ q. q.share) same)
      (omega arith)

enqueue_new-Fits :
    (a : Asking) (s : Sched) (k ticks : ℕ)
    → k ≢ mlfq
    → live_at s k ≡ false
    → Fits a s
    → Fits a (enqueue_new k ticks s)
enqueue_new-Fits idle s k ticks nk dead f = tt
enqueue_new-Fits (passed j m n) s k ticks nk dead f =
    let ne : j ≢ k = λ e. let l = f.live in let d = ap (live_at s) e ∙ dead in absurd (cc) in
    let same = enqueue_new-other s k ticks j ne in
    let head = ap (λ q. q.share) (enqueue_new-other s k ticks mlfq (λ e. nk (sym e))) in
    StillFits-keeps j m n s (enqueue_new k ticks s) f (ap (λ q. is_live q.state) same)
      (ap (λ q. q.share) same) (omega arith)

test_share-Fits :
    (s : Sched) (k n : ℕ)
    → IsShared s
    → n < 2 ^ 32
    → n ≢ 0
    → k ≢ mlfq
    → live_at s k ≡ true
    → (s.procs k).share ≡ 0
    → Fits (test_share k n s) s
test_share-Fits s k n v w nz nk l z = elim (Bool-cases (refuses mlfq n s)) [
  | inl no_share ↦ rw (head, no_share) tt
  | inr enough ↦
      let t = v.total in
      let b : (s.procs mlfq).share ≤ 100 = omega arith in
      let r = enough in
      rw (head, enough)
        (record {
          head = refl;
          some_share = nz;
          real = nk;
          live = l;
          none_yet = z;
          fits = ground arith;
        })
]
  where
    head : table_head s ≡ mlfq
    head = rw v.first refl

granted-IsShared :
    (s : Sched) (k m n : ℕ) → IsShared s → StillFits k m n s → IsShared (grant k m n s)
granted-IsShared s k m n v f =
    subst (λ (q : ℕ). IsShared (grant k q n s)) (sym f.head)
      (grant-IsShared s v k n f.some_share f.real f.live f.none_yet f.fits)

same_Consistent :
    (s : System) (t : Sched)
    → SameShares s.sched t
    → Consistent s
    → Consistent (record s { sched = t })
same_Consistent s t h v = record {
  shared = SameShares-IsShared s.sched t h v.shared;
  fits = SameShares-Fits s.asking s.sched t h v.fits;
}

Step-Consistent : {s t : System} → Step s t → Consistent s → Consistent t
Step-Consistent (tests s k n i w nz nk l z) v = record {
  shared = v.shared;
  fits = test_share-Fits s.sched k n v.shared w nz nk l z;
}
Step-Consistent (grants s k m n e) v = record {
  shared =
      granted-IsShared s.sched k m n v.shared (subst (λ (a : Asking). Fits a s.sched) e v.fits);
  fits = tt;
}
Step-Consistent (exits s k nk l o) v = record {
  shared = (leave_lem s.sched v.shared k nk l).0;
  fits = leave-Fits s.asking s.sched k v.shared nk l o v.fits;
}
Step-Consistent (creates s k ticks nk l) v = record {
  shared = enqueue_new-IsShared s.sched k ticks v.shared nk l;
  fits = enqueue_new-Fits s.asking s.sched k ticks nk l v.fits;
}
Step-Consistent (yields s k l) v = same_Consistent s _ (yield-SameShares s.sched k l) v
Step-Consistent (interrupts s k l) v = same_Consistent s _ (timer-SameShares s.sched k l) v
Step-Consistent (chooses s t o e) v =
    let (o', t', e', same) = schedule-SameShares s.sched (chosen-Paying s.sched v.shared) in
    let eq : t' ≡ t = cc in same_Consistent s t (subst (SameShares s.sched) eq same) v

Reach-Consistent : {s t : System} → Consistent s → Reach s t → Consistent t
Reach-Consistent v here = v
Reach-Consistent v (next r st) = Step-Consistent st (Reach-Consistent v r)

-- On one CPU, from a well-formed stride table on that no call of set_cpu_share has tested: in every
-- sequence of set_cpu_share, exit, allocproc, yield, timer and scheduler runs, in which others may come
-- between the test of set_cpu_share and its lock but no second test does, the table holds the virtual
-- process and then exactly the live processes with a share, each once; the shares add up to 100, and the
-- virtual process keeps at least 20. A process asks for a share only when it has none, and not for 0.
pub Reach-IsShared :
    {s t : System} → IsShared s.sched → s.asking ≡ idle → Reach s t → IsShared t.sched
Reach-IsShared {s} v i r =
    (Reach-Consistent
      (record { shared = v; fits = subst (λ (a : Asking). Fits a s.sched) (sym i) tt }) r).shared

-- In every state that such runs reach from such a state, on one CPU, with no second test of
-- set_cpu_share between a test and its lock, and where a process asks for a share only when it has
-- none and not for 0, the scheduler's next round does not divide by 0.
pub schedule-ne-none :
    {s t : System} → IsShared s.sched → s.asking ≡ idle → Reach s t → schedule t.sched ≢ none
schedule-ne-none {s} {t} v i r e =
    let (o, t', e', same) =
      schedule-SameShares t.sched (chosen-Paying t.sched (Reach-IsShared v i r)) in
    cc

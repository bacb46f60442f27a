-- ===== src/Sched/Shares/Frame.antt =====
-- The operations that leave the stride table and all shares as they are.
use hyu_2020_operating_syste.Base.{
  ℕ, ◌+◌, ◌-◌, ◌%◌, ◌^◌, ◌≡◌, ◌∙◌, sym, refl, inl, inr, Bool, true, false, update, update_self,
  update_ne, if◌then◌else◌, eq_cases, ◌==◌, Bool-cases, ltb,
}
use hyu_2020_operating_syste.Sched.{Proc, Sched, nproc, boost, yield, timer, rem_zero, time_quantom}
use hyu_2020_operating_syste.Sched.Shares.{is_live, live_at}
use hyu_2020_operating_syste.Sched.Shares.Change.{SameShares}

-- One process is changed in what the table does not show.
pub same_update :
    (s t : Sched) (k : ℕ) (p : Proc)
    → t.stable ≡ s.stable
    → t.procs ≡ update s.procs k p
    → p.share ≡ (s.procs k).share
    → is_live p.state ≡ live_at s k
    → SameShares s t
same_update s t k p e f sh l = record {
  stable = e;
  share = λ x. elim (eq_cases x k) [
    | inl same ↦ rw (f, same, update_self s.procs k p) sh
    | inr other ↦ rw (f, update_ne s.procs k x p other) refl
  ];
  live = λ x. elim (eq_cases x k) [
    | inl same ↦ rw (f, same, update_self s.procs k p) l
    | inr other ↦ rw (f, update_ne s.procs k x p other) refl
  ];
}

pub same_trans : (s t u : Sched) → SameShares s t → SameShares t u → SameShares s u
same_trans s t u a b = record {
  stable = b.stable ∙ a.stable;
  share = λ x. b.share x ∙ a.share x;
  live = λ x. b.live x ∙ a.live x;
}

same_self : (s : Sched) → SameShares s s
same_self s = record { stable = refl; share = λ x. refl; live = λ x. refl }

same_if :
    (s t u : Sched) (b : Bool) → SameShares s t → SameShares s u → SameShares s (if b then t else u)
same_if s t u true h k = h
same_if s t u false h k = k

pub yield-SameShares : (s : Sched) (k : ℕ) → live_at s k ≡ true → SameShares s (yield k s)
unfolding yield
yield-SameShares s k l =
    same_if s _ _ ((s.procs k).share == 0) (same_update s _ k _ refl refl refl (sym l))
      (same_update s _ k _ refl refl refl (sym l))

boost-SameShares : (s : Sched) → SameShares s (boost s)
unfolding boost
boost-SameShares s = record {
  stable = refl;
  share = λ x. elim (Bool-cases (ltb x nproc)) [ inl y ↦ rw y refl | inr n ↦ rw n refl ];
  live = λ x. elim (Bool-cases (ltb x nproc)) [ inl y ↦ rw y refl | inr n ↦ rw n refl ];
}

pub timer-SameShares : (s : Sched) (k : ℕ) → live_at s k ≡ true → SameShares s (timer k s)
unfolding timer
timer-SameShares s k l =
    let counted : SameShares s s1 =
      same_if s _ _ ((s.procs k).share == 0)
        (record { stable = refl; share = λ x. refl; live = λ x. refl }) (same_self s) in
    let boosted : SameShares s s2 =
      same_trans s s1 s2 counted
        (same_if s1 _ _ (s1.mlfq_ticks % 200 == 0) (boost-SameShares s1) (same_self s1)) in
    let charged : SameShares s s3 =
      same_trans s s2 s3 boosted (same_update s2 s3 k _ refl refl refl refl) in
    let marked : SameShares s s4 =
      same_trans s s3 s4 charged (same_update s3 s4 k _ refl refl refl refl) in
    same_if s _ _ (rem_zero ((s3.procs k).time_allotment) (time_quantom ((s2.procs k).lev)))
      (same_trans s s4 (yield k s4) marked (yield-SameShares s4 k (marked.live k ∙ l))) charged
  where
    s1 : Sched
    s1 =
        (if (s.procs k).share == 0
          then record s { mlfq_ticks = (s.mlfq_ticks + 1) % 2 ^ 32 }
          else s)

    s2 : Sched
    s2 = if s1.mlfq_ticks % 200 == 0 then boost s1 else s1

    s3 : Sched
    s3 = record s2 {
      procs = update s2.procs k (record (s2.procs k) {
        time_allotment = ((s2.procs k).time_allotment + 2 ^ 32 - 1) % 2 ^ 32;
      });
    }

    s4 : Sched
    s4 = record s3 { procs = update s3.procs k (record (s3.procs k) { from_trap = true }) }

-- ===== src/Sched/Shares/Exit.antt =====
-- `exit`, and the slot that `allocproc` gives out again.
use hyu_2020_operating_syste.Base.{
  ℕ, ◌+◌, ◌%◌, ◌^◌, ◌≡◌, ◌≢◌, ◌∙◌, sym, ap, refl, inl, inr, Bool, true, false, List, ◌∷◌, arith,
  Absent, update, update_self, update_ne, eq_cases, ◌==◌, Bool-cases, ==→eq, ==→ne, ne→==,
}
use hyu_2020_operating_syste.Sched.{Proc, Sched, mlfq, dequeue, leave, enqueue_new}
use hyu_2020_operating_syste.Sched.Shares.{
  is_live, live_at, Paying, IsShared, shares, shares-update, dequeue-shares, All-dequeue,
  Distinct-dequeue, dequeue-Absent, Absent-dequeue,
}
use hyu_2020_operating_syste.Sched.Shares.Change.{outsider, outside, All-update}

false_true : ◌≢◌ {A = Bool} false true
false_true e = cc

module _ (s : Sched) (v : IsShared s) (k : ℕ) (nk : k ≢ mlfq) (live : live_at s k ≡ true) where
  abbrev given_back : ℕ
  given_back = ((s.procs mlfq).share + (s.procs k).share) % 2 ^ 32

  abbrev left_over : List ℕ
  left_over = dequeue k v.rest

  abbrev g : ℕ → Proc
  g = update s.procs mlfq (record (s.procs mlfq) { share = given_back })

  returned :
      (t : Sched) (p : Proc)
      → (s.procs k).share ≢ 0
      → t.stable ≡ mlfq ∷ left_over
      → t.procs ≡ update g k p
      → is_live p.state ≡ false
      → IsShared t × ((t.procs mlfq).share ≡ (s.procs mlfq).share + (s.procs k).share)
  returned t p pays e f dead = (
    record {
      rest = left_over;
      first = e;
      apart = apart;
      distinct = Distinct-dequeue k v.rest v.distinct;
      paying = rw f (
          All-update Paying g k p left_over (dequeue-Absent k v.rest v.distinct) (
            All-update Paying s.procs mlfq _ left_over apart
              (All-dequeue (λ x. Paying (s.procs x)) k v.rest v.paying)));
      member = λ x nx l ax. elim (eq_cases x k) [
        | inl same ↦
            let here : t.procs x ≡ p = rw (f, same) (update_self g k p) in
            absurd (false_true (sym dead ∙ ap (λ q. is_live q.state) (sym here) ∙ l))
        | inr other ↦
            let same : t.procs x ≡ s.procs x =
              rw f (update_ne g k x p other ∙ update_ne s.procs mlfq x _ nx) in
            ap (λ q. q.share) same
            ∙ v.member x nx (sym (ap (λ q. is_live q.state) same) ∙ l)
                (Absent-dequeue k x v.rest other ax)
      ];
      total =
          let s1 = shares-update g k p left_over (dequeue-Absent k v.rest v.distinct) in
          let s2 =
            shares-update s.procs mlfq (record (s.procs mlfq) { share = given_back }) left_over
              apart in
          let s3 = split in let t0 = v.total in rw (f, at_mlfq) (omega arith);
      floor =
          let fl = v.floor in let s3 = split in let t0 = v.total in rw (f, at_mlfq) (omega arith);
    },
    (let s3 = split in let t0 = v.total in rw (f, at_mlfq) (omega arith)),
  )
    where
      apart : Absent mlfq left_over
      apart = All-dequeue (λ x. mlfq ≢ x) k v.rest v.apart

      at_mlfq : update g k p mlfq ≡ record (s.procs mlfq) { share = given_back }
      at_mlfq = update_ne g k mlfq p (λ e. nk (sym e)) ∙ update_self s.procs mlfq _

      split : shares s.procs left_over + (s.procs k).share ≡ shares s.procs v.rest
      split = elim (dequeue-shares s.procs k v.rest) [
        | inl a ↦ absurd (pays (v.member k nk live a))
        | inr h ↦ h
      ]

  table : dequeue k s.stable ≡ mlfq ∷ left_over
  unfolding dequeue
  table = rw (v.first, ne→== mlfq k (λ e. nk (sym e))) refl

  -- When a live process exits, the virtual process gets its share back, and the table stays well
  -- formed.
  pub leave_lem :
      IsShared (leave k s)
      × (((leave k s).procs mlfq).share ≡ (s.procs mlfq).share + (s.procs k).share)
  unfolding leave
  leave_lem = elim (Bool-cases ((s.procs k).share == 0)) [
    | inl none_left ↦
        let z = ==→eq (s.procs k).share 0 none_left in
        rw none_left (
          outside s v _ k _ refl refl nk (outsider s.procs k v.rest (λ q. q.1 z) v.paying)
              (inr refl),
          ap (λ q. q.share) (update_ne s.procs k mlfq _ (λ e. nk (sym e))) ∙ (omega arith),
        )
    | inr some_left ↦
        rw (some_left, table) (returned _ _ (==→ne (s.procs k).share 0 some_left) refl refl refl)
  ]

  -- The other processes stay as they are.
  pub leave-other : (x : ℕ) → x ≢ k → x ≢ mlfq → (leave k s).procs x ≡ s.procs x
  unfolding leave
  leave-other x n nm = elim (Bool-cases ((s.procs k).share == 0)) [
    | inl none_left ↦ rw none_left (update_ne s.procs k x _ n)
    | inr some_left ↦
        rw (some_left, table)
          (update_ne g k x _ n
            ∙ update_ne s.procs mlfq x (record (s.procs mlfq) { share = given_back }) nm)
  ]

-- A slot that is given out anew is not in the table, and has no share.
pub enqueue_new-IsShared :
    (s : Sched) (k ticks : ℕ)
    → IsShared s
    → k ≢ mlfq
    → live_at s k ≡ false
    → IsShared (enqueue_new k ticks s)
unfolding enqueue_new
enqueue_new-IsShared s k ticks v nk dead =
    outside s v _ k _ refl refl nk
      (outsider s.procs k v.rest (λ q. false_true (sym dead ∙ q.0)) v.paying) (inl refl)

pub enqueue_new-other :
    (s : Sched) (k ticks x : ℕ) → x ≢ k → (enqueue_new k ticks s).procs x ≡ s.procs x
unfolding enqueue_new
enqueue_new-other s k ticks x n = update_ne s.procs k x _ n

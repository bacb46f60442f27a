-- ===== src/Sched/Shares/Grant.antt =====
-- `set_cpu_share`.
use hyu_2020_operating_syste.Base.{
  ℕ, ◌+◌, ◌%◌, ◌^◌, ◌-◌, ◌≤◌, ◌<◌, ◌≡◌, ◌≢◌, ◌∙◌, sym, ap, refl, ◌⊎◌, inl, inr, Bool, true, false,
  ◌||◌, arith, Absent, update, update_self, update_ne, int_lt, Bool-cases, get_or, subst,
}
use hyu_2020_operating_syste.Sched.{Proc, Sched, mlfq, refuses, grant, set_cpu_share}
use hyu_2020_operating_syste.Sched.Shares.{is_live, live_at, IsShared}
use hyu_2020_operating_syste.Sched.Shares.Change.{outsider, granted}

module _ (s : Sched) (v : IsShared s) (k n : ℕ) where
  abbrev left : ℕ
  left = ((s.procs mlfq).share + 2 ^ 32 - n) % 2 ^ 32

  abbrev refused : Bool
  refused = int_lt left 20 || int_lt n 0

  -- The call refuses what would leave the virtual process less than 20, and negative shares, without a
  -- change. It grants every other share: the process has it, the virtual process has that much less,
  -- and the table stays well formed. The caller is a live process with no share that asks for an `int`
  -- other than 0.
  pub set_cpu_share_lem :
      n < 2 ^ 32
      → n ≢ 0
      → k ≢ mlfq
      → live_at s k ≡ true
      → (s.procs k).share ≡ 0
      → let (ok, t) = set_cpu_share k n s in
        ((((s.procs mlfq).share < n + 20) ⊎ (2 ^ 31 ≤ n)) × (ok ≡ false) × (t ≡ s))
        ⊎ ((n + 20 ≤ (s.procs mlfq).share)
            × (ok ≡ true)
            × IsShared t
            × ((t.procs k).share ≡ n)
            × ((t.procs mlfq).share + n ≡ (s.procs mlfq).share))
  unfolding set_cpu_share grant
  set_cpu_share_lem word some_share nk l none_yet = elim (Bool-cases refused) [
    | inl refuses ↦
        rw (at_head, refuses) (inl (let b = bound in let r = refuses in ground arith, refl, refl))
    | inr grants ↦
        let b = bound in
        let r = grants in
        let fits : n + 20 ≤ (s.procs mlfq).share = ground arith in
        let sum : left + n ≡ (s.procs mlfq).share = omega arith in
        rw (at_head, grants)
          (inr (
            fits,
            refl,
            granted s v k n left _ _ refl refl nk absent_before (live_after, some_share) refl sum
                (omega arith),
            ap (λ p. p.share) (update_self g k _),
            ap (λ p. p.share + n)
                  (update_ne g k mlfq _ (λ e. nk (sym e)) ∙ update_self s.procs mlfq _)
                ∙ sum,
          ))
  ]
    where
      at_head : get_or s.stable 0 mlfq ≡ mlfq
      at_head = rw v.first refl

      g : ℕ → Proc
      g = update s.procs mlfq (record (s.procs mlfq) { share = left })

      bound : (s.procs mlfq).share ≤ 100
      bound = let t = v.total in omega arith

      absent_before : Absent k v.rest
      absent_before = outsider s.procs k v.rest (λ p. p.1 none_yet) v.paying

      live_after : is_live (g k).state ≡ true
      live_after = ap (λ p. is_live p.state) (update_ne s.procs mlfq k _ nk) ∙ l

  refuses-false : n + 20 ≤ (s.procs mlfq).share → refuses mlfq n s ≡ false
  refuses-false fits = let b : (s.procs mlfq).share ≤ 100 = at_most in ground arith
    where
      at_most : (s.procs mlfq).share ≤ 100
      at_most = let t = v.total in omega arith

  -- The part under the lock, as long as the virtual process has enough.
  pub grant-IsShared :
      n ≢ 0
      → k ≢ mlfq
      → live_at s k ≡ true
      → (s.procs k).share ≡ 0
      → n + 20 ≤ (s.procs mlfq).share
      → IsShared (grant k mlfq n s)
  unfolding set_cpu_share
  grant-IsShared some_share nk l none_yet fits =
      let t = v.total in
      let head : get_or s.stable 0 mlfq ≡ mlfq = rw v.first refl in
      let e : set_cpu_share k n s ≡ (true, grant k mlfq n s) = rw (head, refuses-false fits) refl in
      elim (set_cpu_share_lem (omega arith) some_share nk l none_yet) [
        | inl (r, _, _) ↦ elim r [ inl a ↦ absurd (omega arith) | inr b ↦ absurd (omega arith) ]
        | inr (_, _, i, _, _) ↦ subst (λ (q : Bool × Sched). IsShared q.1) e i
      ]

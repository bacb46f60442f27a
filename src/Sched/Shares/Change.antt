-- ===== src/Sched/Shares/Change.antt =====
-- The operations of the scheduler that change a share: `set_cpu_share`, `exit` and `allocproc`.
use hyu_2020_operating_syste.Base.{
  ℕ, ◌+◌, ◌≤◌, ◌≡◌, ◌≢◌, ◌∙◌, sym, ap, ap₂, ◌⊎◌, inl, inr, Bool, true, false, List, [], ◌∷◌, ◌++◌,
  arith, All, All-append, Absent, update, update_self, update_ne, eq_cases, subst,
}
use hyu_2020_operating_syste.Sched.{Proc, Sched, mlfq}
use hyu_2020_operating_syste.Sched.Shares.{
  is_live, live_at, Paying, IsShared, shares-append, shares-update, shares-ext, Distinct-snoc,
}

-- Two states whose tables and shares are the same, over the same live processes.
pub record SameShares (s t : Sched) : Type 0 where
  pub stable : t.stable ≡ s.stable
  pub share : (x : ℕ) → (t.procs x).share ≡ (s.procs x).share
  pub live : (x : ℕ) → live_at t x ≡ live_at s x

All-same :
    (s t : Sched) (xs : List ℕ)
    → SameShares s t
    → All (λ x. Paying (s.procs x)) xs
    → All (λ x. Paying (t.procs x)) xs
All-same s t [] h a = tt
All-same s t (x ∷ xs) h a =
    ((h.live x ∙ a.0.0, λ e. a.0.1 (sym (h.share x) ∙ e)), All-same s t xs h a.1)

pub SameShares-IsShared : (s t : Sched) → SameShares s t → IsShared s → IsShared t
SameShares-IsShared s t h v = record {
  rest = v.rest;
  first = h.stable ∙ v.first;
  apart = v.apart;
  distinct = v.distinct;
  paying = All-same s t v.rest h v.paying;
  member = λ k n l a. h.share k ∙ v.member k n (sym (h.live k) ∙ l) a;
  total = ap₂ ◌+◌ (h.share mlfq) (shares-ext s.procs t.procs v.rest h.share) ∙ v.total;
  floor = let f = v.floor in let e = h.share mlfq in omega arith;
}

-- A process that does not pay is not in the table.
pub outsider :
    (f : ℕ → Proc) (k : ℕ) (xs : List ℕ) → ¬ Paying (f k) → All (λ x. Paying (f x)) xs → Absent k xs
outsider f k [] h a = tt
outsider f k (x ∷ xs) h a =
    ((λ e. h (subst (λ y. Paying (f y)) (sym e) a.0)), outsider f k xs h a.1)

pub All-update :
    (P : Proc → Type 0) (f : ℕ → Proc) (k : ℕ) (p : Proc) (xs : List ℕ)
    → Absent k xs
    → All (λ x. P (f x)) xs
    → All (λ x. P (update f k p x)) xs
All-update P f k p [] n a = tt
All-update P f k p (x ∷ xs) n a =
    (subst P (sym (update_ne f k x p (λ e. n.0 (sym e)))) a.0, All-update P f k p xs n.1 a.1)

module _ (s : Sched) (v : IsShared s) where
  -- One process that is not in the table is changed to one with no share.
  pub outside :
      (t : Sched) (k : ℕ) (p : Proc)
      → t.stable ≡ s.stable
      → t.procs ≡ update s.procs k p
      → k ≢ mlfq
      → Absent k v.rest
      → p.share ≡ 0 ⊎ is_live p.state ≡ false
      → IsShared t
  outside t k p e f n a z = record {
    rest = v.rest;
    first = e ∙ v.first;
    apart = v.apart;
    distinct = v.distinct;
    paying = rw f (All-update Paying s.procs k p v.rest a v.paying);
    member = λ x nx l ax. elim (eq_cases x k) [
      | inl same ↦
          let here : t.procs x ≡ p = rw (f, same) (update_self s.procs k p) in
          elim z [
            | inl none_left ↦ ap (λ q. q.share) here ∙ none_left
            | inr dead ↦ absurd (no (sym dead ∙ ap (λ q. is_live q.state) (sym here) ∙ l))
          ]
      | inr other ↦
          let g = update_ne s.procs k x p other in rw (f, g) (v.member x nx (rw (f, g) at l) ax)
    ];
    total =
        rw (f, update_ne s.procs k mlfq p (λ e. n (sym e)), shares-update s.procs k p v.rest a)
          v.total;
    floor = rw (f, update_ne s.procs k mlfq p (λ e. n (sym e))) v.floor;
  }
    where
      no : ◌≢◌ {A = Bool} false true
      no e = cc

-- A call of `set_cpu_share` that is granted.
module _ (s : Sched) (v : IsShared s) (k n left : ℕ) (p : Proc) (t : Sched) where
  pub granted :
      t.stable ≡ s.stable ++ (k ∷ [])
      → t.procs ≡ update (update s.procs mlfq (record (s.procs mlfq) { share = left })) k p
      → k ≢ mlfq
      → Absent k v.rest
      → Paying p
      → p.share ≡ n
      → left + n ≡ (s.procs mlfq).share
      → 20 ≤ left
      → IsShared t
  granted e f nk a pays sh sum fl = record {
    rest = v.rest ++ (k ∷ []);
    first = e ∙ ap (λ l. l ++ (k ∷ [])) v.first;
    apart = All-append (λ x. mlfq ≢ x) v.rest (k ∷ []) v.apart ((λ e. nk (sym e)), tt);
    distinct = Distinct-snoc k v.rest v.distinct a;
    paying = rw f (
        All-append (λ x. Paying (update g k p x)) v.rest (k ∷ [])
          (All-update Paying g k p v.rest a
            (All-update Paying s.procs mlfq m v.rest v.apart v.paying))
          (rw (update_self g k p) pays, tt));
    member = λ x nx l ax.
        let out = kept x v.rest ax in
        let same : t.procs x ≡ s.procs x =
          rw f (update_ne g k x p out.0 ∙ update_ne s.procs mlfq x m nx) in
        ap (λ q. q.share) same ∙ v.member x nx (sym (ap (λ q. is_live q.state) same) ∙ l) out.1;
    total =
        let s1 = shares-append (update g k p) v.rest (k ∷ []) in
        let s2 = shares-update g k p v.rest a in
        let s3 = shares-update s.procs mlfq m v.rest v.apart in
        let s4 = ap (λ q. q.share) (update_self g k p) ∙ sh in
        let t0 = v.total in rw (f, at_mlfq) (omega arith);
    floor = rw (f, at_mlfq) fl;
  }
    where
      m : Proc
      m = record (s.procs mlfq) { share = left }

      g : ℕ → Proc
      g = update s.procs mlfq m

      at_mlfq : update g k p mlfq ≡ m
      at_mlfq = update_ne g k mlfq p (λ e. nk (sym e)) ∙ update_self s.procs mlfq m

      kept : (x : ℕ) (xs : List ℕ) → Absent x (xs ++ (k ∷ [])) → (x ≢ k) × Absent x xs
      kept x [] h = (h.0, tt)
      kept x (y ∷ ys) h = let r = kept x ys h.1 in (r.0, (h.0, r.1))

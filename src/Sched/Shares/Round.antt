-- ===== src/Sched/Shares/Round.antt =====
-- A round of the scheduler on a well-formed stride table.
use hyu_2020_operating_syste.Base.{
  ℕ, zero, suc, ◌+◌, ◌/◌, ◌%◌, ◌^◌, ◌≡◌, ◌≢◌, ◌∙◌, sym, ap, subst, refl, inl, inr, true, Option,
  none, some, List, [], ◌∷◌, arith, update, if◌then◌else◌, ◌==◌, Bool-cases, ==→eq, get_elem?, All,
  get_or,
}
use hyu_2020_operating_syste.Sched.{State, is_runnable, Sched, mlfq}
use hyu_2020_operating_syste.Sched.Choose.{min_from, find_runnable, schedule}
use hyu_2020_operating_syste.Sched.Choose.Stride.{Least, min_from-Least}
use hyu_2020_operating_syste.Sched.Shares.{is_live, Paying, IsShared}
use hyu_2020_operating_syste.Sched.Shares.Change.{SameShares}
use hyu_2020_operating_syste.Sched.Shares.Frame.{same_update, same_trans}

pub chosen : Sched → ℕ
chosen s = (min_from s.procs (0, get_or s.stable 0 mlfq) 0 s.stable).1

live_of_runnable : (st : State) → is_runnable st ≡ true → is_live st ≡ true
live_of_runnable State.runnable e = refl
live_of_runnable State.unused e = cc
live_of_runnable State.embryo e = refl
live_of_runnable State.sleeping e = refl
live_of_runnable State.running e = refl
live_of_runnable State.zombie e = cc

-- A round that does not divide by 0 changes nothing that the table shows.
pub schedule-SameShares :
    (s : Sched)
    → (s.procs (chosen s)).share ≢ 0
    → (o : Option ℕ) × (t : Sched) × (schedule s ≡ some (o, t)) × SameShares s t
unfolding schedule chosen
schedule-SameShares s pays = elim (Bool-cases ((s.procs b).share == 0)) [
  | inl z ↦ absurd (pays (==→eq _ 0 z))
  | inr nz ↦ elim (Bool-cases (is_runnable (s1.procs p).state)) [
    | inl r ↦ (
      some p,
      s2,
      rw (nz, r) refl,
      same_trans s s1 s2 charged
          (same_update s1 s2 p _ refl refl refl (sym (live_of_runnable (s1.procs p).state r))),
    )
    | inr r ↦ (none, s1, rw (nz, r) refl, charged)
  ]
]
  where
    b : ℕ
    b = (min_from s.procs (0, get_or s.stable 0 mlfq) 0 s.stable).1

    i : ℕ
    i = (min_from s.procs (0, get_or s.stable 0 mlfq) 0 s.stable).0

    pass : ℕ
    pass = ((s.procs b).pass + 1000 / (s.procs b).share) % 2 ^ 32

    s1 : Sched
    s1 = record s { procs = update s.procs b (record (s.procs b) { pass = pass }); min_pass = pass }

    p : ℕ
    p = if i == 0 then (find_runnable s1.procs s1.queue b).1 else b

    s2 : Sched
    s2 = record s1 {
      procs =
          update s1.procs p
            (record (s1.procs p) { start_tick = s1.mlfq_ticks; state = State.running });
    }

    charged : SameShares s s1
    charged = same_update s s1 b _ refl refl refl refl

All-at : (P : ℕ → Type 0) (k x : ℕ) (xs : List ℕ) → All P xs → get_elem? xs k ≡ some x → P x
All-at P k x [] a e = cc
All-at P zero x (y ∷ ys) a e = let same : y ≡ x = cc in subst P same a.0
All-at P (suc k) x (y ∷ ys) a e = All-at P k x ys a.1 e

All-map : (P Q : ℕ → Type 0) (xs : List ℕ) → ((x : ℕ) → P x → Q x) → All P xs → All Q xs
All-map P Q [] f a = tt
All-map P Q (x ∷ xs) f a = (f x a.0, All-map P Q xs f a.1)

pub chosen-Paying : (s : Sched) → IsShared s → (s.procs (chosen s)).share ≢ 0
unfolding chosen
chosen-Paying s v = elim l.where_it_is [
  | inl e ↦ subst Some (sym (ap (λ q. q.1) e ∙ at_head)) head
  | inr (k, i, at, r) ↦
      All-at Some k _ (mlfq ∷ v.rest)
        (head, All-map (λ x. Paying (s.procs x)) Some v.rest (λ x p. p.1) v.paying)
        (ap (λ q. get_elem? q k) (sym v.first) ∙ at)
]
  where
    Some : ℕ → Type 0
    Some x = (s.procs x).share ≢ 0

    head : (s.procs mlfq).share ≢ 0
    head = λ e. let f = v.floor in omega arith

    at_head : get_or s.stable 0 mlfq ≡ mlfq
    at_head = rw v.first refl

    l :
        Least s.procs
          (0, get_or s.stable 0 mlfq)
          0
          s.stable
          (min_from s.procs (0, get_or s.stable 0 mlfq) 0 s.stable)
    l = min_from-Least s.procs (0, get_or s.stable 0 mlfq) 0 s.stable

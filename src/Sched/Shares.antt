-- ===== src/Sched/Shares.antt =====
-- CPU shares: `set_cpu_share` takes from the virtual process of the feedback queue, `exit` gives back.
pub mod Change
pub mod Grant
pub mod Exit
pub mod Frame
pub mod Round
pub mod Reach
use hyu_2020_operating_syste.Base.{
  ℕ, ◌+◌, ◌≤◌, ◌<◌, ◌≡◌, ◌≢◌, ◌∙◌, sym, ap, subst, ap₂, refl, ◌⊎◌, inl, inr, Bool, true, false,
  List, [], ◌∷◌, ◌++◌, arith, All, All-append, Absent, Distinct, update, update_self, update_ne,
  eq_cases, ◌==◌, if◌then◌else◌, eq→==, ne→==, Bool-cases, ==→eq, ==→ne,
}
use hyu_2020_operating_syste.Sched.{State, Proc, Sched, mlfq, dequeue}

-- the processes that can take part in scheduling
abbrev pub is_live : State → Bool
is_live State.unused = false
is_live State.zombie = false
is_live _ = true

abbrev pub live_at : Sched → ℕ → Bool
live_at s k = is_live (s.procs k).state

abbrev pub Paying : Proc → Type 0
Paying p = (is_live p.state ≡ true) × (p.share ≢ 0)

-- the shares of the entries of a list, added up
abbrev pub shares : (ℕ → Proc) → List ℕ → ℕ
shares f [] = 0
shares f (x ∷ xs) = (f x).share + shares f xs

-- The stride table has the virtual process first, then the live processes with a share, each once;
-- its shares add up to 100, and the virtual process keeps 20 of them.
pub record IsShared (s : Sched) : Type 0 where
  pub rest : List ℕ
  pub first : s.stable ≡ mlfq ∷ rest
  pub apart : Absent mlfq rest
  pub distinct : Distinct rest
  pub paying : All (λ x. Paying (s.procs x)) rest
  pub member : (k : ℕ) → k ≢ mlfq → live_at s k ≡ true → Absent k rest → (s.procs k).share ≡ 0
  pub total : (s.procs mlfq).share + shares s.procs rest ≡ 100
  pub floor : 20 ≤ (s.procs mlfq).share

pub shares-append :
    (f : ℕ → Proc) (xs ys : List ℕ) → shares f (xs ++ ys) ≡ shares f xs + shares f ys
shares-append f [] ys = omega arith
shares-append f (x ∷ xs) ys = omega (arith, shares-append f xs ys)

pub shares-update :
    (f : ℕ → Proc) (k : ℕ) (p : Proc) (xs : List ℕ)
    → Absent k xs
    → shares (update f k p) xs ≡ shares f xs
shares-update f k p [] a = refl
shares-update f k p (x ∷ xs) a =
    ap₂ ◌+◌ (ap (λ q. q.share) (update_ne f k x p (λ e. a.0 (sym e)))) (shares-update f k p xs a.1)

pub shares-ext :
    (f g : ℕ → Proc) (xs : List ℕ)
    → ((x : ℕ) → (g x).share ≡ (f x).share)
    → shares g xs ≡ shares f xs
shares-ext f g [] h = refl
shares-ext f g (x ∷ xs) h = ap₂ ◌+◌ (h x) (shares-ext f g xs h)

pub Distinct-snoc : (k : ℕ) (xs : List ℕ) → Distinct xs → Absent k xs → Distinct (xs ++ (k ∷ []))
Distinct-snoc k [] d a = (tt, tt)
Distinct-snoc k (x ∷ xs) d a =
    (All-append (λ y. x ≢ y) xs (k ∷ []) d.0 ((λ e. a.0 (sym e)), tt), Distinct-snoc k xs d.1 a.1)

-- `k` occurs, and `dequeue` takes it out with its share, or it does not.
pub dequeue-shares :
    (f : ℕ → Proc) (k : ℕ) (xs : List ℕ)
    → Absent k xs ⊎ (shares f (dequeue k xs) + (f k).share ≡ shares f xs)
unfolding dequeue
dequeue-shares f k [] = inl tt
dequeue-shares f k (x ∷ xs) = elim (Bool-cases (x == k)) [
  | inl same ↦ let e = ==→eq x k same in inr (rw same (rw e (omega arith)))
  | inr other ↦ elim (dequeue-shares f k xs) [
    | inl a ↦ inl ((λ e. ==→ne x k other (sym e)), a)
    | inr h ↦ inr (rw other (omega (arith, h)))
  ]
]

pub All-dequeue : (P : ℕ → Type 0) (k : ℕ) (xs : List ℕ) → All P xs → All P (dequeue k xs)
unfolding dequeue
All-dequeue P k [] h = tt
All-dequeue P k (x ∷ xs) h = elim (Bool-cases (x == k)) [
  | inl same ↦ rw same h.1
  | inr other ↦ rw other (h.0, All-dequeue P k xs h.1)
]

pub Distinct-dequeue : (k : ℕ) (xs : List ℕ) → Distinct xs → Distinct (dequeue k xs)
unfolding dequeue
Distinct-dequeue k [] d = tt
Distinct-dequeue k (x ∷ xs) d = elim (Bool-cases (x == k)) [
  | inl same ↦ rw same d.1
  | inr other ↦ rw other (All-dequeue (λ y. x ≢ y) k xs d.0, Distinct-dequeue k xs d.1)
]

-- Taken out once, `k` is gone.
pub dequeue-Absent : (k : ℕ) (xs : List ℕ) → Distinct xs → Absent k (dequeue k xs)
unfolding dequeue
dequeue-Absent k [] d = tt
dequeue-Absent k (x ∷ xs) d = elim (Bool-cases (x == k)) [
  | inl same ↦ let e = ==→eq x k same in rw same (subst (λ y. Absent y xs) e d.0)
  | inr other ↦ rw other ((λ e. ==→ne x k other (sym e)), dequeue-Absent k xs d.1)
]

-- What is absent after the removal of another entry was absent before.
pub Absent-dequeue : (k y : ℕ) (xs : List ℕ) → y ≢ k → Absent y (dequeue k xs) → Absent y xs
unfolding dequeue
Absent-dequeue k y [] n a = tt
Absent-dequeue k y (x ∷ xs) n a = elim (Bool-cases (x == k)) [
  | inl same ↦ ((λ e. n (e ∙ ==→eq x k same)), (rw same at a))
  | inr other ↦ let b = (rw other at a) in (b.0, Absent-dequeue k y xs n b.1)
]

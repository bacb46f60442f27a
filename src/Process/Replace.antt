-- ===== src/Process/Replace.antt =====
-- `fork`, and what else gives a slot a new life: an entry that is not active is replaced.
use hyu_2020_operating_syste.Base.{
  ℕ, zero, suc, ◌+◌, ◌%◌, ◌^◌, ◌<◌, ◌≡◌, ◌≢◌, ◌∙◌, sym, ap, subst, refl, ◌⊎◌, inl, inr, true, false,
  Bool-cases, Option-cases, some, update, update-cases, arith,
}
use hyu_2020_operating_syste.Sched.{State, nproc}
use hyu_2020_operating_syste.Process.{ptr, Process, Procs, is_unused, find_unused, allocproc}
use hyu_2020_operating_syste.Process.Relate.{is_active, state_of, parent_of, Waiting, Tree}

-- What the new entry is: unused or coming up, with no parent, or the child of an active process.
pub data Renewed (s : Procs) (p : Process) : Type 0 where
  is_fresh : (p.state ≡ State.unused) ⊎ (p.state ≡ State.embryo) → p.parent ≡ 0 → Renewed s p
  is_child :
      (k : ℕ)
      → p.state ≡ State.runnable
      → p.parent ≡ ptr k
      → is_active (state_of s k) ≡ true
      → Renewed s p

module _ (s t : Procs) (v : Tree s) (j : ℕ) (p : Process) where
  pub replace-Tree :
      t.init ≡ s.init
      → t.table ≡ update s.table j p
      → j < nproc
      → is_active (state_of s j) ≡ false
      → ((q : ℕ) → Waiting s q → parent_of s j ≢ ptr q)
      → Renewed s p
      → Tree t
  replace-Tree ti e low dead loses new = record {
    init_active = ap (λ i. is_active (state_of t i)) ti ∙ stays s.init v.init_active;
    root = ap (parent_of t) ti ∙ elim (entry s.init) [
      | inl (same, h) ↦ absurd (alive s.init v.init_active same)
      | inr (other, h) ↦ ap (λ x. x.parent) h ∙ v.root
    ];
    outside = λ i h. elim (entry i) [
      | inl (same, g) ↦ absurd (omega arith)
      | inr (other, g) ↦ ap (λ x. x.state) g ∙ v.outside i h
    ];
    fresh = λ i st. elim (entry i) [
      | inl (same, h) ↦ ap (λ x. x.parent) h ∙ new_fresh new (as_new i h st)
      | inr (other, h) ↦ ap (λ x. x.parent) h ∙ v.fresh i (as_old i h st)
    ];
    parents = λ i ni st. elim (entry i) [
      | inl (same, h) ↦
          let (k, e, a) = new_child new (state_new i h st) in
          (k, ap (λ x. x.parent) h ∙ e, stays k a, λ y. alive k a (y ∙ same))
      | inr (other, h) ↦
          let (q, e, a, d) = v.parents i (λ y. ni (y ∙ sym ti)) (state_old i h st) in
          (q, ap (λ x. x.parent) h ∙ e, stays q a, d)
    ];
    no_zombie = λ q i w e z. elim (entry i) [
      | inl (same, h) ↦ no_new_zombie new (ap (λ x. x.state) (sym h) ∙ z)
      | inr (other, h) ↦
          v.no_zombie q i (waited q w) (ap (λ x. x.parent) (sym h) ∙ e)
            (ap (λ x. x.state) (sym h) ∙ z)
    ];
    has_child = λ q w.
        let (i, e) = v.has_child q (waited q w) in
        elim (entry i) [
          | inl (same, h) ↦ absurd (loses q (waited q w) (ap (parent_of s) (sym same) ∙ e))
          | inr (other, h) ↦ (i, ap (λ x. x.parent) h ∙ e)
        ];
  }
    where
      entry : (i : ℕ) → ((i ≡ j) × (t.table i ≡ p)) ⊎ ((i ≢ j) × (t.table i ≡ s.table i))
      entry i = elim (update-cases s.table j p i) [
        | inl (a, b) ↦ inl (a, ap (λ f. f i) e ∙ b)
        | inr (a, b) ↦ inr (a, ap (λ f. f i) e ∙ b)
      ]

      alive : (i : ℕ) → is_active (state_of s i) ≡ true → i ≢ j
      alive i a same = let f = sym a ∙ ap (λ x. is_active (state_of s x)) same ∙ dead in cc

      stays : (i : ℕ) → is_active (state_of s i) ≡ true → is_active (state_of t i) ≡ true
      stays i a = elim (entry i) [
        | inl (same, h) ↦ absurd (alive i a same)
        | inr (other, h) ↦ ap (λ x. is_active x.state) h ∙ a
      ]

      as_new :
          (i : ℕ)
          → t.table i ≡ p
          → (state_of t i ≡ State.unused) ⊎ (state_of t i ≡ State.embryo)
          → (p.state ≡ State.unused) ⊎ (p.state ≡ State.embryo)
      as_new i h (inl a) = inl (ap (λ x. x.state) (sym h) ∙ a)
      as_new i h (inr a) = inr (ap (λ x. x.state) (sym h) ∙ a)

      as_old :
          (i : ℕ)
          → t.table i ≡ s.table i
          → (state_of t i ≡ State.unused) ⊎ (state_of t i ≡ State.embryo)
          → (state_of s i ≡ State.unused) ⊎ (state_of s i ≡ State.embryo)
      as_old i h (inl a) = inl (ap (λ x. x.state) (sym h) ∙ a)
      as_old i h (inr a) = inr (ap (λ x. x.state) (sym h) ∙ a)

      state_new :
          (i : ℕ)
          → t.table i ≡ p
          → (is_active (state_of t i) ≡ true) ⊎ (state_of t i ≡ State.zombie)
          → (is_active p.state ≡ true) ⊎ (p.state ≡ State.zombie)
      state_new i h (inl a) = inl (ap (λ x. is_active x.state) (sym h) ∙ a)
      state_new i h (inr a) = inr (ap (λ x. x.state) (sym h) ∙ a)

      state_old :
          (i : ℕ)
          → t.table i ≡ s.table i
          → (is_active (state_of t i) ≡ true) ⊎ (state_of t i ≡ State.zombie)
          → (is_active (state_of s i) ≡ true) ⊎ (state_of s i ≡ State.zombie)
      state_old i h (inl a) = inl (ap (λ x. is_active x.state) (sym h) ∙ a)
      state_old i h (inr a) = inr (ap (λ x. x.state) (sym h) ∙ a)

      new_fresh : Renewed s p → (p.state ≡ State.unused) ⊎ (p.state ≡ State.embryo) → p.parent ≡ 0
      new_fresh (is_fresh st z) h = z
      new_fresh (is_child k st f a) (inl h) = let g = sym st ∙ h in cc
      new_fresh (is_child k st f a) (inr h) = let g = sym st ∙ h in cc

      new_child :
          Renewed s p
          → (is_active p.state ≡ true) ⊎ (p.state ≡ State.zombie)
          → (k : ℕ) × (p.parent ≡ ptr k) × (is_active (state_of s k) ≡ true)
      new_child (is_child k st f a) h = (k, f, a)
      new_child (is_fresh (inl st) z) (inl h) = let g = sym (ap is_active st) ∙ h in cc
      new_child (is_fresh (inr st) z) (inl h) = let g = sym (ap is_active st) ∙ h in cc
      new_child (is_fresh (inl st) z) (inr h) = let g = sym st ∙ h in cc
      new_child (is_fresh (inr st) z) (inr h) = let g = sym st ∙ h in cc

      no_new_zombie : Renewed s p → p.state ≢ State.zombie
      no_new_zombie (is_child k st f a) h = let g = sym st ∙ h in cc
      no_new_zombie (is_fresh (inl st) z) h = let g = sym st ∙ h in cc
      no_new_zombie (is_fresh (inr st) z) h = let g = sym st ∙ h in cc

      no_new_sleep : Renewed s p → p.state ≢ State.sleeping
      no_new_sleep (is_child k st f a) h = let g = sym st ∙ h in cc
      no_new_sleep (is_fresh (inl st) z) h = let g = sym st ∙ h in cc
      no_new_sleep (is_fresh (inr st) z) h = let g = sym st ∙ h in cc

      waited : (q : ℕ) → Waiting t q → Waiting s q
      waited q w = elim (entry q) [
        | inl (same, h) ↦ absurd (no_new_sleep new (ap (λ x. x.state) (sym h) ∙ w.0))
        | inr (other, h) ↦ (ap (λ x. x.state) (sym h) ∙ w.0, ap (λ x. x.chan) (sym h) ∙ w.1)
      ]

unused_or_not : (st : State) → is_unused st ≡ true → st ≡ State.unused
unused_or_not State.unused e = refl
unused_or_not State.zombie e = cc
unused_or_not State.embryo e = cc
unused_or_not State.sleeping e = cc
unused_or_not State.runnable e = cc
unused_or_not State.running e = cc

find_unused-some :
    (n i k : ℕ) (s : Procs)
    → find_unused n i s ≡ some k
    → (state_of s k ≡ State.unused) × (k < i + n)
unfolding find_unused
find_unused-some zero i k s e = cc
find_unused-some (suc n) i k s e = elim (Bool-cases (is_unused (s.table i).state)) [
  | inl y ↦
      let f = (rw y at e) in
      let same : i ≡ k = cc in (ap (state_of s) (sym same) ∙ unused_or_not _ y, omega arith)
  | inr n' ↦ let (a, b) = find_unused-some n (i + 1) k s (rw n' at e) in (a, omega arith)
]

pub no_pointer : (q : ℕ) → ◌≢◌ {A = ℕ} 0 (ptr q)
no_pointer q e = omega arith

pub allocproc-Tree : (s t : Procs) (j : ℕ) → Tree s → allocproc s ≡ some (j, t) → Tree t
unfolding allocproc
allocproc-Tree s t j v e = elim (Option-cases (find_unused nproc 0 s)) [
  | inl n ↦ let f = (rw (n, allocproc) at e) in cc
  | inr (k, h) ↦
      let (u, low) = find_unused-some nproc 0 k s h in
      let f = (rw (h, allocproc) at e) in
      let same : taken k ≡ t = cc in
      subst Tree same (
        replace-Tree s (taken k) v k _ refl refl (omega arith) (ap is_active u)
          (λ q w p. no_pointer q (sym (v.fresh k (inl u)) ∙ p))
          (is_fresh (inr refl) (v.fresh k (inl u))))
]
  where
    taken : ℕ → Procs
    taken k = record s {
      table = update s.table k (record (s.table k) { state = State.embryo; pid = s.next_pid });
      next_pid = (s.next_pid + 1) % 2 ^ 32;
    }

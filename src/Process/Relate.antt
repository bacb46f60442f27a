-- ===== src/Process/Relate.antt =====
-- Parents and children: what must hold of the process table, and the calls that do not touch it.
use hyu_2020_operating_syste.Base.{
  ℕ, ◌≤◌, ◌<◌, ◌≡◌, ◌≢◌, ◌∙◌, sym, ap, subst, refl, ◌⊎◌, inl, inr, Bool, true, false, ◌&&◌,
  Bool-cases, ltb, ◌==◌, update, update-cases, arith, eq→==, ==→eq,
}
use hyu_2020_operating_syste.Sched.{State, nproc}
use hyu_2020_operating_syste.Process.{Ptr, ptr, Process, Procs, is_sleeping, wakeup1}

-- the processes that can run or be woken
abbrev pub is_active : State → Bool
is_active State.sleeping = true
is_active State.runnable = true
is_active State.running = true
is_active _ = false

abbrev pub state_of : Procs → ℕ → State
state_of s j = (s.table j).state

abbrev pub parent_of : Procs → ℕ → Ptr
parent_of s j = (s.table j).parent

-- `q` sleeps in `wait`.
abbrev pub Waiting : Procs → ℕ → Type 0
Waiting s q = (state_of s q ≡ State.sleeping) × ((s.table q).chan ≡ ptr q)

pub record Tree (s : Procs) : Type 0 where
  pub init_active : is_active (state_of s s.init) ≡ true
  pub root : parent_of s s.init ≡ 0
  pub outside : (j : ℕ) → nproc ≤ j → state_of s j ≡ State.unused
  pub fresh :
      (j : ℕ) → (state_of s j ≡ State.unused) ⊎ (state_of s j ≡ State.embryo) → parent_of s j ≡ 0
  pub parents :
      (j : ℕ)
      → j ≢ s.init
      → (is_active (state_of s j) ≡ true) ⊎ (state_of s j ≡ State.zombie)
      → (q : ℕ) × (parent_of s j ≡ ptr q) × (is_active (state_of s q) ≡ true) × (q ≢ j)
  pub no_zombie : (q j : ℕ) → Waiting s q → parent_of s j ≡ ptr q → state_of s j ≢ State.zombie
  pub has_child : (q : ℕ) → Waiting s q → (j : ℕ) × (parent_of s j ≡ ptr q)

-- `q` may sleep in `wait`: it has children, and none that has exited.
abbrev pub MayWait : Procs → ℕ → Type 0
MayWait s q =
    ((j : ℕ) → parent_of s j ≡ ptr q → state_of s j ≢ State.zombie)
    × ((j : ℕ) × (parent_of s j ≡ ptr q))

-- Nobody's parent changes, and a change of state is among the active ones.
pub record Calm (s t : Procs) : Type 0 where
  pub init : t.init ≡ s.init
  pub parent : (j : ℕ) → parent_of t j ≡ parent_of s j
  pub change :
      (j : ℕ)
      → ((state_of t j ≡ state_of s j) × ((t.table j).chan ≡ (s.table j).chan))
        ⊎ ((is_active (state_of s j) ≡ true)
            × (is_active (state_of t j) ≡ true)
            × (Waiting t j → MayWait s j))

module _ (s t : Procs) (c : Calm s t) where
  pub Calm-active : (j : ℕ) → is_active (state_of s j) ≡ true → is_active (state_of t j) ≡ true
  Calm-active j a = elim (c.change j) [ inl (e, f) ↦ ap is_active e ∙ a | inr (b, d, w) ↦ d ]

  active_before : (j : ℕ) → is_active (state_of t j) ≡ true → is_active (state_of s j) ≡ true
  active_before j a = elim (c.change j) [
    | inl (e, f) ↦ ap is_active (sym e) ∙ a
    | inr (b, d, w) ↦ b
  ]

  -- A state that is not active is the one before.
  pub still : (j : ℕ) → is_active (state_of t j) ≡ false → state_of s j ≡ state_of t j
  still j n = elim (c.change j) [ inl (e, f) ↦ sym e | inr (b, d, w) ↦ absurd (clash (sym d ∙ n)) ]
    where
      clash : ◌≢◌ {A = Bool} true false
      clash e = cc

  may_wait : Tree s → (q : ℕ) → Waiting t q → MayWait s q
  may_wait v q w = elim (c.change q) [
    | inl (e, f) ↦
        let w' : Waiting s q = (sym e ∙ w.0, sym f ∙ w.1) in
        (λ j. v.no_zombie q j w', v.has_child q w')
    | inr (b, d, n) ↦ n w
  ]

  not_active : (j : ℕ) (st : State) → is_active st ≡ false → state_of t j ≡ st → state_of s j ≡ st
  not_active j st n e = still j (ap is_active e ∙ n) ∙ e

  pub Calm-Tree : Tree s → Tree t
  Calm-Tree v = record {
    init_active = ap (λ i. is_active (state_of t i)) c.init ∙ Calm-active s.init v.init_active;
    root = ap (parent_of t) c.init ∙ c.parent s.init ∙ v.root;
    outside = λ j h. elim (c.change j) [
      | inl (e, f) ↦ e ∙ v.outside j h
      | inr (b, d, w) ↦ absurd (dead (v.outside j h) b)
    ];
    fresh = λ j e.
        c.parent j
        ∙ v.fresh j (elim e [
          | inl u ↦ inl (not_active j State.unused refl u)
          | inr u ↦ inr (not_active j State.embryo refl u)
        ]);
    parents = λ j n e.
        let (q, p, a, d) =
          v.parents j (λ i. n (i ∙ sym c.init))
            (elim e [
              | inl a ↦ inl (active_before j a)
              | inr z ↦ inr (not_active j State.zombie refl z)
            ]) in
        (q, c.parent j ∙ p, Calm-active q a, d);
    no_zombie =
        λ q j w p z. (may_wait v q w).0 j (sym (c.parent j) ∙ p) (not_active j State.zombie refl z);
    has_child = λ q w. let (j, p) = (may_wait v q w).1 in (j, c.parent j ∙ p);
  }
    where
      dead : {st : State} → st ≡ State.unused → is_active st ≢ true
      dead e a = let f = sym (ap is_active e) ∙ a in cc

-- A change of one active process, into `wait` only if it may.
pub update-Calm :
    (s t : Procs) (k : ℕ) (p : Process)
    → t.init ≡ s.init
    → t.table ≡ update s.table k p
    → p.parent ≡ parent_of s k
    → is_active (state_of s k) ≡ true
    → is_active p.state ≡ true
    → (p.state ≡ State.sleeping → p.chan ≡ ptr k → MayWait s k)
    → Calm s t
update-Calm s t k p i e par a b w = record {
  init = i;
  parent = λ j. elim (update-cases s.table k p j) [
    | inl (same, h) ↦ ap (λ x. x.parent) (at j ∙ h) ∙ par ∙ ap (parent_of s) (sym same)
    | inr (other, h) ↦ ap (λ x. x.parent) (at j ∙ h)
  ];
  change = λ j. elim (update-cases s.table k p j) [
    | inl (same, h) ↦
        let here = ap (λ x. x.state) (at j ∙ h) in
        inr (
          ap (λ x. is_active (state_of s x)) same ∙ a,
          ap is_active here ∙ b,
          λ q.
              subst (MayWait s) (sym same)
                (w (sym here ∙ q.0) (ap (λ x. x.chan) (sym h ∙ sym (at j)) ∙ q.1 ∙ ap ptr same)),
        )
    | inr (other, h) ↦ inl (ap (λ x. x.state) (at j ∙ h), ap (λ x. x.chan) (at j ∙ h))
  ];
}
  where
    at : (j : ℕ) → t.table j ≡ update s.table k p j
    at j = ap (λ f. f j) e

pub sleeping_or_not : (st : State) → (is_sleeping st ≡ true) → st ≡ State.sleeping
sleeping_or_not State.sleeping e = refl
sleeping_or_not State.unused e = cc
sleeping_or_not State.embryo e = cc
sleeping_or_not State.runnable e = cc
sleeping_or_not State.running e = cc
sleeping_or_not State.zombie e = cc

-- An entry is woken if it sleeps on the channel, and stays as it is if it does not.
pub wakeup1-cases :
    (chan : Ptr) (s : Procs) (j : ℕ)
    → ((state_of s j ≡ State.sleeping)
        × ((s.table j).chan ≡ chan)
        × ((wakeup1 chan s).table j ≡ record (s.table j) { state = State.runnable }))
      ⊎ (((wakeup1 chan s).table j ≡ s.table j)
          × (j < nproc → state_of s j ≡ State.sleeping → (s.table j).chan ≢ chan))
unfolding wakeup1
wakeup1-cases chan s j = elim (Bool-cases test) [
  | inl y ↦ inl (sleeping_or_not _ (first y), ==→eq _ _ (second y), rw y refl)
  | inr n ↦ inr (
    rw n refl,
    λ h e f.
        let yes_one : is_sleeping (s.table j).state ≡ true = ap is_sleeping e in
        let here : ((s.table j).chan == chan) ≡ true = eq→== _ _ f in
        let low : ltb j nproc ≡ true = ground arith in
        none_left (ltb j nproc) (is_sleeping (s.table j).state) ((s.table j).chan == chan) low
          yes_one here n,
  )
]
  where
    test : Bool
    test = ltb j nproc && (is_sleeping (s.table j).state && ((s.table j).chan == chan))

    of_three : (a b c : Bool) → (a && (b && c)) ≡ true → b ≡ true
    of_three a b c h = ground arith

    third : (a b c : Bool) → (a && (b && c)) ≡ true → c ≡ true
    third a b c h = ground arith

    first : test ≡ true → is_sleeping (s.table j).state ≡ true
    first y = of_three (ltb j nproc) (is_sleeping (s.table j).state) ((s.table j).chan == chan) y

    second : test ≡ true → ((s.table j).chan == chan) ≡ true
    second y = third (ltb j nproc) (is_sleeping (s.table j).state) ((s.table j).chan == chan) y

    none_left : (a b c : Bool) → a ≡ true → b ≡ true → c ≡ true → (a && (b && c)) ≢ false
    none_left a b c h k l n = ground arith

pub wakeup1-Calm : (chan : Ptr) (s : Procs) → Calm s (wakeup1 chan s)
wakeup1-Calm chan s = record {
  init = init_same;
  parent = λ j. elim (wakeup1-cases chan s j) [
    | inl (e, f, w) ↦ ap (λ x. x.parent) w
    | inr (w, n) ↦ ap (λ x. x.parent) w
  ];
  change = λ j. elim (wakeup1-cases chan s j) [
    | inl (e, f, w) ↦
        let runs : state_of (wakeup1 chan s) j ≡ State.runnable = ap (λ x. x.state) w in
        inr (ap is_active e, ap is_active runs, λ q. absurd (not_asleep (sym runs ∙ q.0)))
    | inr (w, n) ↦ inl (ap (λ x. x.state) w, ap (λ x. x.chan) w)
  ];
}
  where
    init_same : (wakeup1 chan s).init ≡ s.init
    init_same = unfold wakeup1 in refl

    not_asleep : State.runnable ≢ State.sleeping
    not_asleep e = cc

-- Nobody is left asleep on the channel.
pub wakeup1-awake :
    (chan : Ptr) (s : Procs) (j : ℕ)
    → j < nproc
    → state_of (wakeup1 chan s) j ≡ State.sleeping
    → ((wakeup1 chan s).table j).chan ≢ chan
wakeup1-awake chan s j h e f = elim (wakeup1-cases chan s j) [
  | inl (a, b, w) ↦ let c = sym (ap (λ x. x.state) w) ∙ e in (cc)
  | inr (w, n) ↦ n h (sym (ap (λ x. x.state) w) ∙ e) (sym (ap (λ x. x.chan) w) ∙ f)
]

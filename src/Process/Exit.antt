-- ===== src/Process/Exit.antt =====
-- `exit` keeps the tree of processes.
use hyu_2020_operating_syste.Base.{
  ℕ, ◌≤◌, ◌<◌, ◌≡◌, ◌≢◌, ◌∙◌, sym, ap, subst, ◌⊎◌, inl, inr, true, Bool-cases, some, ◌==◌,
  update-cases, arith, ==→ne,
}
use hyu_2020_operating_syste.Sched.{State, nproc}
use hyu_2020_operating_syste.Process.{ptr, Procs, set_process, wakeup1, pass_children, exit}
use hyu_2020_operating_syste.Process.Relate.{
  is_active, state_of, parent_of, Waiting, Tree, Calm-active, Calm-Tree, wakeup1-Calm,
  wakeup1-awake,
}
use hyu_2020_operating_syste.Process.Passed.{Passed, pass_children-Passed, still_waiting}

pub in_table : (s : Procs) → Tree s → (j : ℕ) → state_of s j ≢ State.unused → j < nproc
in_table s v j n = elim (below j) [ inl h ↦ h | inr h ↦ absurd (n (v.outside j h)) ]
  where
    below : (j : ℕ) → (j < nproc) ⊎ (nproc ≤ j)
    below j = ground arith

pub active-ne-unused : (st : State) → is_active st ≡ true → st ≢ State.unused
active-ne-unused st a e = let f = sym (ap is_active e) ∙ a in cc

module _ (s : Procs) (v : Tree s) (k : ℕ) (run : is_active (state_of s k) ≡ true)
    (ne : k ≢ s.init) where
  abbrev woken : Procs
  woken = wakeup1 (parent_of s k) s

  abbrev passed : Procs
  passed = pass_children nproc 0 k woken

  abbrev gone : Procs
  gone = set_process k (record (passed.table k) { state = State.zombie }) passed

  woken-Tree : Tree woken
  woken-Tree = Calm-Tree s woken (wakeup1-Calm (parent_of s k) s) v

  same_init : woken.init ≡ s.init
  same_init = (wakeup1-Calm (parent_of s k) s).init

  loop : Passed k 0 nproc woken passed
  loop =
      pass_children-Passed nproc 0 k woken
        (in_table woken woken-Tree woken.init (active-ne-unused _ woken-Tree.init_active))

  ne_init : k ≢ woken.init
  ne_init e = ne (e ∙ same_init)

  parent_gone : (j : ℕ) → parent_of gone j ≡ parent_of passed j
  parent_gone j =
      elim (update-cases passed.table k (record (passed.table k) { state = State.zombie }) j) [
        | inl (e, h) ↦ ap (λ x. x.parent) h ∙ ap (parent_of passed) (sym e)
        | inr (e, h) ↦ ap (λ x. x.parent) h
      ]

  state_gone :
      (j : ℕ)
      → ((j ≡ k) × (state_of gone j ≡ State.zombie))
        ⊎ ((j ≢ k)
            × (state_of gone j ≡ state_of passed j)
            × ((gone.table j).chan ≡ (passed.table j).chan))
  state_gone j =
      elim (update-cases passed.table k (record (passed.table k) { state = State.zombie }) j) [
        | inl (e, h) ↦ inl (e, ap (λ x. x.state) h)
        | inr (e, h) ↦ inr (e, ap (λ x. x.state) h, ap (λ x. x.chan) h)
      ]

  -- A state that is neither sleeping before nor runnable after is the same before and after the loop.
  before :
      (st : State) → st ≢ State.runnable → (j : ℕ) → state_of passed j ≡ st → state_of woken j ≡ st
  before st n j e = elim (loop.change j) [
    | inl (a, b) ↦ sym a ∙ e
    | inr (a, b) ↦ absurd (n (sym e ∙ b))
  ]

  after_active :
      (j : ℕ) → is_active (state_of woken j) ≡ true → is_active (state_of passed j) ≡ true
  after_active j a = elim (loop.change j) [
    | inl (e, f) ↦ ap is_active e ∙ a
    | inr (e, f) ↦ ap is_active f
  ]

  before_active :
      (j : ℕ) → is_active (state_of passed j) ≡ true → is_active (state_of woken j) ≡ true
  before_active j a = elim (loop.change j) [
    | inl (e, f) ↦ ap is_active (sym e) ∙ a
    | inr (e, f) ↦ ap is_active e
  ]

  gone_active :
      (j : ℕ) → j ≢ k → is_active (state_of woken j) ≡ true → is_active (state_of gone j) ≡ true
  gone_active j n a = elim (state_gone j) [
    | inl (e, z) ↦ absurd (n e)
    | inr (e, z, c) ↦ ap is_active z ∙ after_active j a
  ]

  waiting_before : (q : ℕ) → Waiting gone q → (q ≢ k) × Waiting passed q × Waiting woken q
  waiting_before q w = elim (state_gone q) [
    | inl (e, z) ↦ absurd (no_sleep (sym z ∙ w.0))
    | inr (e, z, c) ↦
        let w' : Waiting passed q = (sym z ∙ w.0, sym c ∙ w.1) in
        (e, w', still_waiting woken passed loop q w')
  ]
    where
      no_sleep : State.zombie ≢ State.sleeping
      no_sleep e = cc

  -- The parent of `k` is another process.
  own_parent :
      (q : ℕ) × (parent_of woken k ≡ ptr q) × (is_active (state_of woken q) ≡ true) × (q ≢ k)
  own_parent =
      woken-Tree.parents k ne_init
        (inl (Calm-active s woken (wakeup1-Calm (parent_of s k) s) k run))

  own_kept : parent_of passed k ≡ parent_of woken k
  own_kept = elim (loop.parent k) [
    | inl (p, l, h, q) ↦ absurd (let (r, e, a, n) = own_parent in n (omega arith))
    | inr (e, n) ↦ e
  ]

  -- the parent of a process that is left alone
  parent_after :
      (j : ℕ)
      → j ≢ k
      → (is_active (state_of woken j) ≡ true) ⊎ (state_of woken j ≡ State.zombie)
      → j ≢ woken.init
      → (q : ℕ) × (parent_of gone j ≡ ptr q) × (is_active (state_of gone q) ≡ true) × (q ≢ j)
  parent_after j nk st ni =
      let (q, e, a, d) = woken-Tree.parents j ni st in
      let h = in_table woken woken-Tree j (here st) in
      elim (loop.parent j) [
        | inl (p, l, b, r) ↦ (
          woken.init,
          parent_gone j ∙ r,
          gone_active woken.init (λ i. ne_init (sym i)) woken-Tree.init_active,
          λ i. ni (sym i),
        )
        | inr (same, n) ↦ (
          q,
          parent_gone j ∙ same ∙ e,
          gone_active q (λ i. n (omega arith) (omega arith) (e ∙ ap ptr i)) a,
          d,
        )
      ]
    where
      here :
          (is_active (state_of woken j) ≡ true) ⊎ (state_of woken j ≡ State.zombie)
          → state_of woken j ≢ State.unused
      here (inl a) e = active-ne-unused _ a e
      here (inr z) e = let f = sym z ∙ e in cc

  gone_zombie :
      (q j : ℕ) → Waiting gone q → parent_of gone j ≡ ptr q → state_of gone j ≢ State.zombie
  gone_zombie q j w p z =
      let (nk, wp, ww) = waiting_before q w in
      let low = in_table woken woken-Tree q (λ e. asleep (sym ww.0 ∙ e)) in
      elim (state_gone j) [
        | inl (same, y) ↦ wakeup1-awake (parent_of s k) s q low ww.0 (
            ww.1
            ∙ sym p
            ∙ parent_gone j
            ∙ ap (parent_of passed) same
            ∙ own_kept
            ∙ (wakeup1-Calm (parent_of s k) s).parent k)
        | inr (other, y, c) ↦
            let zw = before State.zombie runs j (sym y ∙ z) in
            elim (loop.parent j) [
              | inl (e, l, h, r) ↦
                  loop.woken j l h e zw
                    (subst (Waiting passed) (init_is (sym p ∙ parent_gone j ∙ r)) wp)
              | inr (same, n) ↦ woken-Tree.no_zombie q j ww (sym same ∙ sym (parent_gone j) ∙ p) zw
            ]
      ]
    where
      asleep : State.sleeping ≢ State.unused
      asleep e = cc

      runs : State.zombie ≢ State.runnable
      runs e = cc

      init_is : ptr q ≡ ptr woken.init → q ≡ woken.init
      init_is e = omega arith

  gone-Tree : Tree gone
  gone-Tree = record {
    init_active =
        ap (λ i. is_active (state_of gone i)) loop.init
        ∙ gone_active woken.init (λ e. ne_init (sym e)) woken-Tree.init_active;
    root = ap (parent_of gone) loop.init ∙ parent_gone woken.init ∙ root;
    outside = λ j h. elim (state_gone j) [
      | inl (e, z) ↦ absurd (let b = in_table s v k (active-ne-unused _ run) in omega arith)
      | inr (e, z, c) ↦ z ∙ unused_after j h
    ];
    fresh = λ j st. parent_gone j ∙ fresh_parent j (before_fresh j st);
    parents = λ j ni st. elim (state_gone j) [
      | inl (same, z) ↦
          let (q, e, a, n) = own_parent in
          (
            q,
            parent_gone j ∙ ap (parent_of passed) same ∙ own_kept ∙ e,
            gone_active q n a,
            λ i. n (i ∙ same),
          )
      | inr (other, z, c) ↦
          parent_after j other
            (elim st [
              | inl a ↦ inl (before_active j (ap is_active (sym z) ∙ a))
              | inr d ↦ inr (before State.zombie zombie_runs j (sym z ∙ d))
            ])
            (λ i. ni (i ∙ sym loop.init))
    ];
    no_zombie = gone_zombie;
    has_child = λ q w.
        let (nk, wp, ww) = waiting_before q w in
        let (j, p) = woken-Tree.has_child q ww in
        (
          j,
          parent_gone j ∙ elim (loop.parent j) [
            | inl (e, l, h, r) ↦ absurd (nk (omega arith))
            | inr (same, n) ↦ same ∙ p
          ],
        );
  }
    where
      zombie_runs : State.zombie ≢ State.runnable
      zombie_runs e = cc

      root : parent_of passed woken.init ≡ 0
      root = elim (loop.parent woken.init) [
        | inl (p, l, h, q) ↦ absurd (let r = woken-Tree.root in omega arith)
        | inr (e, n) ↦ e ∙ woken-Tree.root
      ]

      unused_after : (j : ℕ) → nproc ≤ j → state_of passed j ≡ State.unused
      unused_after j h = elim (loop.change j) [
        | inl (e, f) ↦ e ∙ woken-Tree.outside j h
        | inr (e, f) ↦ absurd (wakes (sym (woken-Tree.outside j h) ∙ e))
      ]
        where
          wakes : State.unused ≢ State.sleeping
          wakes e = cc

      before_fresh :
          (j : ℕ)
          → (state_of gone j ≡ State.unused) ⊎ (state_of gone j ≡ State.embryo)
          → (state_of woken j ≡ State.unused) ⊎ (state_of woken j ≡ State.embryo)
      before_fresh j st = elim (state_gone j) [
        | inl (e, z) ↦ absurd (not_zombie st z)
        | inr (e, z, c) ↦ elim st [
          | inl u ↦ inl (before State.unused (λ r. (cc)) j (sym z ∙ u))
          | inr u ↦ inr (before State.embryo (λ r. (cc)) j (sym z ∙ u))
        ]
      ]
        where
          not_zombie : {st : State} → (st ≡ State.unused) ⊎ (st ≡ State.embryo) → st ≢ State.zombie
          not_zombie (inl e) f = let g = sym e ∙ f in cc
          not_zombie (inr e) f = let g = sym e ∙ f in cc

      fresh_parent :
          (j : ℕ)
          → (state_of woken j ≡ State.unused) ⊎ (state_of woken j ≡ State.embryo)
          → parent_of passed j ≡ 0
      fresh_parent j st = elim (loop.parent j) [
        | inl (p, l, h, q) ↦ absurd (let r = woken-Tree.fresh j st in omega arith)
        | inr (e, n) ↦ e ∙ woken-Tree.fresh j st
      ]

pub exit-Tree :
    (s t : Procs) (k : ℕ) → Tree s → is_active (state_of s k) ≡ true → exit k s ≡ some t → Tree t
unfolding exit
exit-Tree s t k v run e = elim (Bool-cases (k == s.init)) [
  | inl same ↦ let f = (rw same at e) in cc
  | inr other ↦
      let f = (rw other at e) in
      let g : gone s v k run (==→ne _ _ other) ≡ t = cc in
      subst Tree g (gone-Tree s v k run (==→ne _ _ other))
]

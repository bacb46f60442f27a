-- ===== src/Log/Group/Absorb.antt =====
-- Log absorption: a block that is logged again takes no second entry.
use hyu_2020_operating_syste.Base.{
  ℕ, suc, ◌+◌, ◌≤◌, ◌≢◌, ◌≡◌, ◌∙◌, ap, sym, refl, inl, inr, List, [], ◌∷◌, ◌==◌, length, arith, All,
  Absent, Distinct, Bool-cases, Bool, true, false, ◌||◌, if◌then◌else◌, mem, eq_cases, eq→==, ne→==,
  ==→eq, ==→ne,
}
use hyu_2020_operating_syste.Log.Group.{absorb}

-- The block is logged, and everything that was logged still is.
pub absorb-Absent : (x b : ℕ) (lh : List ℕ) → Absent x (absorb b lh) → (x ≢ b) × Absent x lh
unfolding absorb
absorb-Absent x b [] h = (h.0, tt)
absorb-Absent x b (y ∷ lh) h = elim (Bool-cases (y == b)) [
  | inl same ↦ ground (arith, ==→eq y b same)
  | inr other ↦ ground (arith, absorb-Absent x b lh)
]

pub All-absorb : (P : ℕ → Type 0) (b : ℕ) (lh : List ℕ) → P b → All P lh → All P (absorb b lh)
unfolding absorb
All-absorb P b [] p h = (p, tt)
All-absorb P b (y ∷ lh) p h = elim (Bool-cases (y == b)) [
  | inl same ↦ rw same (p, h.1)
  | inr other ↦ rw other (h.0, All-absorb P b lh p h.1)
]

Absent-absorb : (x b : ℕ) (lh : List ℕ) → x ≢ b → Absent x lh → Absent x (absorb b lh)
Absent-absorb x b lh = All-absorb (λ y. x ≢ y) b lh

-- No block is in the log twice.
pub Distinct-absorb : (b : ℕ) (lh : List ℕ) → Distinct lh → Distinct (absorb b lh)
unfolding absorb
Distinct-absorb b [] h = (tt, tt)
Distinct-absorb b (y ∷ lh) h = elim (Bool-cases (y == b)) [
  | inl same ↦ rw (same, ← ==→eq y b same) h
  | inr other ↦ rw other (Absent-absorb y b lh (==→ne y b other) h.0, Distinct-absorb b lh h.1)
]

pub length-absorb :
    (b : ℕ) (lh : List ℕ)
    → (length lh ≤ length (absorb b lh)) × (length (absorb b lh) ≤ length lh + 1)
unfolding absorb
length-absorb b [] = omega arith
length-absorb b (y ∷ lh) = ground (arith, length-absorb b lh)

-- how many of the blocks `bs` are not in the log
abbrev pub unlogged : List ℕ → List ℕ → ℕ
unlogged [] lh = 0
unlogged (x ∷ bs) lh = (if mem x lh then 0 else 1) + unlogged bs lh

mem-absorb : (x b : ℕ) (lh : List ℕ) → mem x (absorb b lh) ≡ ((x == b) || mem x lh)
unfolding absorb
mem-absorb x b [] = refl
mem-absorb x b (y ∷ lh) = elim (Bool-cases (y == b)) [
  | inl same ↦ rw (same, ==→eq y b same) (twice (x == b) (mem x lh))
  | inr other ↦ rw (other, mem-absorb x b lh) (swap (x == y) (x == b) (mem x lh))
]
  where
    twice : (p q : Bool) → (p || q) ≡ (p || (p || q))
    twice true q = refl
    twice false q = refl

    swap : (p q r : Bool) → (p || (q || r)) ≡ (q || (p || r))
    swap true true r = refl
    swap true false r = refl
    swap false q r = refl

length-absorb-mem :
    (b : ℕ) (lh : List ℕ) → length (absorb b lh) ≡ length lh + (if mem b lh then 0 else 1)
unfolding absorb
length-absorb-mem b [] = refl
length-absorb-mem b (y ∷ lh) = elim (eq_cases y b) [
  | inl same ↦ rw (same, eq→== b b refl) (omega arith)
  | inr other ↦
      rw (ne→== y b other, ne→== b y (λ e. other (sym e))) (omega (arith, length-absorb-mem b lh))
]

pub unlogged-absorb : (b : ℕ) (bs lh : List ℕ) → unlogged bs (absorb b lh) ≤ unlogged bs lh
unlogged-absorb b [] lh = omega arith
unlogged-absorb b (x ∷ bs) lh =
    let h = unlogged-absorb b bs lh in
    elim (Bool-cases (x == b)) [
      | inl e ↦ rw (mem-absorb x b lh, e) (omega arith)
      | inr e ↦ rw (mem-absorb x b lh, e) (omega arith)
    ]

-- Logging one of `bs` takes an entry that was counted for it, or none.
pub absorb-unlogged :
    (b : ℕ) (bs lh : List ℕ)
    → mem b bs ≡ true
    → length (absorb b lh) + unlogged bs (absorb b lh) ≤ length lh + unlogged bs lh
absorb-unlogged b bs lh h = elim (Bool-cases (mem b lh)) [
  | inl there ↦
      let l = length-absorb-mem b lh in
      let u = unlogged-absorb b bs lh in
      let l' : length (absorb b lh) ≡ length lh + 0 =
        l ∙ ap (λ q. length lh + (if q then 0 else 1)) there in
      omega arith
  | inr new ↦
      let l = length-absorb-mem b lh in
      let l' : length (absorb b lh) ≡ length lh + 1 =
        l ∙ ap (λ q. length lh + (if q then 0 else 1)) new in
      let u = less bs h new in omega arith
]
  where
    less :
        (bs : List ℕ)
        → mem b bs ≡ true
        → mem b lh ≡ false
        → suc (unlogged bs (absorb b lh)) ≤ unlogged bs lh
    less [] h new = absurd (cc)
    less (x ∷ bs) h new = elim (eq_cases b x) [
      | inl e ↦
          let u = unlogged-absorb b bs lh in
          rw (← e, mem-absorb b b lh, eq→== b b refl, new) (omega arith)
      | inr n ↦
          let r = less bs (sym (ap (λ q. q || mem b bs) (ne→== b x n)) ∙ h) new in
          rw (mem-absorb x b lh, ne→== x b (λ e. n (sym e))) (omega arith)
    ]

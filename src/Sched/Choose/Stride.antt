-- ===== src/Sched/Choose/Stride.antt =====
-- The stride scheduler takes a process of least pass.
use hyu_2020_operating_syste.Base.{
  ℕ, suc, ◌+◌, ◌≡◌, ◌⊎◌, inl, inr, true, false, ◌&&◌, some, List, [], ◌∷◌, refl, int_lt, arith, All,
  Bool-cases, get_elem?,
}
use hyu_2020_operating_syste.Sched.{is_runnable, Proc}
use hyu_2020_operating_syste.Sched.Choose.{min_from}

module _ (procs : ℕ → Proc) where
  -- `x` is not to be preferred to `b`.
  abbrev pub NotBefore : ℕ → ℕ → Type 0
  NotBefore b x = is_runnable (procs x).state ≡ true → int_lt (procs x).pass (procs b).pass ≡ false

  int_lt_trans : (a b c : ℕ) → int_lt a b ≡ false → int_lt c b ≡ true → int_lt a c ≡ false
  int_lt_trans a b c h k = ground arith

  preferred :
      (b b' x : ℕ) → int_lt (procs b').pass (procs b).pass ≡ true → NotBefore b x → NotBefore b' x
  preferred b b' x l n r = int_lt_trans (procs x).pass (procs b).pass (procs b').pass (n r) l

  -- What the loop has found, started with `best` at index `i`.
  pub record Least (best : ℕ × ℕ) (i : ℕ) (xs : List ℕ) (out : ℕ × ℕ) : Type 0 where
    pub least : All (NotBefore out.1) xs
    pub before : (x : ℕ) → NotBefore best.1 x → NotBefore out.1 x
    pub where_it_is :
        (out ≡ best)
        ⊎ ((k : ℕ) × (out.0 ≡ i + k)
            × (get_elem? xs k ≡ some out.1)
            × (is_runnable (procs out.1).state ≡ true))

  -- The entry that the loop ends with is preferred by no runnable entry of the list and by nothing that
  -- did not precede the start; it is the start itself, or a runnable entry of the list, at its index.
  pub min_from-Least :
      (best : ℕ × ℕ) (i : ℕ) (xs : List ℕ) → Least best i xs (min_from procs best i xs)
  unfolding min_from
  min_from-Least best i [] = record { least = tt; before = λ x h. h; where_it_is = inl refl }
  min_from-Least best i (x ∷ xs) =
      elim (Bool-cases (is_runnable (procs x).state && int_lt (procs x).pass (procs best.1).pass)) [
        | inl takes ↦
            let l = min_from-Least (i, x) (i + 1) xs in
            let r : is_runnable (procs x).state ≡ true = ground arith in
            let lt : int_lt (procs x).pass (procs best.1).pass ≡ true = ground arith in
            rw takes (record {
              least = (l.before x (λ _. refl_lt (procs x).pass), l.least);
              before = λ y h. l.before y (preferred best.1 x y lt h);
              where_it_is = elim l.where_it_is [
                | inl e ↦ inr (0, rw e (omega arith), rw e, rw e r)
                | inr (k, a, b, c) ↦ inr (suc k, omega arith, b, c)
              ];
            })
        | inr keeps ↦
            let l = min_from-Least best (i + 1) xs in
            rw keeps (record {
              least = (l.before x (λ r. kept r keeps), l.least);
              before = l.before;
              where_it_is = elim l.where_it_is [
                | inl e ↦ inl e
                | inr (k, a, b, c) ↦ inr (suc k, omega arith, b, c)
              ];
            })
      ]
    where
      refl_lt : (a : ℕ) → int_lt a a ≡ false
      refl_lt a = ground arith

      kept :
          is_runnable (procs x).state ≡ true
          → (is_runnable (procs x).state && int_lt (procs x).pass (procs best.1).pass) ≡ false
          → int_lt (procs x).pass (procs best.1).pass ≡ false
      kept r k = (rw r at k)

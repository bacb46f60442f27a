-- ===== src/Base/Counts.antt =====
-- How often a key occurs in a list, for reference counts.
use Prim.Native.Nat.{ℕ, suc, ◌+◌, ◌≤◌}
use mathlib.Core.Path.{◌≡◌, refl, ap, sym, ◌∙◌}
use mathlib.Core.Logic.{◌≢◌, inl, inr}
use mathlib.Core.Bool.{Bool}
use mathlib.Core.List.{List, [], ◌∷◌, ◌++◌}
use native.Mathlib.Omega.{arith}
use hyu_2020_operating_syste.Base.Tests.{◌==◌, if◌then◌else◌, eq→==, ne→==, Bool-cases, eq_cases}
use hyu_2020_operating_syste.Base.Arrays.{length, All, update, update_self, update_ne}

abbrev one_if : Bool → ℕ
one_if b = if b then 1 else 0

module _ {A : Type 0} (key : A → ℕ) where
  abbrev pub count_by : ℕ → List A → ℕ
  count_by i [] = 0
  count_by i (x ∷ xs) = one_if (i == key x) + count_by i xs

  pub count_by-middle :
      (j : ℕ) (x : A) (pre post : List A)
      → count_by j (pre ++ (x ∷ post)) ≡ one_if (j == key x) + count_by j (pre ++ post)
  count_by-middle j x [] post = refl
  count_by-middle j x (y ∷ ys) post = omega (arith, count_by-middle j x ys post)

  pub count_by_bound : (j : ℕ) (xs : List A) → count_by j xs ≤ length xs
  count_by_bound j [] = omega arith
  count_by_bound j (x ∷ xs) =
      let h = count_by_bound j xs in
      elim (Bool-cases (j == key x)) [ inl e ↦ rw e (omega arith) | inr e ↦ rw e (omega arith) ]

  -- A key that is not counted does not occur.
  pub count_by_zero : (j : ℕ) (xs : List A) → count_by j xs ≡ 0 → All (λ x. key x ≢ j) xs
  count_by_zero j [] e = tt
  count_by_zero j (x ∷ xs) e = elim (Bool-cases (j == key x)) [
    | inl s ↦ absurd (let f = (rw s at e) in omega arith)
    | inr s ↦ (
      (λ z. let f = eq→== j (key x) (sym z) in absurd (cc)),
      count_by_zero j xs (let f = (rw s at e) in omega arith),
    )
  ]

  pub count_by_none : (j : ℕ) (xs : List A) → All (λ x. key x ≢ j) xs → count_by j xs ≡ 0
  count_by_none j [] a = refl
  count_by_none j (x ∷ xs) a =
      let o = ne→== j (key x) (λ e. a.0 (sym e)) in rw o (omega (arith, count_by_none j xs a.1))

pub length-middle {ℓ} :
    {A : Type ℓ} (x : A) (pre post : List A)
    → length (pre ++ (x ∷ post)) ≡ suc (length (pre ++ post))
length-middle x [] post = refl
length-middle x (y ∷ ys) post = ap suc (length-middle x ys post)

-- One entry of a table gets a count, the others keep theirs.
pub count-update :
    {B : Type 0} (ref : B → ℕ) (t : ℕ → B) (i : ℕ) (f : B) (old new : ℕ → ℕ)
    → ((j : ℕ) → ref (t j) ≡ old j)
    → ref f ≡ new i
    → ((j : ℕ) → j ≢ i → new j ≡ old j)
    → (j : ℕ) → ref (update t i f j) ≡ new j
count-update ref t i f old new c e o j = elim (eq_cases j i) [
  | inl same ↦ rw (same, update_self t i f) e
  | inr other ↦ rw (update_ne t i j f other) (c j ∙ sym (o j other))
]

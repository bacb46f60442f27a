-- ===== src/Fs/Data/Slices.antt =====
-- Runs of bytes: what `memmove` copies and leaves.
use hyu_2020_operating_syste.Base.{
  ℕ, zero, suc, ◌+◌, ◌-◌, ◌<◌, ◌≤◌, ◌≡◌, ◌∙◌, ◌⊎◌, sym, ap, ap₂, refl, List, [], ◌∷◌, ◌++◌, arith,
  length, get_or,
}
use hyu_2020_operating_syste.Block.{Block}
use hyu_2020_operating_syste.Fs.Data.{slice, splice, drop}

pub slice-append : (f : Block) (o m n : ℕ) → slice f o m ++ slice f (o + m) n ≡ slice f o (m + n)
unfolding slice
slice-append f o zero n =
    let e : o + 0 ≡ o = omega arith in let z : 0 + n ≡ n = omega arith in rw (e, z) refl
slice-append f o (suc m) n =
    let e : o + suc m ≡ o + 1 + m = omega arith in
    let s : suc m + n ≡ suc (m + n) = omega arith in
    rw s (ap (λ l. f o ∷ l) (rw e (slice-append f (o + 1) m n)))

pub slice-cong :
    (f g : Block) (o q m : ℕ)
    → ((i : ℕ) → i < m → f (o + i) ≡ g (q + i))
    → slice f o m ≡ slice g q m
unfolding slice
slice-cong f g o q zero h = refl
slice-cong f g o q (suc m) h =
    let e : o + 0 ≡ o = omega arith in
    let d : q + 0 ≡ q = omega arith in
    ap₂ ◌∷◌ (ap f (sym e) ∙ h 0 (omega arith) ∙ ap g d) (
      slice-cong f g (o + 1) (q + 1) m (λ i l.
        let a : o + 1 + i ≡ o + suc i = omega arith in
        let b : q + 1 + i ≡ q + suc i = omega arith in
        ap f a ∙ h (suc i) (omega arith) ∙ ap g (sym b)))

pub slice_of_list :
    (f : Block) (o : ℕ) (src : List ℕ)
    → ((i : ℕ) → i < length src → f (o + i) ≡ get_or src i 0)
    → slice f o (length src) ≡ src
unfolding slice
slice_of_list f o [] h = refl
slice_of_list f o (x ∷ xs) h =
    let e : o + 0 ≡ o = omega arith in
    ap₂ ◌∷◌ (ap f (sym e) ∙ h 0 (omega arith)) (
      slice_of_list f (o + 1) xs
        (λ i l. let a : o + 1 + i ≡ o + suc i = omega arith in ap f a ∙ h (suc i) (omega arith)))

pub length-drop : (n : ℕ) (xs : List ℕ) → length (drop n xs) ≡ length xs - n
unfolding drop
length-drop zero xs = omega arith
length-drop (suc n) [] = omega arith
length-drop (suc n) (x ∷ xs) = omega (arith, length-drop n xs)

pub get_or-drop : (n i : ℕ) (xs : List ℕ) → get_or (drop n xs) i 0 ≡ get_or xs (n + i) 0
unfolding drop
get_or-drop zero i xs = let e : 0 + i ≡ i = omega arith in rw e refl
get_or-drop (suc n) i [] = refl
get_or-drop (suc n) i (x ∷ xs) =
    let e : suc n + i ≡ suc (n + i) = omega arith in rw e (get_or-drop n i xs)

pub splice-inside :
    (a : Block) (o m : ℕ) (src : List ℕ) (k : ℕ)
    → o ≤ k
    → k < o + m
    → splice a o m src k ≡ get_or src (k - o) 0
unfolding splice
splice-inside a o m src k h l = ground arith

pub splice-outside :
    (a : Block) (o m : ℕ) (src : List ℕ) (k : ℕ)
    → ((k < o) ⊎ (o + m ≤ k))
    → splice a o m src k ≡ a k
unfolding splice
splice-outside a o m src k h = ground arith

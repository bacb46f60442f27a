-- ===== src/Fs/Bmap/Position.antt =====
-- Where `bmap` looks for a block: every block number below MAXFILE has a place of its own.
use hyu_2020_operating_syste.Base.{
  ℕ, ◌+◌, ◌-◌, ◌*◌, ◌/◌, ◌%◌, ◌≤◌, ◌<◌, ◌≡◌, ◌⊎◌, inl, inr, ◌∙◌, refl, ap, true, false, Option,
  none, some, List, [], ◌∷◌, ltb, if◌then◌else◌, arith, All, Bool-cases,
}
use mathlib.Core.Path.{fun_ext}
use hyu_2020_operating_syste.Log.{Machine}
use hyu_2020_operating_syste.Fs.{Mount, M, ◌>>=◌, pure}
use hyu_2020_operating_syste.Fs.Bmap.{Inode, root, slot, bmap}

-- An entry of `addrs` and the entries to follow in the tables below it.
abbrev pub Place : Type 0
Place = ℕ × List ℕ

-- The place of a block number; `none` is out of range.
unfoldable pub place : ℕ → Option Place
place bn =
    if ltb bn 10
    then some (bn, [])
    else (if ltb bn 138
        then some (10, (bn - 10) ∷ [])
        else (if ltb bn 16522
            then some (11, ((bn - 138) / 128) ∷ ((bn - 138) % 128) ∷ [])
            else (if ltb bn 2113674
                then some (
                  12,
                  ((bn - 16522) / 16384) ∷ ((bn - 16522) / 128 % 128) ∷ ((bn - 16522) % 128) ∷ [],
                )
                else none)))

-- The block number at a place.
abbrev pub number : Place → ℕ
number (k, []) = k
number (k, i ∷ []) = 10 + i
number (k, i ∷ j ∷ []) = 138 + 128 * i + j
number (k, i ∷ j ∷ l ∷ _) = 16522 + 16384 * i + 128 * j + l

module _ (fs : Mount) where
  -- following a place, allocating what is missing
  unfoldable pub follow : ℕ → List ℕ → M ℕ
  follow a [] = pure a
  follow a (i ∷ is) = slot fs a i >>= λ b. follow b is

  unfoldable pub at_place : Inode → Option Place → M (ℕ × Inode)
  unfolding follow
  at_place ip none m = none
  at_place ip (some (k, is)) m =
      (root fs ip k >>= λ (a, ip'). follow a is >>= λ addr. pure (addr, ip')) m

place_lem :
    (bn : ℕ)
    → ((2113674 ≤ bn) × (place bn ≡ none))
      ⊎ ((p : Place) × (place bn ≡ some p) × (number p ≡ bn) × (p.0 < 13) × All (λ i. i < 128) p.1)
unfolding place
place_lem bn = elim (Bool-cases (ltb bn 10)) [
  | inl a ↦ inr ((bn, []), rw a, refl, ground arith, tt)
  | inr a ↦ elim (Bool-cases (ltb bn 138)) [
    | inl b ↦ inr ((10, (bn - 10) ∷ []), rw (a, b), ground arith, omega arith, ground arith)
    | inr b ↦ elim (Bool-cases (ltb bn 16522)) [
      | inl c ↦ inr (
        (11, ((bn - 138) / 128) ∷ ((bn - 138) % 128) ∷ []),
        rw (a, b, c),
        ground arith,
        omega arith,
        ground arith,
      )
      | inr c ↦ elim (Bool-cases (ltb bn 2113674)) [
        | inl d ↦ inr (
          (12, ((bn - 16522) / 16384) ∷ ((bn - 16522) / 128 % 128) ∷ ((bn - 16522) % 128) ∷ []),
          rw (a, b, c, d),
          ground arith,
          omega arith,
          ground arith,
        )
        | inr d ↦ inl (ground arith, rw (a, b, c, d))
      ]
    ]
  ]
]

>>=_assoc :
    {A B C : Type 0} (f : M A) (g : A → M B) (h : B → M C)
    → (f >>= g >>= h) ≡ (f >>= λ a. g a >>= h)
>>=_assoc {A} {B} {C} f g h = fun_ext λ m. go (f m)
  where
    again : Option (B × Machine) → Option (C × Machine)
    again o = elim o [ none ↦ none | some (b, m2) ↦ h b m2 ]

    first : Option (A × Machine) → Option (B × Machine)
    first o = elim o [ none ↦ none | some (a, m1) ↦ g a m1 ]

    whole : Option (A × Machine) → Option (C × Machine)
    whole o = elim o [ none ↦ none | some (a, m1) ↦ (g a >>= h) m1 ]

    go : (o : Option (A × Machine)) → again (first o) ≡ whole o
    go none = refl
    go (some (a, m1)) = refl

bind-pure : {A : Type 0} (f : M A) (m : Machine) → f m ≡ (f >>= λ a. pure a) m
bind-pure {A} f m = go (f m)
  where
    whole : Option (A × Machine) → Option (A × Machine)
    whole o = elim o [ none ↦ none | some (a, m1) ↦ some (a, m1) ]

    go : (o : Option (A × Machine)) → o ≡ whole o
    go none = refl
    go (some (a, m1)) = refl

module _ (fs : Mount) where
  -- The unrolled code is the walk along the place.
  pub bmap-at_place :
      (ip : Inode) (bn : ℕ) (m : Machine) → bmap fs ip bn m ≡ at_place fs ip (place bn) m
  unfolding bmap place at_place
  bmap-at_place ip bn m = elim (Bool-cases (ltb bn 10)) [
    | inl a ↦ rw a (bind-pure (root fs ip bn) m)
    | inr a ↦ elim (Bool-cases (ltb bn 138)) [
      | inl b ↦ let b' : ltb (bn - 10) 128 ≡ true = ground arith in rw (a, b, b') (simp >>=_assoc)
      | inr b ↦
          let b' : ltb (bn - 10) 128 ≡ false = ground arith in
          let e : bn - 10 - 128 ≡ bn - 138 = omega arith in
          elim (Bool-cases (ltb bn 16522)) [
            | inl c ↦
                let c' : ltb (bn - 138) 16384 ≡ true = ground arith in
                rw (a, b, c, b', e, c') (simp >>=_assoc)
            | inr c ↦
                let c' : ltb (bn - 138) 16384 ≡ false = ground arith in
                let e' : bn - 138 - 16384 ≡ bn - 16522 = omega arith in
                elim (Bool-cases (ltb bn 2113674)) [
                  | inl d ↦
                      let d' : ltb (bn - 16522) 2097152 ≡ true = ground arith in
                      rw (a, b, c, d, b', e, c', e', d') (simp >>=_assoc)
                  | inr d ↦
                      let d' : ltb (bn - 16522) 2097152 ≡ false = ground arith in
                      rw (a, b, c, d, b', e, c', e', d')
                ]
          ]
    ]
  ]

  -- From MAXFILE = 2113674 on `bmap` panics. Below it, `bmap` follows a place from which the block
  -- number can be computed, so that no two block numbers share one, with its entry of `addrs` below
  -- 13 and its table entries below 128.
  pub bmap_lem :
      (ip : Inode) (bn : ℕ) (m : Machine)
      → ((2113674 ≤ bn) × (bmap fs ip bn m ≡ none))
        ⊎ ((p : Place) × (number p ≡ bn)
            × (p.0 < 13)
            × All (λ i. i < 128) p.1
            × (bmap fs ip bn m ≡ at_place fs ip (some p) m))
  unfolding at_place
  bmap_lem ip bn m = elim (place_lem bn) [
    | inl (h, e) ↦ inl (h, bmap-at_place ip bn m ∙ rw e)
    | inr (p, e, n, k, l) ↦ inr (p, n, k, l, bmap-at_place ip bn m ∙ ap (λ o. at_place fs ip o m) e)
  ]

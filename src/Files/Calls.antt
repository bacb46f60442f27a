-- ===== src/Files/Calls.antt =====
-- What the calls on the table of open files do to one entry.
use hyu_2020_operating_syste.Base.{
  ℕ, zero, suc, ◌+◌, ◌-◌, ◌%◌, ◌^◌, ◌<◌, ◌≡◌, ◌∙◌, ap, refl, ◌⊎◌, inl, inr, true, false, none, some,
  ◌==◌, int_lt, update, eq_cases, ==→eq, Bool-cases, Option-cases, arith,
}
use hyu_2020_operating_syste.Files.{Kind, Table, nfile, find_unused, filealloc, filedup, fileclose}

find_unused-some : (n i j : ℕ) (ft : Table) → find_unused n i ft ≡ some j → (ft j).ref ≡ 0
unfolding find_unused
find_unused-some zero i j ft e = cc
find_unused-some (suc n) i j ft e = elim (Bool-cases ((ft i).ref == 0)) [
  | inl z ↦ let f = (rw z at e) in let same : i ≡ j = cc in rw (← same) (==→eq (ft i).ref 0 z)
  | inr z ↦ find_unused-some n (i + 1) j ft (rw z at e)
]

pub fileclose-cases :
    (i n : ℕ) (ft : Table)
    → (ft i).ref ≡ suc n
    → suc n < 2 ^ 31
    → ((0 < n) × (fileclose i ft ≡ some (none, update ft i (record (ft i) { ref = n }))))
      ⊎ ((n ≡ 0)
          × (fileclose i ft
              ≡ some (
                some (record (ft i) { ref = 0 }),
                update ft i (record (ft i) { ref = 0; type = Kind.fd_none }),
              )))
unfolding fileclose
fileclose-cases i n ft e b =
    let open_one : int_lt (ft i).ref 1 ≡ false = ground arith in
    let left : ((ft i).ref + 2 ^ 32 - 1) % 2 ^ 32 ≡ n = omega arith in
    elim (eq_cases n 0) [
      | inl z ↦
          let last : int_lt 0 n ≡ false = ground arith in inr (z, rw (open_one, left, last, z) refl)
      | inr p ↦
          let more : int_lt 0 n ≡ true = ground arith in
          inl (omega arith, rw (open_one, left, more) refl)
    ]

pub filedup-some :
    (i : ℕ) (ft t : Table)
    → (ft i).ref + 1 < 2 ^ 31
    → filedup i ft ≡ some t
    → t ≡ update ft i (record (ft i) { ref = (ft i).ref + 1 })
unfolding filedup
filedup-some i ft t b e = elim (Bool-cases (int_lt (ft i).ref 1)) [
  | inl bad ↦ let f = (rw bad at e) in cc
  | inr good ↦
      let small : ((ft i).ref + 1) % 2 ^ 32 ≡ (ft i).ref + 1 = omega arith in
      let f = (rw (good, small) at e) in cc
]

pub filealloc-some :
    (i : ℕ) (ft t : Table)
    → filealloc ft ≡ some (i, t)
    → ((ft i).ref ≡ 0) × (t ≡ update ft i (record (ft i) { ref = 1 }))
unfolding filealloc
filealloc-some i ft t e = elim (Option-cases (find_unused nfile 0 ft)) [
  | inl n ↦ let f = (rw (n, filealloc) at e) in cc
  | inr (j, p) ↦
      let f = (rw (p, filealloc) at e) in
      let same : j ≡ i = cc in (find_unused-some nfile 0 i ft (p ∙ ap some same), rw (← same) cc)
]

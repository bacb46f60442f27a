-- ===== src/Fs/Dir/Names.antt =====
-- Names in directory entries: what `strncpy` has stored compares as the name itself.
use hyu_2020_operating_syste.Base.{
  ℕ, zero, suc, ◌+◌, ◌*◌, ◌/◌, ◌%◌, ◌^◌, ◌<◌, ◌≡◌, ◌∙◌, refl, ap, true, List, [], ◌==◌,
  if◌then◌else◌, length, arith, eq_cases, eq→==, ne→==, inl, inr,
}
use hyu_2020_operating_syste.Fs.Dir.{
  first, rest, strncmp, strncpy, Dirent, encode_dirent, decode_dirent,
}

pub strncmp_self : (n : ℕ) (p : List ℕ) → strncmp n p p ≡ true
unfolding strncmp
strncmp_self zero p = refl
strncmp_self (suc n) p =
    let same = eq→== (first p) (first p) refl in
    elim (eq_cases (first p) 0) [
      | inl z ↦ rw (same, eq→== (first p) 0 z) refl
      | inr nz ↦ rw (same, ne→== (first p) 0 nz) (strncmp_self n (rest p))
    ]

pub strncmp-strncpy : (n : ℕ) (p q : List ℕ) → strncmp n p (strncpy n q) ≡ strncmp n p q
unfolding strncmp strncpy
strncmp-strncpy zero p q = refl
strncmp-strncpy (suc n) p q = elim (eq_cases (first q) 0) [
  | inl z ↦ elim (eq_cases (first p) 0) [
    | inl zp ↦ rw (eq→== (first p) 0 zp) refl
    | inr np ↦ rw (ne→== (first p) (first q) (λ e. np (e ∙ z)), ne→== (first p) 0 np) refl
  ]
  | inr nz ↦ let o = ne→== (first q) 0 nz in rw (o, strncmp-strncpy n (rest p) (rest q)) refl
]

pub length-strncpy : (n : ℕ) (t : List ℕ) → length (strncpy n t) ≡ n
unfolding strncpy
length-strncpy zero t = refl
length-strncpy (suc n) t = ap suc (length-strncpy n (if first t == 0 then [] else rest t))

pub decode-encode_dirent : (de : Dirent) → de.inum < 2 ^ 16 → decode_dirent (encode_dirent de) ≡ de
decode-encode_dirent de h =
    let e : de.inum % 256 + 256 * (de.inum / 256 % 256) ≡ de.inum = omega arith in
    ap (λ i. record de { inum = i }) e

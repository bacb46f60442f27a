-- ===== src/Fs/Icache/Slots.antt =====
-- What the loop of `iget` finds.
use hyu_2020_operating_syste.Base.{
  ℕ, zero, suc, ◌+◌, ◌<◌, ◌≡◌, ◌≢◌, inl, inr, true, false, Option, none, some, arith, Bool-cases,
  eq_cases, eq→==, ne→==,
}
use hyu_2020_operating_syste.Fs.Icache.{
  Icache, Slot, cached, missing, is_cached, remember, find_slot,
}

-- The entry is free, where one was remembered; otherwise all entries before `i` are in use.
abbrev Remembers : Icache → ℕ → Option ℕ → Type 0
Remembers ic i none = (j : ℕ) → j < i → (ic j).ref ≢ 0
Remembers ic i (some k) = (k < i) × ((ic k).ref ≡ 0)

-- What the whole scan says.
abbrev pub Scanned : Icache → ℕ → ℕ → ℕ → Slot → Type 0
Scanned ic dev inum n (cached i) = (i < n) × (is_cached dev inum (ic i) ≡ true)
Scanned ic dev inum n (missing e) =
    Remembers ic n e × ((j : ℕ) → j < n → is_cached dev inum (ic j) ≡ false)

remember-Remembers :
    (ic : Icache) (i : ℕ) (e : Option ℕ)
    → Remembers ic i e
    → Remembers ic (i + 1) (remember i (ic i) e)
remember-Remembers ic i none r = elim (eq_cases (ic i).ref 0) [
  | inl z ↦ rw (eq→== (ic i).ref 0 z) (omega arith, z)
  | inr nz ↦
      rw (ne→== (ic i).ref 0 nz)
        (λ j h. elim (eq_cases j i) [ inl e ↦ rw e nz | inr ne ↦ r j (omega arith) ])
]
remember-Remembers ic i (some k) r = (omega arith, r.1)

pub find_slot-Scanned :
    (n i : ℕ) (e : Option ℕ) (dev inum : ℕ) (ic : Icache)
    → Remembers ic i e
    → ((j : ℕ) → j < i → is_cached dev inum (ic j) ≡ false)
    → Scanned ic dev inum (i + n) (find_slot n i e dev inum ic)
unfolding find_slot
find_slot-Scanned zero i e dev inum ic r m = let z : i + 0 ≡ i = omega arith in rw z (r, m)
find_slot-Scanned (suc n) i e dev inum ic r m = elim (Bool-cases (is_cached dev inum (ic i))) [
  | inl c ↦ rw c (omega arith, c)
  | inr c ↦
      let s : i + 1 + n ≡ i + suc n = omega arith in
      rw (c, ← s)
        (find_slot-Scanned n (i + 1) (remember i (ic i) e) dev inum ic (remember-Remembers ic i e r)
          (λ j h. elim (eq_cases j i) [ inl same ↦ rw same c | inr ne ↦ m j (omega arith) ]))
]

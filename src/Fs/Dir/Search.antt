-- ===== src/Fs/Dir/Search.antt =====
-- What a search finds when an empty entry has been filled.
use hyu_2020_operating_syste.Base.{
  ℕ, zero, suc, ◌+◌, ◌*◌, ◌<◌, ◌≤◌, ◌≡◌, ◌≢◌, ◌∙◌, refl, Bool, true, false, List, ◌==◌,
  if◌then◌else◌, arith, eq_cases, eq→==, ne→==, inl, inr, Option, none, some, Bool-cases, update,
  update_self, update_ne,
}
use hyu_2020_operating_syste.Fs.Dir.{decode_dirent, namecmp}
use hyu_2020_operating_syste.Fs.Dir.Lookup.{search_name, search_empty}

pub search_empty-found :
    (es : ℕ → List ℕ) (n i : ℕ)
    → search_empty es n i < i + n
    → (decode_dirent (es (search_empty es n i))).inum ≡ 0
search_empty-found es zero i h = absurd (omega arith)
search_empty-found es (suc n) i h = elim (eq_cases (decode_dirent (es i)).inum 0) [
  | inl z ↦ rw (eq→== _ 0 z) z
  | inr nz ↦
      let o = ne→== _ 0 nz in
      let b : search_empty es n (i + 1) < i + suc n = rw o at h in
      rw o (search_empty-found es n (i + 1) (omega arith))
]

if_same : (b : Bool) (r : Option (ℕ × ℕ)) → (if b then r else r) ≡ r
if_same true r = refl
if_same false r = refl

some_found : {p : ℕ × ℕ} → ¬ (some p ≡ none)
some_found e = cc

module _ (es : ℕ → List ℕ) (j : ℕ) (bs : List ℕ) where
  -- Another name is found, or not, as before.
  pub search_other :
      (n i : ℕ) (name : List ℕ)
      → (decode_dirent (es j)).inum ≡ 0
      → namecmp name (decode_dirent bs).name ≡ false
      → search_name (update es j bs) n i name ≡ search_name es n i name
  search_other zero i name z d = refl
  search_other (suc n) i name z d =
      let more = search_other n (i + 1) name z d in
      elim (eq_cases i j) [
        | inl e ↦
            rw (e, update_self es j bs, eq→== _ 0 z, d)
              (if_same ((decode_dirent bs).inum == 0) _ ∙ rw e at more)
        | inr ne ↦ rw (update_ne es j i bs ne, more) refl
      ]

  -- The new name is found, where it was not there.
  pub search_new :
      (n i : ℕ) (name : List ℕ)
      → i ≤ j
      → j < i + n
      → search_name es n i name ≡ none
      → (decode_dirent bs).inum ≢ 0
      → namecmp name (decode_dirent bs).name ≡ true
      → search_name (update es j bs) n i name ≡ some ((decode_dirent bs).inum, 16 * j)
  search_new zero i name l h absent nz y = absurd (omega arith)
  search_new (suc n) i name l h absent nz y = elim (eq_cases i j) [
    | inl e ↦ rw (e, update_self es j bs, ne→== _ 0 nz, y) refl
    | inr ne ↦ rw (update_ne es j i bs ne) (elim (Bool-cases ((decode_dirent (es i)).inum == 0)) [
      | inl z ↦ rw z (search_new n (i + 1) name (omega arith) (omega arith) (rw z at absent) nz y)
      | inr full ↦ elim (Bool-cases (namecmp name (decode_dirent (es i)).name)) [
        | inl c ↦ absurd (some_found (rw (full, c) at absent))
        | inr c ↦
            rw (full, c)
              (search_new n (i + 1) name (omega arith) (omega arith) (rw (full, c) at absent) nz y)
      ]
    ])
  ]

-- ===== src/Fs/Path/Parse.antt =====
-- `skipelem` against the grammar of paths.
use hyu_2020_operating_syste.Base.{
  ℕ, zero, suc, ◌≡◌, ◌≢◌, ◌⊎◌, inl, inr, ◌∙◌, sym, ap, refl, none, some, List, [], ◌∷◌, ◌++◌, ◌==◌,
  All, Bool-cases, ==→eq, ==→ne, ne→==,
}
use mathlib.Core.List.{append-nil}
use hyu_2020_operating_syste.Fs.Path.{slash, dirsiz, skip_slashes, scan_elem, cut, skipelem}

-- `n` slashes
abbrev pub slashes : ℕ → List ℕ
slashes zero = []
slashes (suc n) = slash ∷ slashes n

-- The path is at its end, or at a character that is no slash.
abbrev pub NoSlashAhead : List ℕ → Type 0
NoSlashAhead [] = Unit {0}
NoSlashAhead (c ∷ cs) = c ≢ slash

skip_slashes-cases :
    (cs : List ℕ) → (n : ℕ) × (cs ≡ slashes n ++ skip_slashes cs) × NoSlashAhead (skip_slashes cs)
unfolding skip_slashes
skip_slashes-cases [] = (0, refl, tt)
skip_slashes-cases (c ∷ cs) = elim (Bool-cases (c == slash)) [
  | inl s ↦
      let (n, e, a) = skip_slashes-cases cs in
      let same : c ≡ slash = ==→eq c slash s in rw s (suc n, (rw same (ap (λ l. slash ∷ l) e)), a)
  | inr o ↦ rw o (0, refl, ==→ne c slash o)
]

-- What follows an element: nothing, or a slash.
abbrev pub AtEnd : List ℕ → Type 0
AtEnd [] = Unit {0}
AtEnd (c ∷ cs) = c ≡ slash

scan_elem-cases :
    (cs : List ℕ)
    → (cs ≡ (scan_elem cs).0 ++ (scan_elem cs).1)
      × All (λ c. c ≢ slash) (scan_elem cs).0
      × AtEnd (scan_elem cs).1
unfolding scan_elem
scan_elem-cases [] = (refl, tt, tt)
scan_elem-cases (c ∷ cs) = elim (Bool-cases (c == slash)) [
  | inl s ↦ rw s (refl, tt, ==→eq c slash s)
  | inr o ↦ let (e, a, b) = scan_elem-cases cs in rw o (ap (λ l. c ∷ l) e, (==→ne c slash o, a), b)
]

-- The first step of reading a path: slashes, an element, what separates it, the rest.
pub record Parsed (path elem rest : List ℕ) : Type 0 where
  pub before : ℕ
  pub after : ℕ
  pub parts : path ≡ slashes before ++ (elem ++ (slashes after ++ rest))
  pub nonempty : elem ≢ []
  pub no_slash : All (λ c. c ≢ slash) elem
  pub ahead : NoSlashAhead rest
  pub ends : after ≡ 0 → rest ≡ []

at_end :
    (n : ℕ) (cs rest : List ℕ)
    → AtEnd cs
    → cs ≡ slashes n ++ rest
    → NoSlashAhead rest
    → n ≡ 0
    → rest ≡ []
at_end n cs [] a e h z = refl
at_end zero (c ∷ cs) (d ∷ ds) a e h z = let same : c ≡ d = cc in absurd (h (sym same ∙ a))
at_end zero [] (d ∷ ds) a e h z = cc
at_end (suc n) cs (d ∷ ds) a e h z = cc

elem_nonempty : (c : ℕ) (cs : List ℕ) → c ≢ slash → (scan_elem (c ∷ cs)).0 ≢ []
unfolding scan_elem
elem_nonempty c cs h e = let o = ne→== c slash h in let f = (rw o at e) in cc

-- `skipelem` returns 0 exactly on a path of slashes only. On any other path it skips the leading
-- slashes, takes the longest element without a slash, cut to DIRSIZ characters, and returns what
-- follows it and its slashes, which is empty or starts with no slash.
pub skipelem_lem :
    (path : List ℕ)
    → ((n : ℕ) × (path ≡ slashes n) × (skipelem path ≡ none))
      ⊎ ((elem rest : List ℕ) × Parsed path elem rest
          × (skipelem path ≡ some (rest, cut dirsiz elem)))
unfolding skipelem
skipelem_lem path = let (n, e, a) = skip_slashes-cases path in go n (skip_slashes path) refl e a
  where
    go :
        (n : ℕ) (cs : List ℕ)
        → skip_slashes path ≡ cs
        → path ≡ slashes n ++ skip_slashes path
        → NoSlashAhead (skip_slashes path)
        → ((n : ℕ) × (path ≡ slashes n) × (skipelem path ≡ none))
          ⊎ ((elem rest : List ℕ) × Parsed path elem rest
              × (skipelem path ≡ some (rest, cut dirsiz elem)))
    go n [] h e a = inl (n, e ∙ rw h (append-nil (slashes n)), rw (h, skipelem) refl)
    go n (c ∷ cs) h e a =
        let (parts, no_slash, end) = scan_elem-cases (c ∷ cs) in
        let (m, e2, ahead) = skip_slashes-cases (scan_elem (c ∷ cs)).1 in
        inr (
          (scan_elem (c ∷ cs)).0,
          skip_slashes (scan_elem (c ∷ cs)).1,
          record {
            before = n;
            after = m;
            parts =
                e ∙ ap (λ l. slashes n ++ l) (h ∙ parts ∙ ap (λ l. (scan_elem (c ∷ cs)).0 ++ l) e2);
            nonempty = elem_nonempty c cs (rw h at a);
            no_slash = no_slash;
            ahead = ahead;
            ends = at_end m (scan_elem (c ∷ cs)).1 _ end e2 ahead;
          },
          rw (h, skipelem) refl,
        )

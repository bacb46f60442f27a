-- ===== src/Fs/Path/Tests.antt =====
-- The examples of the comment above `skipelem`.
use hyu_2020_operating_syste.Base.{ℕ, ◌≡◌, ◌⊎◌, refl, none, some, List, [], ◌∷◌}
use hyu_2020_operating_syste.Fs.Path.{slash, dirsiz, cut, skip_slashes, scan_elem, skipelem}
use hyu_2020_operating_syste.Fs.Path.Parse.{slashes, Parsed, skipelem_lem}

-- "///a//bb"
abbrev double_slashes : List ℕ
double_slashes = slash ∷ slash ∷ slash ∷ 97 ∷ slash ∷ slash ∷ 98 ∷ 98 ∷ []

skipelem_runs : skipelem double_slashes ≡ some (98 ∷ 98 ∷ [], 97 ∷ [])
unfolding skipelem skip_slashes scan_elem cut
skipelem_runs = refl

skipelem_one : skipelem (97 ∷ []) ≡ some ([], 97 ∷ [])
unfolding skipelem skip_slashes scan_elem cut
skipelem_one = refl

skipelem_root : skipelem (slashes 4) ≡ none
unfolding skipelem skip_slashes
skipelem_root = refl

skipelem_lem_example :
    ((n : ℕ) × (double_slashes ≡ slashes n) × (skipelem double_slashes ≡ none))
    ⊎ ((elem rest : List ℕ) × Parsed double_slashes elem rest
        × (skipelem double_slashes ≡ some (rest, cut dirsiz elem)))
skipelem_lem_example = skipelem_lem double_slashes

-- ===== src/Fs/Path.antt =====
-- Path names: `skipelem` of project3/xv6-public/fs.c. A path is its characters before the NUL.
pub mod Parse
mod Tests
use hyu_2020_operating_syste.Base.{
  ℕ, zero, suc, Bool, true, false, Option, none, some, List, [], ◌∷◌, ◌==◌, if◌then◌else◌,
}

-- '/'
abbrev pub slash : ℕ
slash = 47

abbrev pub dirsiz : ℕ
dirsiz = 14

-- `while(*path == '/') path++;`
unfoldable pub skip_slashes : List ℕ → List ℕ
skip_slashes [] = []
skip_slashes (c ∷ cs) = let rest = skip_slashes cs in if c == slash then rest else c ∷ cs

-- `while(*path != '/' && *path != 0) path++;`: what lies between `s` and `path`, and `path`
unfoldable pub scan_elem : List ℕ → List ℕ × List ℕ
scan_elem [] = ([], [])
scan_elem (c ∷ cs) =
    let rest = scan_elem cs in if c == slash then ([], c ∷ cs) else (c ∷ rest.0, rest.1)

-- The characters that `name` has after `memmove`, up to the NUL or the end of its DIRSIZ bytes.
unfoldable pub cut : ℕ → List ℕ → List ℕ
cut zero cs = []
cut (suc n) [] = []
cut (suc n) (c ∷ cs) = c ∷ cut n cs

-- The path that is returned, and `name`; `none` is the return of 0.
unfoldable pub skipelem : List ℕ → Option (List ℕ × List ℕ)
skipelem path = elim (skip_slashes path) [
  | [] ↦ none
  | c ∷ cs ↦ some (skip_slashes (scan_elem (c ∷ cs)).1, cut dirsiz (scan_elem (c ∷ cs)).0)
]

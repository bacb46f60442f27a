-- ===== src/Fs/Dir.antt =====
-- Directories: `dirlookup` and `dirlink` of project3/xv6-public/fs.c, with `strncmp` and `strncpy` of
-- string.c.
pub mod Names
pub mod Lookup
pub mod Search
pub mod Link
mod Tests
use hyu_2020_operating_syste.Base.{
  ℕ, zero, suc, ◌+◌, ◌*◌, ◌/◌, ◌%◌, ◌^◌, Bool, true, false, not, ◌&&◌, Option, none, some, List, [],
  ◌∷◌, ◌==◌, ltb, if◌then◌else◌, length, get_or,
}
use hyu_2020_operating_syste.Fs.{Mount, M, ◌>>=◌, pure}
use hyu_2020_operating_syste.Fs.Bmap.{Inode}
use hyu_2020_operating_syste.Fs.Path.{dirsiz}
use hyu_2020_operating_syste.Fs.Data.{Device, readi, writei}

abbrev pub t_dir : ℕ
t_dir = 1

-- `*s` and `s + 1` of a string; the byte after the last is NUL.
abbrev pub first : List ℕ → ℕ
first s = get_or s 0 0

abbrev pub rest : List ℕ → List ℕ
rest [] = []
rest (x ∷ xs) = xs

-- whether `strncmp(p, q, n)` is 0
unfoldable pub strncmp : ℕ → List ℕ → List ℕ → Bool
strncmp zero p q = true
strncmp (suc n) p q =
    let more = strncmp n (rest p) (rest q) in
    if not (first p == 0) && (first p == first q) then more else first p == first q

-- the `n` bytes that `strncpy(s, t, n)` writes
unfoldable pub strncpy : ℕ → List ℕ → List ℕ
strncpy zero t = []
strncpy (suc n) t = first t ∷ strncpy n (if first t == 0 then [] else rest t)

abbrev pub namecmp : List ℕ → List ℕ → Bool
namecmp s t = strncmp dirsiz s t

-- `struct dirent`, and `sizeof(de)`
pub record Dirent : Type 0 where
  pub inum : ℕ
  pub name : List ℕ

abbrev pub dirent_size : ℕ
dirent_size = 16

abbrev pub decode_dirent : List ℕ → Dirent
decode_dirent bs = record { inum = get_or bs 0 0 + 256 * get_or bs 1 0; name = rest (rest bs) }

abbrev pub encode_dirent : Dirent → List ℕ
encode_dirent de = (de.inum % 256) ∷ (de.inum / 256 % 256) ∷ de.name

-- what `dirlink` returns: -1 where the name is there already, after the `iput` of its inode, or 0
pub data Linked : Type 0 where
  taken : ℕ → Linked
  linked : Linked

module _ (fs : Mount) (devsw : ℕ → Device) where
  -- `if(readi(dp, (char*)&de, off, sizeof(de)) != sizeof(de)) panic(…)`
  unfoldable pub read_dirent : Inode → ℕ → M (Dirent × Inode)
  read_dirent dp off = readi fs devsw dp off dirent_size >>= λ (r, dp'). elim r [
    | none ↦ λ m. none
    | some bs ↦ if length bs == dirent_size then pure (decode_dirent bs, dp') else λ m. none
  ]

  -- The loop of `dirlookup`, on fuel: the inode number and the offset of the entry.
  unfoldable pub lookup_from : ℕ → Inode → List ℕ → ℕ → M (Option (ℕ × ℕ) × Inode)
  lookup_from zero dp name off = pure (none, dp)
  lookup_from (suc f) dp name off =
      let more = λ (dp' : Inode). lookup_from f dp' name ((off + dirent_size) % 2 ^ 32) in
      if ltb off dp.size
      then (read_dirent dp off >>= λ (de, dp').
          if de.inum == 0
          then more dp'
          else (if namecmp name de.name then pure (some (de.inum, off), dp') else more dp'))
      else pure (none, dp)

  -- `dirlookup`, up to its `iget`
  unfoldable pub dirlookup : Inode → List ℕ → M (Option (ℕ × ℕ) × Inode)
  dirlookup dp name =
      if dp.type == t_dir then lookup_from (dp.size / dirent_size + 1) dp name 0 else λ m. none

  -- the search of `dirlink` for an empty entry, on fuel
  unfoldable pub empty_from : ℕ → Inode → ℕ → M (ℕ × Inode)
  empty_from zero dp off = pure (off, dp)
  empty_from (suc f) dp off =
      let more = λ (dp' : Inode). empty_from f dp' ((off + dirent_size) % 2 ^ 32) in
      if ltb off dp.size
      then (read_dirent dp off >>= λ (de, dp'). if de.inum == 0 then pure (off, dp') else more dp')
      else pure (off, dp)

  unfoldable pub dirlink : Inode → List ℕ → ℕ → M (Linked × Inode)
  dirlink dp name inum = dirlookup dp name >>= λ (found, dp'). elim found [
    | some (inum', off) ↦ pure (taken inum', dp')
    | none ↦ empty_from (dp'.size / dirent_size + 1) dp' 0 >>= λ (off, dp2).
        (writei fs devsw dp2 off
            (encode_dirent (record { inum = inum; name = strncpy dirsiz name }))
          >>= λ (r, dp3). elim r [
            | none ↦ λ m. none
            | some n ↦ if n == dirent_size then pure (linked, dp3) else λ m. none
          ])
  ]

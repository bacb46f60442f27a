-- ===== src/Files.antt =====
-- The table of open files of project3/xv6-public/file.c.
pub mod Calls
pub mod Counted
mod Tests
use hyu_2020_operating_syste.Base.{
  ℕ, zero, suc, ◌+◌, ◌-◌, ◌%◌, ◌^◌, Bool, true, false, Option, none, some, ◌==◌, if◌then◌else◌,
  int_lt, update,
}

-- the `type` of `struct file`
pub data Kind : Type 0 where
  fd_none fd_pipe fd_inode : Kind

-- `struct file`; `pipe` and `ip` name what the pointers point to.
pub record File : Type 0 where
  pub type : Kind
  pub ref : ℕ
  pub readable : Bool
  pub writable : Bool
  pub pipe : ℕ
  pub ip : ℕ
  pub off : ℕ

abbrev pub nfile : ℕ
nfile = 100

-- `ftable.file`
abbrev pub Table : Type 0
Table = ℕ → File

-- the loop of `filealloc`, for the `n` entries from `i` on
unfoldable pub find_unused : ℕ → ℕ → Table → Option ℕ
find_unused zero i ft = none
find_unused (suc n) i ft =
    let rest = find_unused n (i + 1) ft in if (ft i).ref == 0 then some i else rest

unfoldable pub filealloc : Table → Option (ℕ × Table)
filealloc ft = elim (find_unused nfile 0 ft) [
  | none ↦ none
  | some i ↦ some (i, update ft i (record (ft i) { ref = 1 }))
]

-- `none` is the panic.
unfoldable pub filedup : ℕ → Table → Option Table
filedup i ft =
    if int_lt (ft i).ref 1
    then none
    else some (update ft i (record (ft i) { ref = ((ft i).ref + 1) % 2 ^ 32 }))

-- The outer `none` is the panic. The file that comes back is the copy `ff`, whose pipe or inode the
-- rest of the function gives up.
unfoldable pub fileclose : ℕ → Table → Option (Option File × Table)
fileclose i ft =
    let left = ((ft i).ref + 2 ^ 32 - 1) % 2 ^ 32 in
    if int_lt (ft i).ref 1
    then none
    else (if int_lt 0 left
        then some (none, update ft i (record (ft i) { ref = left }))
        else some (
          some (record (ft i) { ref = left }),
          update ft i (record (ft i) { ref = 0; type = Kind.fd_none }),
        ))

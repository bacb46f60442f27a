-- ===== src/Fs/Icache.antt =====
-- The table of inodes in memory: `iget`, `idup` and the end of `iput` in project3/xv6-public/fs.c.
pub mod Slots
pub mod Held
pub mod Kept
pub mod Reach
mod Tests
use hyu_2020_operating_syste.Base.{
  ℕ, zero, suc, ◌+◌, ◌-◌, ◌%◌, ◌^◌, Bool, ◌&&◌, Option, none, some, ◌==◌, int_lt, if◌then◌else◌,
  update,
}
use hyu_2020_operating_syste.Fs.Bmap.{Inode}

abbrev pub ninode : ℕ
ninode = 50

-- `icache.inode`
abbrev pub Icache : Type 0
Icache = ℕ → Inode

-- What the loop of `iget` ends with: the entry of the inode, or `empty`.
pub data Slot : Type 0 where
  cached : ℕ → Slot
  missing : Option ℕ → Slot

-- `ip->ref > 0 && ip->dev == dev && ip->inum == inum`
abbrev pub is_cached : ℕ → ℕ → Inode → Bool
is_cached dev inum ip = int_lt 0 ip.ref && ((ip.dev == dev) && (ip.inum == inum))

-- `if(empty == 0 && ip->ref == 0) empty = ip;` for entry `i`
abbrev pub remember : ℕ → Inode → Option ℕ → Option ℕ
remember i ip none = if ip.ref == 0 then some i else none
remember i ip (some k) = some k

-- the loop, for the `n` entries from `i` on
unfoldable pub find_slot : ℕ → ℕ → Option ℕ → ℕ → ℕ → Icache → Slot
find_slot zero i empty dev inum ic = missing empty
find_slot (suc n) i empty dev inum ic =
    let more = find_slot n (i + 1) (remember i (ic i) empty) dev inum ic in
    if is_cached dev inum (ic i) then cached i else more

-- `ip->ref++` and `ip->ref--`
abbrev pub add_ref : ℕ → Icache → Icache
add_ref i ic = update ic i (record (ic i) { ref = ((ic i).ref + 1) % 2 ^ 32 })

abbrev pub drop_ref : ℕ → Icache → Icache
drop_ref i ic = update ic i (record (ic i) { ref = ((ic i).ref + 2 ^ 32 - 1) % 2 ^ 32 })

-- `none` is the panic.
unfoldable pub iget : ℕ → ℕ → Icache → Option (ℕ × Icache)
iget dev inum ic = elim (find_slot ninode 0 none dev inum ic) [
  | cached i ↦ some (i, add_ref i ic)
  | missing none ↦ none
  | missing (some k) ↦
      some (k, update ic k (record (ic k) { dev = dev; inum = inum; ref = 1; valid = 0 }))
]

unfoldable pub idup : ℕ → Icache → Icache
idup i ic = add_ref i ic

-- ===== src/Fs/Dinode/Tests.antt =====
-- A disk with eight inodes in block 3.
use hyu_2020_operating_syste.Base.{ℕ, ◌<◌, ◌≤◌, ◌≡◌, ◌≢◌, ◌⊎◌, refl, none, some, false, arith}
use hyu_2020_operating_syste.Log.{Machine}
use hyu_2020_operating_syste.Fs.{Mount}
use hyu_2020_operating_syste.Fs.Example.{small_fs, small_machine}
use hyu_2020_operating_syste.Fs.Room.{Room}
use hyu_2020_operating_syste.Fs.Bmap.{Inode}
use hyu_2020_operating_syste.Fs.Icache.{Icache, ninode, is_cached, iget}
use hyu_2020_operating_syste.Fs.Dinode.{iupdate, ilock, ialloc, disk_type}
use hyu_2020_operating_syste.Fs.Dinode.Coding.{SameFields, IsStored}
use hyu_2020_operating_syste.Fs.Dinode.Update.{on_disk, ilock-iupdate}
use hyu_2020_operating_syste.Fs.Dinode.Alloc.{Taken, ialloc_lem}

abbrev inode_fs : Mount
inode_fs = record small_fs { sb = record (small_fs.sb) { ninodes = 8; inodestart = 3 } }

inode_Room : Room inode_fs 1 small_machine
inode_Room = record { open_call = omega arith; entries = omega arith; blocks = omega arith }

abbrev unread : Inode
unread = record {
  dev = 1;
  inum = 5;
  ref = 1;
  valid = 0;
  type = 0;
  major = 0;
  minor = 0;
  nlink = 0;
  size = 0;
  addrs = λ _. 0;
}

abbrev changed : Inode
changed = record unread { valid = 1; type = 2; nlink = 1; size = 700; addrs = λ k. k }

changed-IsStored : IsStored changed
changed-IsStored = record {
  type = omega arith;
  major = omega arith;
  minor = omega arith;
  nlink = omega arith;
  size = omega arith;
  addrs = λ k h. omega arith;
}

ilock-iupdate_example :
    (m' : Machine) × (iupdate inode_fs changed small_machine ≡ some (tt, m'))
    × (◌≡◌ {A = ℕ} 2 0 → ilock inode_fs unread m' ≡ none)
    × (◌≢◌ {A = ℕ} 2 0
        → (q' : Inode) × (ilock inode_fs unread m' ≡ some (q', m'))
          × SameFields q' changed
          × (q'.valid ≡ 1))
    × ((inum : ℕ)
        → inum ≢ 5
        → SameFields
            (on_disk inode_fs m'.cache inum unread)
            (on_disk inode_fs small_machine.cache inum unread))
ilock-iupdate_example =
    ilock-iupdate inode_fs 0 small_machine changed unread inode_Room changed-IsStored
      (refl, refl, refl)

-- a table of inodes with no entry in use
abbrev empty_table : Icache
empty_table _ = record unread { ref = 0 }

ialloc_lem_example :
    (((j : ℕ) → 1 ≤ j → j < 8 → disk_type inode_fs small_machine j ≢ 0)
      × (ialloc inode_fs 1 2 empty_table small_machine ≡ none))
    ⊎ ((j : ℕ) × (1 ≤ j)
        × (j < 8)
        × (disk_type inode_fs small_machine j ≡ 0)
        × ((i : ℕ) → 1 ≤ i → i < j → disk_type inode_fs small_machine i ≢ 0)
        × ((((i : ℕ)
                → i < ninode
                → (is_cached 1 j (empty_table i) ≡ false) × ((empty_table i).ref ≢ 0))
              × (ialloc inode_fs 1 2 empty_table small_machine ≡ none))
            ⊎ ((i : ℕ) × (ic' : Icache) × (m' : Machine) × (iget 1 j empty_table ≡ some (i, ic'))
                × (ialloc inode_fs 1 2 empty_table small_machine ≡ some ((i, ic'), m'))
                × Taken inode_fs 2 small_machine j m')))
ialloc_lem_example = ialloc_lem inode_fs 2 1 0 empty_table small_machine (omega arith) inode_Room

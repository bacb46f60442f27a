-- ===== src/Fs/Truncate/Tests.antt =====
-- A file of two blocks, the second through a table.
use hyu_2020_operating_syste.Base.{
  ℕ, ◌+◌, ◌-◌, ◌%◌, ◌^◌, ◌<◌, ◌≡◌, ◌≢◌, ◌⊎◌, refl, [], ◌∷◌, some, arith, All, Distinct, update,
  subst, sym, true,
}
use hyu_2020_operating_syste.Block.{Disk, zero_block, set_word, get_word}
use hyu_2020_operating_syste.Log.{Machine}
use hyu_2020_operating_syste.Fs.{Mount}
use hyu_2020_operating_syste.Fs.Example.{small_fs, small_machine}
use hyu_2020_operating_syste.Fs.Bits.{bit_used, IsBytes}
use hyu_2020_operating_syste.Fs.Bitmap.{bblock, block_used}
use hyu_2020_operating_syste.Fs.Room.{Room}
use hyu_2020_operating_syste.Fs.Bmap.{Inode}
use hyu_2020_operating_syste.Fs.Bmap.Walk.{Plain}
use hyu_2020_operating_syste.Fs.Dinode.Coding.{IsStored}
use hyu_2020_operating_syste.Fs.Truncate.{itrunc, iput}
use hyu_2020_operating_syste.Fs.Truncate.Blocks.{file_blocks, roots, tree_blocks, entries}
use hyu_2020_operating_syste.Fs.Truncate.FreeAll.{Ready}
use hyu_2020_operating_syste.Fs.Truncate.Calls.{Layout, Emptied, itrunc_lem}
use hyu_2020_operating_syste.Fs.Truncate.Put.{iput_lem}

abbrev file_fs : Mount
file_fs = record small_fs { sb = record (small_fs.sb) { ninodes = 8; inodestart = 3 } }

-- blocks 0, 1, 3, 5, 6 and 7 are in use
abbrev file_disk : Disk
file_disk =
    update (update (λ _. zero_block) 1 (update zero_block 0 235)) 6 (set_word zero_block 0 7)

abbrev file_machine : Machine
file_machine = record small_machine { cache = file_disk }

abbrev unlinked : Inode
unlinked = record {
  dev = 1;
  inum = 5;
  ref = 1;
  valid = 1;
  type = 2;
  major = 0;
  minor = 0;
  nlink = 0;
  size = 600;
  addrs = update (update (λ _. 0) 0 5) 10 6;
}

unlinked-blocks : file_blocks file_disk unlinked ≡ 5 ∷ 7 ∷ 6 ∷ []
unfolding roots tree_blocks entries set_word get_word
unlinked-blocks = refl

abbrev InUse : ℕ → Type 0
InUse x = (x < 20) × (block_used file_fs file_disk x ≡ true) × (1 < x)

InUse-Plain : (x : ℕ) → InUse x → Plain file_fs file_disk x
InUse-Plain x (low, used, apart) = record {
  inside = low;
  used = used;
  no_bitmap = λ b h. let e : bblock file_fs b ≡ 1 = omega arith in rw e (omega arith);
}

unlinked-Plain : All (Plain file_fs file_disk) (file_blocks file_disk unlinked)
unfolding bit_used set_word
unlinked-Plain = subst (All (Plain file_fs file_disk)) (sym unlinked-blocks) (
  InUse-Plain 5 (omega arith, refl, omega arith),
  (
    InUse-Plain 7 (omega arith, refl, omega arith),
    (InUse-Plain 6 (omega arith, refl, omega arith), tt),
  ),
)

unlinked-Distinct : Distinct (file_blocks file_disk unlinked)
unlinked-Distinct =
    subst Distinct (sym unlinked-blocks)
      ((omega arith, (omega arith, tt)), ((omega arith, tt), (tt, tt)))

file_Ready : Ready file_fs (1 ∷ []) 1 file_machine
file_Ready = record {
  bytes = λ b h. let e : bblock file_fs b ≡ 1 = omega arith in rw e file-IsBytes;
  owned = λ b h. let e : bblock file_fs b ≡ 1 = omega arith in rw e refl;
  room = record { open_call = omega arith; entries = omega arith; blocks = omega arith };
}
  where
    file-IsBytes : IsBytes (file_disk 1)
    file-IsBytes k = ground arith

unlinked-IsStored : IsStored unlinked
unlinked-IsStored = record {
  type = omega arith;
  major = omega arith;
  minor = omega arith;
  nlink = omega arith;
  size = omega arith;
  addrs = λ k h. ground arith;
}

file_Layout : Layout file_fs
file_Layout inum b h l = omega arith

itrunc_lem_example :
    (addrs : ℕ → ℕ) × (m' : Machine) × (itrunc file_fs unlinked file_machine
      ≡ some (record unlinked { addrs = addrs; size = 0 }, m'))
    × Emptied file_fs unlinked
        (record unlinked { addrs = addrs; size = 0 })
        (file_blocks file_disk unlinked)
        file_machine
        m'
    × Room file_fs 1 m'
itrunc_lem_example =
    itrunc_lem file_fs unlinked (1 ∷ []) 1 file_machine unlinked-Plain unlinked-Distinct file_Ready
      unlinked-IsStored (omega arith) file_Layout

iput_lem_example :
    ((◌≡◌ {A = ℕ} 1 0 ⊎ (◌≢◌ {A = ℕ} 0 0 ⊎ ◌≢◌ {A = ℕ} 1 1))
      → iput file_fs unlinked file_machine
        ≡ some (record unlinked { ref = (1 + 2 ^ 32 - 1) % 2 ^ 32 }, file_machine))
    × (◌≢◌ {A = ℕ} 1 0 × ◌≡◌ {A = ℕ} 0 0 × ◌≡◌ {A = ℕ} 1 1
        → (ip' : Inode) × (m' : Machine) × (iput file_fs unlinked file_machine ≡ some (ip', m'))
          × ((ip'.type ≡ 0) × (ip'.valid ≡ 0) × (ip'.ref ≡ 0))
          × Emptied file_fs unlinked ip' (file_blocks file_disk unlinked) file_machine m'
          × Room file_fs 0 m')
iput_lem_example =
    iput_lem file_fs unlinked (1 ∷ []) 0 file_machine unlinked-Plain unlinked-Distinct file_Ready
      unlinked-IsStored (omega arith) file_Layout

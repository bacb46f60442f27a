-- ===== src/Fs/Dir/Tests.antt =====
-- A directory with the entries "." and "a" and an empty one between them.
use hyu_2020_operating_syste.Base.{
  ℕ, ◌+◌, ◌*◌, ◌≡◌, refl, false, List, [], ◌∷◌, Option, none, some, arith, update,
}
use hyu_2020_operating_syste.Block.{Disk, zero_block}
use hyu_2020_operating_syste.Log.{Machine}
use hyu_2020_operating_syste.Fs.Example.{small_fs, small_disk, small_machine}
use hyu_2020_operating_syste.Fs.Room.{Room}
use hyu_2020_operating_syste.Fs.Bmap.{Inode}
use hyu_2020_operating_syste.Fs.Data.{Device, slice}
use hyu_2020_operating_syste.Fs.Data.Single.{single-Laid}
use hyu_2020_operating_syste.Fs.Dir.{linked, namecmp, strncmp, dirlookup, dirlink}
use hyu_2020_operating_syste.Fs.Dir.Lookup.{search_name, search_empty}
use hyu_2020_operating_syste.Fs.Dir.Link.{dir_entries, dirlookup-dirlink}

abbrev no_driver : ℕ → Device
no_driver _ = record { read = none; write = none }

abbrev folder : Inode
folder = record {
  dev = 1;
  inum = 1;
  ref = 1;
  valid = 1;
  type = 1;
  major = 0;
  minor = 0;
  nlink = 1;
  size = 48;
  addrs = λ _. 5;
}

abbrev folder_disk : Disk
folder_disk = update small_disk 5 (update (update (update (update zero_block 0 1) 2 46) 32 7) 34 97)

abbrev folder_machine : Machine
folder_machine = record small_machine { cache = folder_disk }

folder_Room : Room small_fs (1 + 0) folder_machine
folder_Room = record { open_call = omega arith; entries = omega arith; blocks = omega arith }

no_b : search_name (dir_entries (λ _. 5) folder_disk) 3 0 (98 ∷ []) ≡ none
unfolding slice strncmp
no_b = refl

first_empty : search_empty (dir_entries (λ _. 5) folder_disk) 3 0 ≡ 1
unfolding slice
first_empty = refl

dirlookup-dirlink_example :
    (m' : Machine) × (dirlink small_fs no_driver folder (98 ∷ []) 9 folder_machine
      ≡ some ((linked, folder), m'))
    × (dirlookup small_fs no_driver folder (98 ∷ []) m'
        ≡ some ((some (9, 16 * search_empty (dir_entries (λ _. 5) folder_disk) 3 0), folder), m'))
    × ((other : List ℕ)
        → namecmp other (98 ∷ []) ≡ false
        → (r : Option (ℕ × ℕ)) × (dirlookup small_fs no_driver folder other folder_machine
            ≡ some ((r, folder), folder_machine))
          × (dirlookup small_fs no_driver folder other m' ≡ some ((r, folder), m')))
    × Room small_fs 0 m'
dirlookup-dirlink_example =
    dirlookup-dirlink small_fs no_driver folder 3 (λ _. 5) 1 0 (98 ∷ []) 9 folder_machine refl
      (single-Laid folder_disk folder (omega arith)) refl (omega arith) (omega arith) folder_Room
      (omega arith) (omega arith) no_b (let e = first_empty in omega arith)

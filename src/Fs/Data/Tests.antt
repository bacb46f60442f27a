-- ===== src/Fs/Data/Tests.antt =====
-- A file of one block.
use hyu_2020_operating_syste.Base.{
  ℕ, ◌+◌, ◌^◌, ◌<◌, ◌≤◌, ◌≡◌, ◌⊎◌, List, [], ◌∷◌, none, some, arith, min, ◌-◌,
}
use hyu_2020_operating_syste.Log.{Machine}
use hyu_2020_operating_syste.Fs.Example.{small_fs, small_machine}
use hyu_2020_operating_syste.Fs.Room.{Room}
use hyu_2020_operating_syste.Fs.Bmap.{Inode}
use hyu_2020_operating_syste.Fs.Data.{Device, slice, readi, writei}
use hyu_2020_operating_syste.Fs.Data.Single.{single-Laid}
use hyu_2020_operating_syste.Fs.Data.Extent.{Laid, content}
use hyu_2020_operating_syste.Fs.Data.Calls.{readi_lem, readi-writei}

abbrev no_device : ℕ → Device
no_device _ = record { read = none; write = none }

abbrev note : Inode
note = record {
  dev = 1;
  inum = 5;
  ref = 1;
  valid = 1;
  type = 2;
  major = 0;
  minor = 0;
  nlink = 1;
  size = 20;
  addrs = λ _. 5;
}

note-Laid : Laid small_machine.cache note (λ _. 5) 1
note-Laid = single-Laid small_machine.cache note (omega arith)

note_Room : Room small_fs (1 + 0) small_machine
note_Room = record { open_call = omega arith; entries = omega arith; blocks = omega arith }

readi_lem_example :
    ((20 < 15) ⊎ (2 ^ 32 ≤ 15 + 100)
      → readi small_fs no_device note 15 100 small_machine ≡ some ((none, note), small_machine))
    × (15 ≤ 20
        → 15 + 100 < 2 ^ 32
        → readi small_fs no_device note 15 100 small_machine
          ≡ some (
            (some (slice (content (λ _. 5) small_machine.cache) 15 (min 100 (20 - 15))), note),
            small_machine,
          ))
readi_lem_example =
    readi_lem small_fs no_device note (λ _. 5) 1 15 100 small_machine (omega arith) note-Laid
      (omega arith) (omega arith) (omega arith)

readi-writei_example :
    (m' : Machine) × (writei small_fs no_device note 4 (7 ∷ 8 ∷ 9 ∷ []) small_machine
      ≡ some ((some 3, note), m'))
    × (readi small_fs no_device note 4 3 m' ≡ some ((some (7 ∷ 8 ∷ 9 ∷ []), note), m'))
    × ((o n : ℕ)
        → o + n ≤ 20
        → ((o + n ≤ 4) ⊎ (4 + 3 ≤ o))
        → (bs : List ℕ) × (readi small_fs no_device note o n small_machine
            ≡ some ((some bs, note), small_machine))
          × (readi small_fs no_device note o n m' ≡ some ((some bs, note), m')))
    × Room small_fs 0 m'
readi-writei_example =
    readi-writei small_fs no_device note (λ _. 5) 1 4 (7 ∷ 8 ∷ 9 ∷ []) 1 0 small_machine
      (omega arith) note-Laid (omega arith) (omega arith) (omega arith) note_Room (omega arith)

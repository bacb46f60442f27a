-- ===== src/Fs/Bitmap/Tests.antt =====
-- `balloc` and `bfree` on a small disk.
use hyu_2020_operating_syste.Base.{
  ℕ, ◌≤◌, ◌<◌, ◌≡◌, ◌≢◌, ◌⊎◌, refl, true, false, none, some, [], ◌∷◌, ◌==◌, if◌then◌else◌, arith,
  update,
}
use hyu_2020_operating_syste.Block.{zero_block}
use hyu_2020_operating_syste.Log.{Machine}
use hyu_2020_operating_syste.Log.Group.{log_write}
use hyu_2020_operating_syste.Fs.{write_block}
use hyu_2020_operating_syste.Fs.Example.{small_fs, small_disk, small_machine}
use hyu_2020_operating_syste.Fs.Bits.{bit_used, mark_bit}
use hyu_2020_operating_syste.Fs.Room.{Room}
use hyu_2020_operating_syste.Fs.Bitmap.{find_free, bzero, balloc_from, balloc, bfree, block_used}
use hyu_2020_operating_syste.Fs.Bitmap.Search.{First}
use hyu_2020_operating_syste.Fs.Bitmap.Alloc.{Sound, balloc_lem}
use hyu_2020_operating_syste.Fs.Bitmap.Small.{small-IsBytes, small_Sound}
use hyu_2020_operating_syste.Fs.Bitmap.Free.{balloc_total, bfree_lem, bfree-balloc}

abbrev taken : Machine
taken = record small_machine {
  cache = update (update small_disk 1 (mark_bit (small_disk 1) 2)) 2 zero_block;
  dirty = update (update (λ _. false) 1 true) 2 true;
  block = 1 ∷ 2 ∷ [];
}

balloc_runs : balloc small_fs small_machine ≡ some (2, taken)
unfolding balloc balloc_from find_free bzero write_block log_write bit_used
balloc_runs = refl

small_Room : (k : ℕ) → k ≤ 119 → Room small_fs k small_machine
small_Room k h = record { open_call = omega arith; entries = omega arith; blocks = omega arith }

balloc_lem_example :
    First small_fs small_disk 0 2
    × (taken.cache 2 ≡ zero_block)
    × ((b : ℕ)
        → b < 20
        → block_used small_fs taken.cache b
          ≡ (if b == 2 then true else block_used small_fs small_disk b))
    × ((x : ℕ) → x ≢ 2 → x ≢ 1 → taken.cache x ≡ small_disk x)
    × Sound small_fs taken.cache
balloc_lem_example = balloc_lem small_fs small_machine small_Sound balloc_runs

balloc_total_example :
    (((b : ℕ) → b < 20 → block_used small_fs small_disk b ≡ true)
      × (balloc small_fs small_machine ≡ none))
    ⊎ ((r : ℕ) × (m' : Machine) × First small_fs small_disk 0 r
        × (balloc small_fs small_machine ≡ some (r, m'))
        × Room small_fs 3 m')
balloc_total_example = balloc_total small_fs 3 small_machine (small_Room 5 (omega arith))

bfree_lem_example :
    ((block_used small_fs small_disk 1 ≡ false) → bfree small_fs 1 small_machine ≡ none)
    × ((block_used small_fs small_disk 1 ≡ true)
        → (m' : Machine) × (bfree small_fs 1 small_machine ≡ some (tt, m'))
          × ((x : ℕ)
              → block_used small_fs m'.cache x
                ≡ (if x == 1 then false else block_used small_fs small_disk x))
          × ((x : ℕ) → x ≢ 1 → m'.cache x ≡ small_disk x)
          × Room small_fs 0 m')
bfree_lem_example = bfree_lem small_fs 0 small_machine 1 (small_Room 1 (omega arith)) small-IsBytes

bfree-balloc_example :
    (r : ℕ) × (m1 m2 : Machine) × (balloc small_fs small_machine ≡ some (r, m1))
    × (bfree small_fs r m1 ≡ some (tt, m2))
    × ((x : ℕ) → x < 20 → block_used small_fs m2.cache x ≡ block_used small_fs small_disk x)
unfolding bit_used
bfree-balloc_example =
    bfree-balloc small_fs 0 small_machine (small_Room 3 (omega arith)) small_Sound 5 (omega arith)
      refl

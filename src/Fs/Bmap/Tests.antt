-- ===== src/Fs/Bmap/Tests.antt =====
-- `bmap` on an empty file of a small disk.
use hyu_2020_operating_syste.Base.{
  ℕ, ◌≤◌, ◌<◌, ◌≡◌, ◌≢◌, ◌⊎◌, inl, refl, true, false, none, some, [], ◌∷◌, arith, update, All,
}
use hyu_2020_operating_syste.Block.{zero_block, get_word, set_word}
use hyu_2020_operating_syste.Log.{Machine}
use hyu_2020_operating_syste.Log.Group.{log_write}
use hyu_2020_operating_syste.Fs.{write_block}
use hyu_2020_operating_syste.Fs.Example.{small_fs, small_disk, small_machine}
use hyu_2020_operating_syste.Fs.Bits.{bit_used, mark_bit}
use hyu_2020_operating_syste.Fs.Bitmap.{find_free, bzero, balloc_from, balloc}
use hyu_2020_operating_syste.Fs.Bitmap.Alloc.{Sound}
use hyu_2020_operating_syste.Fs.Bitmap.Small.{small_Sound}
use hyu_2020_operating_syste.Fs.Bmap.{Inode, root, slot, bmap}
use hyu_2020_operating_syste.Fs.Bmap.Position.{Place, number, at_place, bmap_lem}
use hyu_2020_operating_syste.Fs.Bmap.Once.{WellMapped, bmap_twice}

abbrev empty_file : Inode
empty_file = record {
  dev = 1;
  inum = 5;
  ref = 1;
  valid = 1;
  type = 2;
  major = 0;
  minor = 0;
  nlink = 1;
  size = 0;
  addrs = λ _. 0;
}

-- block 11 of the file: its table is allocated in block 2, the block itself in block 3
abbrev mapped : Machine
mapped = record small_machine {
  cache =
      update
        (update
          (update (update (update small_disk 1 (mark_bit (small_disk 1) 2)) 2 zero_block) 1
            (mark_bit (mark_bit (small_disk 1) 2) 3))
          3 zero_block)
        2 (set_word zero_block 1 3);
  dirty =
      update (update (update (update (update (λ _. false) 1 true) 2 true) 1 true) 3 true) 2 true;
  block = 1 ∷ 2 ∷ 3 ∷ [];
}

abbrev grown_file : Inode
grown_file = record empty_file { addrs = update empty_file.addrs 10 2 }

bmap_runs : bmap small_fs empty_file 11 small_machine ≡ some ((3, grown_file), mapped)
unfolding bmap root slot balloc balloc_from find_free bzero write_block log_write bit_used mark_bit
    get_word
bmap_runs = refl

empty_file-WellMapped : WellMapped small_fs small_disk empty_file
empty_file-WellMapped bn k is e = inl refl

bmap_twice_example :
    (◌≢◌ {A = ℕ} 3 0)
    × (bmap small_fs grown_file 11 mapped ≡ some ((3, grown_file), mapped))
    × Sound small_fs mapped.cache
unfolding bit_used
bmap_twice_example =
    bmap_twice small_fs empty_file 11 small_machine (omega arith) (omega arith) small_Sound refl
      empty_file-WellMapped bmap_runs

bmap_lem_example :
    ((2113674 ≤ 11) × (bmap small_fs empty_file 11 small_machine ≡ none))
    ⊎ ((p : Place) × (number p ≡ 11)
        × (p.0 < 13)
        × All (λ i. i < 128) p.1
        × (bmap small_fs empty_file 11 small_machine
            ≡ at_place small_fs empty_file (some p) small_machine))
bmap_lem_example = bmap_lem small_fs empty_file 11 small_machine

-- ===== src/Fs/Example.antt =====
-- A small file system for the tests: 20 blocks, with the bitmap in block 1 and blocks 0 and 1 in use.
use hyu_2020_operating_syste.Base.{false, [], update}
use hyu_2020_operating_syste.Block.{Disk, zero_block}
use hyu_2020_operating_syste.Log.{Machine}
use hyu_2020_operating_syste.Fs.{Mount}

abbrev pub small_fs : Mount
small_fs = record {
  sb = record {
    size = 20;
    nblocks = 18;
    ninodes = 0;
    nlog = 121;
    logstart = 30;
    inodestart = 0;
    bmapstart = 1;
  };
  ops = record { outstanding = 1; committing = false };
}

abbrev pub small_disk : Disk
small_disk = update (λ _. zero_block) 1 (update zero_block 0 3)

abbrev pub small_machine : Machine
small_machine = record {
  cache = small_disk;
  disk = small_disk;
  dirty = λ _. false;
  block = [];
  power = 100;
}

-- ===== src/Fs/Bitmap/Small.antt =====
-- The small disk of the tests has a sound bitmap.
use hyu_2020_operating_syste.Base.{◌≡◌, refl, arith}
use hyu_2020_operating_syste.Fs.Example.{small_fs, small_disk}
use hyu_2020_operating_syste.Fs.Bits.{bit_used, IsBytes}
use hyu_2020_operating_syste.Fs.Bitmap.{bblock}
use hyu_2020_operating_syste.Fs.Bitmap.Alloc.{Sound}

pub small-IsBytes : IsBytes (small_disk 1)
small-IsBytes k = ground arith

pub small_Sound : Sound small_fs small_disk
unfolding bit_used
small_Sound = record {
  bytes = λ b h. let e : bblock small_fs b ≡ 1 = omega arith in rw e small-IsBytes;
  own = λ b h. let e : bblock small_fs b ≡ 1 = omega arith in rw e (omega arith, refl);
}

-- ===== src/Fs/Bitmap.antt =====
-- `balloc` and `bfree` of project3/xv6-public/fs.c.
pub mod Search
pub mod Alloc
pub mod Small
pub mod Free
mod Tests
use hyu_2020_operating_syste.Base.{
  ℕ, zero, suc, ◌+◌, ◌*◌, ◌/◌, ◌%◌, Bool, true, false, Option, none, some, ltb, if◌then◌else◌,
}
use hyu_2020_operating_syste.Block.{Disk, Block, zero_block}
use hyu_2020_operating_syste.Log.{Machine}
use hyu_2020_operating_syste.Fs.{Mount, M, ◌>>=◌, ◌>>◌, pure, write_block}
use hyu_2020_operating_syste.Fs.Bits.{bit_used, mark_bit, clear_bit}

-- `BPB`, the bits of a bitmap block
abbrev pub bpb : ℕ
bpb = 512 * 8

-- the inner loop of `balloc`, for at most so many more `bi`: the first free bit, if one is found
unfoldable pub find_free : ℕ → ℕ → ℕ → ℕ → Block → Option ℕ
find_free zero size b bi a = none
find_free (suc n) size b bi a =
    let rest = find_free n size b (bi + 1) a in
    if ltb (b + bi) size then (if bit_used a bi then rest else some bi) else none

module _ (fs : Mount) where
  -- `BBLOCK(b, sb)`
  abbrev pub bblock : ℕ → ℕ
  bblock b = b / bpb + fs.bmapstart

  -- the bit of block `b`
  abbrev pub block_used : Disk → ℕ → Bool
  block_used c b = bit_used (c (bblock b)) (b % bpb)

  unfoldable pub bzero : ℕ → M (Unit {0})
  bzero b = write_block fs b zero_block

  -- the outer loop, with fuel for the bitmap blocks that are left
  unfoldable pub balloc_from : ℕ → ℕ → M ℕ
  balloc_from zero b m = none
  balloc_from (suc n) b m =
      let rest = balloc_from n (b + bpb) m in
      if ltb b fs.size
      then elim (find_free bpb fs.size b 0 (m.cache (bblock b))) [
        | none ↦ rest
        | some bi ↦
            (write_block fs (bblock b) (mark_bit (m.cache (bblock b)) bi)
                >> (bzero (b + bi) >> pure (b + bi)))
              m
      ]
      else none

  unfoldable pub balloc : M ℕ
  balloc m = balloc_from (fs.size / bpb + 1) 0 m

  unfoldable pub bfree : ℕ → M (Unit {0})
  bfree b m =
      if bit_used (m.cache (bblock b)) (b % bpb)
      then write_block fs (bblock b) (clear_bit (m.cache (bblock b)) (b % bpb)) m
      else none

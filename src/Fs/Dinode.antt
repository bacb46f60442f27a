-- ===== src/Fs/Dinode.antt =====
-- Inodes on disk: `iupdate`, `ilock` and `ialloc` of project3/xv6-public/fs.c.
pub mod Halves
pub mod Coding
pub mod Update
pub mod Alloc
mod Tests
use hyu_2020_operating_syste.Base.{
  ℕ, zero, suc, ◌+◌, ◌*◌, ◌/◌, ◌%◌, Bool, true, false, Option, none, some, ◌==◌, ltb, int_lt,
  if◌then◌else◌,
}
use hyu_2020_operating_syste.Block.{Block, get_word, set_word}
use hyu_2020_operating_syste.Log.{Machine}
use hyu_2020_operating_syste.Fs.{Mount, M, ◌>>=◌, write_block}
use hyu_2020_operating_syste.Fs.Bmap.{Inode}
use hyu_2020_operating_syste.Fs.Icache.{Icache, iget}
use Halves.{get_half, set_half}

-- `IPB`, and the entries of `addrs`
abbrev pub ipb : ℕ
ipb = 8

abbrev pub naddrs : ℕ
naddrs = 13

-- `memmove(dip->addrs, ip->addrs, sizeof(ip->addrs))`, from word `base` on
unfoldable pub put_addrs : ℕ → ℕ → (ℕ → ℕ) → Block → Block
put_addrs zero base addrs a = a
put_addrs (suc n) base addrs a = set_word (put_addrs n base addrs a) (base + n) (addrs n)

-- Inode `i` of a block: `struct dinode` takes 64 bytes, four `short`s and 14 words.
unfoldable pub encode_dinode : ℕ → Inode → Block → Block
encode_dinode i ip a = put_addrs naddrs (16 * i + 3) ip.addrs (
    set_word
      (set_half
        (set_half (set_half (set_half a (32 * i) ip.type) (32 * i + 1) ip.major) (32 * i + 2)
          ip.minor)
        (32 * i + 3) ip.nlink)
      (16 * i + 2) ip.size)

unfoldable pub decode_dinode : ℕ → Block → Inode → Inode
decode_dinode i a ip = record ip {
  type = get_half a (32 * i);
  major = get_half a (32 * i + 1);
  minor = get_half a (32 * i + 2);
  nlink = get_half a (32 * i + 3);
  size = get_word a (16 * i + 2);
  addrs = λ k. if ltb k naddrs then get_word a (16 * i + 3 + k) else ip.addrs k;
}

-- `memset(dip, 0, sizeof(*dip))`
unfoldable pub zero_dinode : ℕ → Block → Block
zero_dinode i a k = if k / 64 == i then 0 else a k

module _ (fs : Mount) where
  -- `IBLOCK(i, sb)`
  abbrev pub iblock : ℕ → ℕ
  iblock inum = inum / ipb + fs.inodestart

  unfoldable pub iupdate : Inode → M (Unit {0})
  iupdate ip m =
      write_block fs (iblock ip.inum) (encode_dinode (ip.inum % ipb) ip (m.cache (iblock ip.inum)))
        m

  -- `ilock` once it has the sleep lock; `none` is a panic.
  unfoldable pub ilock : Inode → M Inode
  ilock ip m =
      let ip' = record (decode_dinode (ip.inum % ipb) (m.cache (iblock ip.inum)) ip) {
        valid = 1;
      } in
      if int_lt ip.ref 1
      then none
      else (if ip.valid == 0 then (if ip'.type == 0 then none else some (ip', m)) else some (ip, m))

  -- The type of inode `inum` on disk.
  abbrev pub disk_type : Machine → ℕ → ℕ
  disk_type m inum = get_half (m.cache (iblock inum)) (32 * (inum % ipb))

  -- The loop of `ialloc` from `inum` on, with the number of inodes that are left; `none` is the panic.
  -- The result is the number that goes to `iget`.
  unfoldable pub ialloc_from : ℕ → ℕ → ℕ → M ℕ
  ialloc_from zero type inum m = none
  ialloc_from (suc n) type inum m =
      let rest = ialloc_from n type (inum + 1) m in
      if ltb inum fs.ninodes
      then (if disk_type m inum == 0
          then elim (write_block fs (iblock inum)
              (set_half (zero_dinode (inum % ipb) (m.cache (iblock inum))) (32 * (inum % ipb)) type)
              m) [ none ↦ none | some (u, m') ↦ some (inum, m') ]
          else rest)
      else none

  -- with its `return iget(dev, inum)`: the entry of the inode in the table of `ic`
  unfoldable pub ialloc : ℕ → ℕ → Icache → M (ℕ × Icache)
  ialloc dev type ic = ialloc_from fs.ninodes type 1 >>= λ inum m. elim (iget dev inum ic) [
    | none ↦ none
    | some (i, ic') ↦ some ((i, ic'), m)
  ]

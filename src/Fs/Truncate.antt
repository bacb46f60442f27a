-- ===== src/Fs/Truncate.antt =====
-- Giving up a file: `itrunc` and `iput` of project3/xv6-public/fs.c.
pub mod Blocks
pub mod FreeAll
pub mod Walk
pub mod Roots
pub mod Calls
pub mod Put
mod Tests
use hyu_2020_operating_syste.Base.{
  ℕ, zero, suc, ◌+◌, ◌-◌, ◌%◌, ◌^◌, ◌==◌, not, ◌&&◌, if◌then◌else◌, none, some, update,
}
use hyu_2020_operating_syste.Block.{get_word}
use hyu_2020_operating_syste.Fs.{Mount, M, ◌>>=◌, ◌>>◌, pure}
use hyu_2020_operating_syste.Fs.Bitmap.{bfree}
use hyu_2020_operating_syste.Fs.Bmap.{Inode, ndirect, dindirect_idx, tindirect_idx}
use hyu_2020_operating_syste.Fs.Dinode.{iupdate}

-- The loops over a table in block `b`, from word `i` on for `n` words: `free` is what they do with an
-- entry that is there. The words are read from the buffer as the loop comes to them.
unfoldable pub free_words : (ℕ → M (Unit {0})) → ℕ → ℕ → ℕ → M (Unit {0})
free_words free zero b i m = some (tt, m)
free_words free (suc n) b i m =
    let rest = free_words free n b (i + 1) in
    if get_word (m.cache b) i == 0 then rest m else (free (get_word (m.cache b) i) >> rest) m

module _ (fs : Mount) where
  -- Frees block `b` after the blocks under it, where it is a table of so many levels: the loops that
  -- `itrunc` writes out for each depth.
  unfoldable pub free_tree : ℕ → ℕ → M (Unit {0})
  free_tree zero b = bfree fs b
  free_tree (suc d) b = free_words (free_tree d) (2 ^ 7) b 0 >> bfree fs b

  -- `if(ip->addrs[k]){ … ip->addrs[k] = 0; }`
  unfoldable pub free_addr : ℕ → ℕ → Inode → M Inode
  free_addr d k ip =
      if ip.addrs k == 0
      then pure ip
      else (free_tree d (ip.addrs k) >> pure (record ip { addrs = update ip.addrs k 0 }))

  -- the loop over the direct blocks, from `i` on
  unfoldable pub free_direct : ℕ → ℕ → Inode → M Inode
  free_direct zero i ip = pure ip
  free_direct (suc n) i ip = free_addr 0 i ip >>= free_direct n (i + 1)

  unfoldable pub itrunc : Inode → M Inode
  itrunc ip =
      free_direct ndirect 0 ip
      >>= free_addr 1 ndirect
      >>= free_addr 2 dindirect_idx
      >>= free_addr 3 tindirect_idx
      >>= λ ip'. (let empty = record ip' { size = 0 } in (iupdate fs empty >> pure empty))

  -- `iput` up to `ip->ref--`, which it does when nothing panics
  unfoldable pub iput : Inode → M Inode
  iput ip =
      (if not (ip.valid == 0) && (ip.nlink == 0) && (ip.ref == 1)
        then (itrunc ip >>= λ ip'.
            (let free = record ip' { type = 0 } in
              (iupdate fs free >> pure (record free { valid = 0 }))))
        else pure ip)
      >>= λ ip'. pure (record ip' { ref = (ip'.ref + 2 ^ 32 - 1) % 2 ^ 32 })

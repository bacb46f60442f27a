-- ===== src/Fs/Bmap.antt =====
-- `bmap` of project3/xv6-public/fs.c: the block of a file, through up to three levels of tables.
pub mod Position
pub mod Walk
pub mod Fresh
pub mod Stable
pub mod Once
mod Tests
use hyu_2020_operating_syste.Base.{
  ℕ, ◌+◌, ◌-◌, ◌/◌, ◌%◌, ◌^◌, Option, none, some, ltb, ◌==◌, if◌then◌else◌, update,
}
use hyu_2020_operating_syste.Block.{get_word, set_word}
use hyu_2020_operating_syste.Log.{Machine}
use hyu_2020_operating_syste.Fs.{Mount, M, ◌>>=◌, ◌>>◌, pure, write_block}
use hyu_2020_operating_syste.Fs.Bitmap.{balloc}

-- `struct inode`, without its lock; `addrs k` is `addrs[k]`, used for k < NDIRECT + 3 only.
pub record Inode : Type 0 where
  pub dev : ℕ
  pub inum : ℕ
  pub ref : ℕ
  pub valid : ℕ
  pub type : ℕ
  pub major : ℕ
  pub minor : ℕ
  pub nlink : ℕ
  pub size : ℕ
  pub addrs : ℕ → ℕ

abbrev pub ndirect : ℕ
ndirect = 10

abbrev pub dindirect_idx : ℕ
dindirect_idx = 11

abbrev pub tindirect_idx : ℕ
tindirect_idx = 12

module _ (fs : Mount) where
  -- `if((addr = ip->addrs[k]) == 0) ip->addrs[k] = addr = balloc(ip->dev);`
  pub root : Inode → ℕ → M (ℕ × Inode)
  root ip k =
      if ip.addrs k == 0
      then (balloc fs >>= λ r. pure (r, record ip { addrs = update ip.addrs k r }))
      else pure (ip.addrs k, ip)

  -- `if((addr = a[i]) == 0){ a[i] = addr = balloc(ip->dev); log_write(bp); }` for the table in
  -- block `t`
  pub slot : ℕ → ℕ → M ℕ
  slot t i m =
      if get_word (m.cache t) i == 0
      then (balloc fs >>= λ r m1. (write_block fs t (set_word (m1.cache t) i r) >> pure r) m1) m
      else some (get_word (m.cache t) i, m)

  -- `x >> 7` is `x / 2 ^ 7`, and `x & 0x7F` is `x % 2 ^ 7`.
  pub bmap : Inode → ℕ → M (ℕ × Inode)
  bmap ip bn =
      if ltb bn ndirect
      then root ip bn
      else (let bn1 = bn - ndirect in
          if ltb bn1 (2 ^ 7)
          then (root ip ndirect >>= λ (a, ip'). slot a bn1 >>= λ addr. pure (addr, ip'))
          else (let bn2 = bn1 - 2 ^ 7 in
              if ltb bn2 (2 ^ 14)
              then (root ip dindirect_idx >>= λ (a, ip').
                  slot a (bn2 / 2 ^ 7) >>= λ a1. slot a1 (bn2 % 2 ^ 7) >>= λ addr. pure (addr, ip'))
              else (let bn3 = bn2 - 2 ^ 14 in
                  if ltb bn3 (2 ^ 21)
                  then (root ip tindirect_idx >>= λ (a, ip'). slot a (bn3 / 2 ^ 14) >>= λ a1.
                      slot a1 (bn3 / 2 ^ 7 % 2 ^ 7) >>= λ a2.
                      slot a2 (bn3 % 2 ^ 7) >>= λ addr. pure (addr, ip'))
                  else (λ m. none))))

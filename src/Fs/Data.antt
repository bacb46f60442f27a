-- ===== src/Fs/Data.antt =====
-- The contents of files: `readi`, `writei` and `stati` of project3/xv6-public/fs.c.
pub mod Slices
pub mod Extent
pub mod Overwrite
pub mod Calls
pub mod Single
mod Tests
use hyu_2020_operating_syste.Base.{
  ℕ, zero, suc, ◌+◌, ◌-◌, ◌*◌, ◌/◌, ◌%◌, ◌^◌, Bool, true, false, not, ◌&&◌, ◌||◌, Option, none,
  some, List, [], ◌∷◌, ◌++◌, ◌==◌, ltb, leb, if◌then◌else◌, length, min, get_or,
}
use hyu_2020_operating_syste.Block.{Block}
use hyu_2020_operating_syste.Log.{Machine}
use hyu_2020_operating_syste.Fs.{Mount, M, ◌>>=◌, ◌>>◌, pure, write_block}
use hyu_2020_operating_syste.Fs.Bmap.{Inode, bmap}
use hyu_2020_operating_syste.Fs.Dinode.{iupdate}

-- `BSIZE`, `MAXFILE`, `T_DEV` and `NDEV`
abbrev pub bsize : ℕ
bsize = 512

abbrev pub maxfile : ℕ
maxfile = 10 + 128 + 16384 + 2097152

abbrev pub t_dev : ℕ
t_dev = 3

abbrev pub ndev : ℕ
ndev = 10

-- `struct stat`
pub record Stat : Type 0 where
  pub dev : ℕ
  pub ino : ℕ
  pub type : ℕ
  pub nlink : ℕ
  pub size : ℕ

pub stati : Inode → Stat
stati ip = record { dev = ip.dev; ino = ip.inum; type = ip.type; nlink = ip.nlink; size = ip.size }

-- the bytes that `memmove(dst, bp->data + o, m)` copies
unfoldable pub slice : Block → ℕ → ℕ → List ℕ
slice a o zero = []
slice a o (suc m) = a o ∷ slice a (o + 1) m

-- `memmove(bp->data + o, src, m)`
unfoldable pub splice : Block → ℕ → ℕ → List ℕ → Block
splice a o m src k = if leb o k && ltb k (o + m) then get_or src (k - o) 0 else a k

-- `src += m`
unfoldable pub drop : ℕ → List ℕ → List ℕ
drop zero xs = xs
drop (suc n) [] = []
drop (suc n) (x ∷ xs) = drop n xs

-- `m = min(n - tot, BSIZE - off%BSIZE)`
abbrev pub chunk : ℕ → ℕ → ℕ
chunk off n = min n (bsize - off % bsize)

-- `devsw[major].read` and `.write`: null, or a function whose result is that of `readi` and `writei`
pub record Device : Type 0 where
  pub read : Option (Inode → ℕ → M (Option (List ℕ)))
  pub write : Option (Inode → List ℕ → M (Option ℕ))

module _ (fs : Mount) where
  -- The loop of `readi`, with `n` for what is left of it, on fuel.
  unfoldable pub read_from : ℕ → Inode → ℕ → ℕ → M (List ℕ × Inode)
  read_from zero ip off n = pure ([], ip)
  read_from (suc f) ip off n =
      let rest =
        λ (ip' : Inode). read_from f ip' ((off + chunk off n) % 2 ^ 32) (n - chunk off n) in
      if n == 0
      then pure ([], ip)
      else (bmap fs ip (off / bsize) >>= λ (a, ip') m.
          (rest ip' >>= λ (bs, ip'').
          pure (slice (m.cache a) (off % bsize) (chunk off n) ++ bs, ip''))
            m)

  -- The loop of `writei` on what is left of `src`, on fuel; the number is `off` at its end.
  unfoldable pub write_from : ℕ → Inode → ℕ → List ℕ → M (ℕ × Inode)
  write_from zero ip off src = pure (off, ip)
  write_from (suc f) ip off src =
      let c = chunk off (length src) in
      let rest = λ (ip' : Inode). write_from f ip' ((off + c) % 2 ^ 32) (drop c src) in
      if length src == 0
      then pure (off, ip)
      else (bmap fs ip (off / bsize) >>= λ (a, ip') m.
          (write_block fs a (splice (m.cache a) (off % bsize) c src) >> rest ip') m)

  module _ (devsw : ℕ → Device) where
    -- `readi`; the result `none` is -1. A round copies at least a byte, so `n` is enough fuel.
    unfoldable pub readi : Inode → ℕ → ℕ → M (Option (List ℕ) × Inode)
    readi ip off n =
        if ip.type == t_dev
        then (if ltb ip.major ndev
            then elim ((devsw ip.major).read) [
              | none ↦ pure (none, ip)
              | some dev_read ↦ dev_read ip n >>= λ r. pure (r, ip)
            ]
            else pure (none, ip))
        else (if ltb ip.size off || ltb ((off + n) % 2 ^ 32) off
            then pure (none, ip)
            else (let len = (if ltb ip.size (off + n) then ip.size - off else n) in
                read_from len ip off len >>= λ (bs, ip'). pure (some bs, ip')))

    unfoldable pub writei : Inode → ℕ → List ℕ → M (Option ℕ × Inode)
    writei ip off src =
        let n = length src in
        if ip.type == t_dev
        then (if ltb ip.major ndev
            then elim ((devsw ip.major).write) [
              | none ↦ pure (none, ip)
              | some dev_write ↦ dev_write ip src >>= λ r. pure (r, ip)
            ]
            else pure (none, ip))
        else (if ltb ip.size off || ltb ((off + n) % 2 ^ 32) off
            then pure (none, ip)
            else (if ltb (maxfile * bsize) (off + n)
                then pure (none, ip)
                else (write_from n ip off src >>= λ (end, ip').
                    (let grown = record ip' { size = end } in
                      if not (n == 0) && ltb ip'.size end
                      then (iupdate fs grown >> pure (some n, grown))
                      else pure (some n, ip')))))

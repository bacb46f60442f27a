-- ===== src/Fs/Data/Single.antt =====
-- A file of one direct block.
use hyu_2020_operating_syste.Base.{ℕ, zero, suc, ◌<◌, ◌≡◌, ◌≢◌, refl, List, [], some, arith, All}
use hyu_2020_operating_syste.Block.{Disk}
use hyu_2020_operating_syste.Fs.Bmap.{Inode}
use hyu_2020_operating_syste.Fs.Bmap.Position.{place}
use hyu_2020_operating_syste.Fs.Bmap.Walk.{resolve, tables}
use hyu_2020_operating_syste.Fs.Data.Extent.{Laid}

pub single-Laid : (c : Disk) (ip : Inode) → ip.addrs 0 ≢ 0 → Laid c ip (λ _. ip.addrs 0) 1
unfolding place resolve tables
single-Laid c ip nz = record { way = way; apart = λ i j h g e. omega arith }
  where
    way :
        (bn : ℕ)
        → bn < 1
        → (k : ℕ) × (is : List ℕ) × (place bn ≡ some (k, is))
          × (ip.addrs k ≢ 0)
          × (resolve c (ip.addrs k) is ≡ ip.addrs 0)
          × (ip.addrs 0 ≢ 0)
          × All (λ t. (b : ℕ) → b < 1 → t ≢ ip.addrs 0) (tables c (ip.addrs k) is)
    way zero h = (0, [], refl, nz, refl, nz, tt)
    way (suc n) h = absurd (omega arith)

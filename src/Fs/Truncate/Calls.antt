-- ===== src/Fs/Truncate/Calls.antt =====
-- What `itrunc` does to a file.
use hyu_2020_operating_syste.Base.{
  ℕ, suc, ◌%◌, ◌<◌, ◌≡◌, ◌≢◌, ◌∙◌, sym, ap, refl, List, [], ◌∷◌, arith, All, Distinct, some, update,
  update_ne, if◌then◌else◌, subst, mem, false,
}
use hyu_2020_operating_syste.Block.{Block, Disk}
use hyu_2020_operating_syste.Log.{Machine}
use hyu_2020_operating_syste.Fs.{Mount, ◌>>◌, pure, >>=-some}
use hyu_2020_operating_syste.Fs.Room.{Room, Reserve-Room, write_block-Room}
use hyu_2020_operating_syste.Fs.Bitmap.{bblock, block_used}
use hyu_2020_operating_syste.Fs.Bmap.{Inode}
use hyu_2020_operating_syste.Fs.Bmap.Walk.{Plain}
use hyu_2020_operating_syste.Fs.Dinode.{ipb, naddrs, iblock, iupdate, encode_dinode, decode_dinode}
use hyu_2020_operating_syste.Fs.Dinode.Coding.{SameFields, IsStored}
use hyu_2020_operating_syste.Fs.Dinode.Update.{on_disk, on_disk-update}
use hyu_2020_operating_syste.Fs.Truncate.{itrunc}
use hyu_2020_operating_syste.Fs.Truncate.Blocks.{file_blocks}
use hyu_2020_operating_syste.Fs.Truncate.FreeAll.{free_all, free_all_lem, Ready, Freed}
use hyu_2020_operating_syste.Fs.Truncate.Walk.{Outside}
use hyu_2020_operating_syste.Fs.Truncate.Roots.{free_roots, free_roots-Clears}

module _ (fs : Mount) where
  -- No block of inodes is a bitmap block.
  abbrev pub Layout : Type 0
  Layout = (inum b : ℕ) → inum < fs.ninodes → b < fs.size → iblock fs inum ≢ bblock fs b

  -- What is left of the file `ip`, whose blocks were `bs`, when `ip'` has been written to disk.
  pub record Emptied (ip ip' : Inode) (bs : List ℕ) (m m' : Machine) : Type 0 where
    pub addrs : (k : ℕ) → k < naddrs → ip'.addrs k ≡ 0
    pub size : ip'.size ≡ 0
    pub bits :
        (x : ℕ)
        → x < fs.size
        → block_used fs m'.cache x ≡ (if mem x bs then false else block_used fs m.cache x)
    pub stored : SameFields (on_disk fs m'.cache ip.inum ip) ip'
    pub others :
        (inum : ℕ)
        → inum < fs.ninodes
        → inum ≢ ip.inum
        → SameFields (on_disk fs m'.cache inum ip) (on_disk fs m.cache inum ip)

  pub iupdate-Room :
      (k : ℕ) (ip : Inode) (m : Machine)
      → Room fs (suc k) m
      → (m' : Machine) × (iupdate fs ip m ≡ some (tt, m'))
        × (m'.cache
            ≡ update m.cache
                (iblock fs ip.inum)
                (encode_dinode (ip.inum % ipb) ip (m.cache (iblock fs ip.inum))))
        × Room fs k m'
  unfolding iupdate
  iupdate-Room k ip m room =
      write_block-Room fs k (iblock fs ip.inum)
        (encode_dinode (ip.inum % ipb) ip (m.cache (iblock fs ip.inum))) m room

  outside : (c : Disk) (bs : List ℕ) → All (Plain fs c) bs → All (Outside fs c) bs
  outside c [] h = tt
  outside c (b ∷ bs) h =
      (record { inside = h.0.inside; no_bitmap = h.0.no_bitmap }, outside c bs h.1)

  itrunc-parts :
      (ip ip1 ip2 : Inode) (m m1 m2 : Machine)
      → free_roots fs ip m ≡ some (ip1, m1)
      → ip2 ≡ record ip1 { size = 0 }
      → iupdate fs ip2 m1 ≡ some (tt, m2)
      → itrunc fs ip m ≡ some (ip2, m2)
  unfolding itrunc
  itrunc-parts ip ip1 ip2 m m1 m2 e same u =
      >>=-some (free_roots fs ip) _ m m1 ip1 e
      ∙ ap (λ (z : Inode). (iupdate fs z >> pure z) m1) (sym same)
      ∙ >>=-some (iupdate fs ip2) _ m1 m2 tt u

  -- Let the file's blocks be in use, no two the same and none of them in the bitmap, the bitmap blocks
  -- hold bytes, the inode's number be below sb.ninodes, no block hold both inodes and bits of the
  -- bitmap, and the log have room for the bitmap blocks, `own`, and for `k + 1` more. `itrunc` succeeds:
  -- the inode has no blocks and size 0, on disk too, exactly the blocks of the file have become free,
  -- and the other inodes on disk are as before.
  pub itrunc_lem :
      (ip : Inode) (own : List ℕ) (k : ℕ) (m : Machine)
      → All (Plain fs m.cache) (file_blocks m.cache ip)
      → Distinct (file_blocks m.cache ip)
      → Ready fs own k m
      → IsStored ip
      → ip.inum < fs.ninodes
      → Layout
      → (addrs : ℕ → ℕ) × (m' : Machine) × (itrunc fs ip m
          ≡ some (record ip { addrs = addrs; size = 0 }, m'))
        × Emptied ip (record ip { addrs = addrs; size = 0 }) (file_blocks m.cache ip) m m'
        × Room fs k m'
  itrunc_lem ip own k m plain distinct ready v low layout =
      let bs = file_blocks m.cache ip in
      let (ip1, cleared, run) = free_roots-Clears fs m.cache ip in
      let (m1, e1, freed) = free_all_lem fs bs own k m plain distinct ready in
      let e : free_roots fs ip m ≡ some (ip1, m1) =
        run (outside m.cache bs plain) m (λ x f. refl) ∙ >>=-some (free_all fs bs) _ m m1 tt e1 in
      let v' = empty-IsStored ip ip1.addrs v (λ j h. cleared.zeros j (omega arith) h) in
      let (m2, e2, c2, room2) =
        iupdate-Room k (record ip { addrs = ip1.addrs; size = 0 }) m1
          (Reserve-Room fs own (suc k) m1 freed.ready.room) in
      (
        ip1.addrs,
        m2,
        itrunc-parts ip ip1 (record ip { addrs = ip1.addrs; size = 0 }) m m1 m2 e
            (ap (λ (z : Inode). record z { size = 0 }) (sym cleared.rest)) e2,
        written ip ip1.addrs bs own k m m1 m2 v' (λ j h. cleared.zeros j (omega arith) h) freed low
            layout c2,
        room2,
      )
    where
      empty-IsStored :
          (ip : Inode) (addrs : ℕ → ℕ)
          → IsStored ip
          → ((j : ℕ) → j < naddrs → addrs j ≡ 0)
          → IsStored (record ip { addrs = addrs; size = 0 })
      empty-IsStored ip addrs v z = record {
        type = v.type;
        major = v.major;
        minor = v.minor;
        nlink = v.nlink;
        size = omega arith;
        addrs = λ j h. let e = z j h in omega arith;
      }

      written :
          (ip : Inode) (addrs : ℕ → ℕ) (bs own : List ℕ) (k : ℕ) (m m1 m2 : Machine)
          → IsStored (record ip { addrs = addrs; size = 0 })
          → ((j : ℕ) → j < naddrs → addrs j ≡ 0)
          → Freed fs bs own k m m1
          → ip.inum < fs.ninodes
          → Layout
          → m2.cache
            ≡ update m1.cache (iblock fs ip.inum) (
                encode_dinode
                  (ip.inum % ipb)
                  (record ip { addrs = addrs; size = 0 })
                  (m1.cache (iblock fs ip.inum)))
          → Emptied ip (record ip { addrs = addrs; size = 0 }) bs m m2
      written ip addrs bs own k m m1 m2 v z freed low layout c2 =
          let new = record ip { addrs = addrs; size = 0 } in
          record {
            addrs = z;
            size = refl;
            bits = λ x h. rw c2 (
                rw
                  (update_ne m1.cache (iblock fs ip.inum) (bblock fs x) _
                    (λ e. layout ip.inum x low h (sym e)))
                  (freed.bits x h));
            stored = rw c2 ((on_disk-update fs m1 new ip.inum ip v).0 refl);
            others = λ inum h ne.
                let same : m1.cache (iblock fs inum) ≡ m.cache (iblock fs inum) =
                  freed.apart (iblock fs inum) (λ b l. layout inum b h l) in
                subst
                  (λ (q : Block).
                    SameFields (on_disk fs m2.cache inum ip) (decode_dinode (inum % ipb) q ip))
                  same (rw c2 ((on_disk-update fs m1 new inum ip v).1 ne));
          }

-- ===== src/Fs/Truncate/Put.antt =====
-- What `iput` does to a file.
use hyu_2020_operating_syste.Base.{
  ℕ, suc, ◌+◌, ◌-◌, ◌%◌, ◌^◌, ◌<◌, ◌≡◌, ◌≢◌, ◌∙◌, ◌⊎◌, sym, ap, refl, List, ◌==◌, arith, All,
  Distinct, some, eq→==, ne→==, update, update_ne, false, not, ◌&&◌,
}
use hyu_2020_operating_syste.Log.{Machine}
use hyu_2020_operating_syste.Fs.{Mount, ◌>>=◌}
use hyu_2020_operating_syste.Fs.Room.{Room}
use hyu_2020_operating_syste.Fs.Bitmap.{bblock}
use hyu_2020_operating_syste.Fs.Bmap.{Inode}
use hyu_2020_operating_syste.Fs.Bmap.Walk.{Plain}
use hyu_2020_operating_syste.Fs.Dinode.{ipb, naddrs, iblock, iupdate, encode_dinode}
use hyu_2020_operating_syste.Fs.Dinode.Coding.{SameFields, IsStored}
use hyu_2020_operating_syste.Fs.Dinode.Update.{on_disk-update}
use hyu_2020_operating_syste.Fs.Truncate.{itrunc, iput}
use hyu_2020_operating_syste.Fs.Truncate.Blocks.{file_blocks}
use hyu_2020_operating_syste.Fs.Truncate.FreeAll.{Ready}
use hyu_2020_operating_syste.Fs.Truncate.Calls.{Layout, Emptied, iupdate-Room, itrunc_lem}

module _ (fs : Mount) where
  -- Another `iupdate` of the inode.
  rewritten :
      (ip ip1 ip2 : Inode) (bs : List ℕ) (m m1 m2 : Machine)
      → Emptied fs ip ip1 bs m m1
      → IsStored ip2
      → ip2.inum ≡ ip.inum
      → ip2.size ≡ 0
      → ((k : ℕ) → k < naddrs → ip2.addrs k ≡ 0)
      → ip.inum < fs.ninodes
      → Layout fs
      → m2.cache
        ≡ update m1.cache
            (iblock fs ip2.inum)
            (encode_dinode (ip2.inum % ipb) ip2 (m1.cache (iblock fs ip2.inum)))
      → Emptied fs ip ip2 bs m m2
  rewritten ip ip1 ip2 bs m m1 m2 was v num size zeros low layout c2 = record {
    addrs = zeros;
    size = size;
    bits = λ x h. rw c2 (
        rw
          (update_ne m1.cache (iblock fs ip2.inum) (bblock fs x) _
            (λ e. layout ip.inum x low h (sym (e ∙ ap (iblock fs) num))))
          (was.bits x h));
    stored = rw c2 ((on_disk-update fs m1 ip2 ip.inum ip v).0 (sym num));
    others = λ inum h ne.
        chain (rw c2 ((on_disk-update fs m1 ip2 inum ip v).1 (λ e. ne (e ∙ num))))
          (was.others inum h ne);
  }
    where
      chain : {p q r : Inode} → SameFields p q → SameFields q r → SameFields p r
      chain a b = record {
        type = a.type ∙ b.type;
        major = a.major ∙ b.major;
        minor = a.minor ∙ b.minor;
        nlink = a.nlink ∙ b.nlink;
        size = a.size ∙ b.size;
        addrs = λ k h. a.addrs k h ∙ b.addrs k h;
      }

  released :
      (ip ip1 : Inode) (m m1 : Machine) {bs : List ℕ} (ref : ℕ)
      → Emptied fs ip ip1 bs m m1
      → Emptied fs ip (record ip1 { valid = 0; ref = ref }) bs m m1
  released ip ip1 m m1 ref e = record {
    addrs = e.addrs;
    size = e.size;
    bits = e.bits;
    stored = record {
      type = e.stored.type;
      major = e.stored.major;
      minor = e.stored.minor;
      nlink = e.stored.nlink;
      size = e.stored.size;
      addrs = e.stored.addrs;
    };
    others = e.others;
  }

  iput-last :
      (ip : Inode) (addrs : ℕ → ℕ) (m m1 m2 : Machine)
      → (ip.valid ≢ 0) × (ip.nlink ≡ 0) × (ip.ref ≡ 1)
      → itrunc fs ip m ≡ some (record ip { addrs = addrs; size = 0 }, m1)
      → iupdate fs (record ip { addrs = addrs; size = 0; type = 0 }) m1 ≡ some (tt, m2)
      → iput fs ip m
        ≡ some (
          record ip {
            addrs = addrs;
            size = 0;
            type = 0;
            valid = 0;
            ref = (ip.ref + 2 ^ 32 - 1) % 2 ^ 32;
          },
          m2,
        )
  unfolding iput
  iput-last ip addrs m m1 m2 (valid, nlink, ref) e1 e2 =
      rw (ne→== ip.valid 0 valid, eq→== ip.nlink 0 nlink, eq→== ip.ref 1 ref)
        (rw (e1, ◌>>=◌) (rw (e2, ◌>>=◌)))

  -- With the conditions of `itrunc` and an entry more left in the log: `iput` of an inode that has not
  -- been read, or has links or other references, only takes a reference off. For the last reference
  -- to an inode without links it succeeds, and also marks that inode as free, on disk and in the cache;
  -- exactly the blocks of the file have become free, and the other inodes on disk are as before.
  pub iput_lem :
      (ip : Inode) (own : List ℕ) (k : ℕ) (m : Machine)
      → All (Plain fs m.cache) (file_blocks m.cache ip)
      → Distinct (file_blocks m.cache ip)
      → Ready fs own (suc k) m
      → IsStored ip
      → ip.inum < fs.ninodes
      → Layout fs
      → (((ip.valid ≡ 0) ⊎ ((ip.nlink ≢ 0) ⊎ (ip.ref ≢ 1)))
          → iput fs ip m ≡ some (record ip { ref = (ip.ref + 2 ^ 32 - 1) % 2 ^ 32 }, m))
        × ((ip.valid ≢ 0) × (ip.nlink ≡ 0) × (ip.ref ≡ 1)
            → (ip' : Inode) × (m' : Machine) × (iput fs ip m ≡ some (ip', m'))
              × ((ip'.type ≡ 0) × (ip'.valid ≡ 0) × (ip'.ref ≡ 0))
              × Emptied fs ip ip' (file_blocks m.cache ip) m m'
              × Room fs k m')
  unfolding iput
  iput_lem ip own k m plain distinct ready v low layout = (
    λ keep. rw (kept ip.valid ip.nlink ip.ref keep) refl,
    λ last.
        let (addrs, m1, e1, empty, room1) =
          itrunc_lem fs ip own (suc k) m plain distinct ready v low layout in
        let free = record ip { addrs = addrs; size = 0; type = 0 } in
        let v' : IsStored free = record {
          type = omega arith;
          major = v.major;
          minor = v.minor;
          nlink = v.nlink;
          size = omega arith;
          addrs = λ j h. let e = empty.addrs j h in omega arith;
        } in
        let (m2, e2, c2, room2) = iupdate-Room fs k free m1 room1 in
        let done =
          rewritten ip _ free (file_blocks m.cache ip) m m1 m2 empty v' refl refl empty.addrs low
            layout c2 in
        (
          record free { valid = 0; ref = (ip.ref + 2 ^ 32 - 1) % 2 ^ 32 },
          m2,
          iput-last ip addrs m m1 m2 last e1 e2,
          (refl, refl, let e = last.2 in omega arith),
          released ip free m m2 _ done,
          room2,
        ),
  )
    where
      kept :
          (valid nlink ref : ℕ)
          → ((valid ≡ 0) ⊎ ((nlink ≢ 0) ⊎ (ref ≢ 1)))
          → (not (valid == 0) && (nlink == 0) && (ref == 1)) ≡ false
      kept valid nlink ref keep = ground arith

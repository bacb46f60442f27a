-- ===== src/Fs/Icache/Tests.antt =====
-- The empty table, and a reference that is taken and shared.
use hyu_2020_operating_syste.Base.{
  ℕ, suc, ◌<◌, ◌≡◌, ◌≢◌, ◌⊎◌, refl, List, [], ◌∷◌, ◌++◌, none, some, arith, All, update,
}
use hyu_2020_operating_syste.Fs.Bmap.{Inode}
use hyu_2020_operating_syste.Fs.Icache.{ninode, find_slot, iget}
use hyu_2020_operating_syste.Fs.Icache.Held.{Handle, Sys, count, Held}
use hyu_2020_operating_syste.Fs.Icache.Reach.{here, next, gets, iget_lem}

abbrev free_inode : Inode
free_inode = record {
  dev = 0;
  inum = 0;
  ref = 0;
  valid = 0;
  type = 0;
  major = 0;
  minor = 0;
  nlink = 0;
  size = 0;
  addrs = λ _. 0;
}

abbrev at_boot : Sys
at_boot = record { table = λ _. free_inode; handles = [] }

boot-Held : Held at_boot
boot-Held = record {
  counts = λ i. refl;
  few = omega arith;
  names = tt;
  low = λ i h. refl;
  unique = λ i j x y d n. absurd (x refl);
}

-- the root directory has been looked up
abbrev root_entry : Inode
root_entry = record free_inode { dev = 1; inum = 1; ref = 1 }

abbrev with_root : Sys
with_root = record {
  table = update (λ _. free_inode) 0 root_entry;
  handles = record { slot = 0; dev = 1; inum = 1 } ∷ [];
}

root_got : iget 1 1 at_boot.table ≡ some (0, with_root.table)
unfolding iget find_slot
root_got = refl

iget_lem_example :
    ((pre : List Handle) (h : Handle) (post : List Handle)
      → with_root.handles ≡ pre ++ (h ∷ post)
      → h.dev ≡ 1
      → h.inum ≡ 1
      → iget 1 1 with_root.table
        ≡ some (
          h.slot,
          update with_root.table h.slot
              (record (with_root.table h.slot) { ref = suc (count h.slot with_root.handles) }),
        ))
    × (All (λ h. ¬ ((h.dev ≡ 1) × (h.inum ≡ 1))) with_root.handles
        → (((j : ℕ) → j < ninode → (with_root.table j).ref ≢ 0) × (iget 1 1 with_root.table ≡ none))
          ⊎ ((k : ℕ) × (k < ninode)
              × (count k with_root.handles ≡ 0)
              × (iget 1 1 with_root.table
                  ≡ some (
                    k,
                    update with_root.table k
                        (record (with_root.table k) { dev = 1; inum = 1; ref = 1; valid = 0 }),
                  ))))
iget_lem_example =
    iget_lem {s = at_boot} {t = with_root} 1 1 boot-Held
      (next here (gets at_boot 1 1 0 with_root.table (omega arith) root_got))

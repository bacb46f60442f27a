-- ===== src/Fs/Dinode/Alloc.antt =====
-- `ialloc`.
use hyu_2020_operating_syste.Base.{
  ℕ, zero, suc, ◌+◌, ◌*◌, ◌/◌, ◌%◌, ◌^◌, ◌<◌, ◌≤◌, ◌≡◌, ◌≢◌, ◌⊎◌, inl, inr, ◌∙◌, sym, ap, refl,
  arith, eq_cases, update, update_self, update_ne, none, some, false, ◌==◌, ltb, Bool-cases, ==→eq,
  ==→ne, ltb→lt,
}
use hyu_2020_operating_syste.Block.{Block}
use hyu_2020_operating_syste.Log.{Machine}
use hyu_2020_operating_syste.Fs.{Mount, ◌>>=◌, >>=-some}
use hyu_2020_operating_syste.Fs.Icache.{Icache, ninode, is_cached, add_ref, iget}
use hyu_2020_operating_syste.Fs.Icache.Kept.{iget-cases}
use hyu_2020_operating_syste.Fs.Room.{Room, write_block-Room}
use hyu_2020_operating_syste.Fs.Dinode.{ipb, iblock, disk_type, zero_dinode, ialloc_from, ialloc}
use hyu_2020_operating_syste.Fs.Dinode.Halves.{
  get_half, set_half, get_half-set_half, get_half-set_half_ne,
}

get_half-zero_dinode_ne :
    (a : Block) (i j : ℕ) → j / 32 ≢ i → get_half (zero_dinode i a) j ≡ get_half a j
unfolding get_half zero_dinode
get_half-zero_dinode_ne a i j h = ground arith

module _ (fs : Mount) (type : ℕ) where
  -- the block of inode `inum` once it is taken
  abbrev taken : Machine → ℕ → Block
  taken m inum =
      set_half (zero_dinode (inum % ipb) (m.cache (iblock fs inum))) (32 * (inum % ipb)) type

  abbrev pub Taken : Machine → ℕ → Machine → Type 0
  Taken m inum m' =
      (disk_type fs m inum ≡ 0)
      × (disk_type fs m' inum ≡ type)
      × ((j : ℕ) → j ≢ inum → disk_type fs m' j ≡ disk_type fs m j)
      × ((b : ℕ) → b ≢ iblock fs inum → m'.cache b ≡ m.cache b)

  take-Taken :
      (m m' : Machine) (inum : ℕ)
      → type < 2 ^ 16
      → disk_type fs m inum ≡ 0
      → m'.cache ≡ update m.cache (iblock fs inum) (taken m inum)
      → Taken m inum m'
  take-Taken m m' inum small free c = (
    free,
    rw (c, update_self m.cache (iblock fs inum) (taken m inum))
        (get_half-set_half (zero_dinode (inum % ipb) (m.cache (iblock fs inum))) (32 * (inum % ipb))
          type small),
    λ j ne. elim (eq_cases (iblock fs j) (iblock fs inum)) [
      | inl same ↦
          rw (c, same, update_self m.cache (iblock fs inum) (taken m inum))
            (get_half-set_half_ne (zero_dinode (inum % ipb) (m.cache (iblock fs inum)))
                (32 * (inum % ipb)) (32 * (j % ipb)) type (omega arith)
              ∙ get_half-zero_dinode_ne (m.cache (iblock fs inum)) (inum % ipb) (32 * (j % ipb))
                  (omega arith))
      | inr other ↦
          rw (c, update_ne m.cache (iblock fs inum) (iblock fs j) (taken m inum) other) refl
    ],
    λ b ne. rw (c, update_ne m.cache (iblock fs inum) b (taken m inum) ne) refl,
  )

  ialloc_from-cases :
      (n inum k : ℕ) (m : Machine)
      → type < 2 ^ 16
      → Room fs (suc k) m
      → fs.ninodes ≤ inum + n
      → (((j : ℕ) → inum ≤ j → j < fs.ninodes → disk_type fs m j ≢ 0)
          × (ialloc_from fs n type inum m ≡ none))
        ⊎ ((j : ℕ) × (m' : Machine) × (ialloc_from fs n type inum m ≡ some (j, m'))
            × (inum ≤ j)
            × (j < fs.ninodes)
            × ((i : ℕ) → inum ≤ i → i < j → disk_type fs m i ≢ 0)
            × Taken m j m')
  unfolding ialloc_from
  ialloc_from-cases zero inum k m small room all = inl ((λ j l h. absurd (omega arith)), refl)
  ialloc_from-cases (suc n) inum k m small room all = elim (Bool-cases (ltb inum fs.ninodes)) [
    | inr over ↦ inl ((λ j l h. absurd (ground arith)), rw over refl)
    | inl low ↦ elim (Bool-cases (disk_type fs m inum == 0)) [
      | inl free ↦
          let (m', e, c, r) = write_block-Room fs k (iblock fs inum) (taken m inum) m room in
          inr (
            inum,
            m',
            rw (low, free, e) refl,
            omega arith,
            ltb→lt _ _ low,
            (λ i l h. absurd (omega arith)),
            take-Taken m m' inum small (==→eq _ _ free) c,
          )
      | inr used ↦ elim (ialloc_from-cases n (inum + 1) k m small room (omega arith)) [
        | inl (full, e) ↦ inl (
          λ j l h. elim (eq_cases j inum) [
            | inl same ↦ λ z. ==→ne _ _ used (ap (disk_type fs m) (sym same) ∙ z)
            | inr other ↦ full j (omega arith) h
          ],
          rw (low, used) e,
        )
        | inr (j, m', e, l, h, before, t) ↦ inr (
          j,
          m',
          rw (low, used) e,
          omega arith,
          h,
          λ i l' h'. elim (eq_cases i inum) [
            | inl same ↦ λ z. ==→ne _ _ used (ap (disk_type fs m) (sym same) ∙ z)
            | inr other ↦ before i (omega arith) h'
          ],
          t,
        )
      ]
    ]
  ]

  -- With an entry left in the log: if every inode from 1 on has a type, `ialloc` panics. If not it takes
  -- the first that has none: that one has the new type on disk, all others have the type that they had,
  -- no other block changes, and the result is what `iget` gives for it. It also panics where `iget`
  -- does: if that inode is not in the table and every entry of it is in use.
  pub ialloc_lem :
      (dev k : ℕ) (ic : Icache) (m : Machine)
      → type < 2 ^ 16
      → Room fs (suc k) m
      → (((j : ℕ) → 1 ≤ j → j < fs.ninodes → disk_type fs m j ≢ 0)
          × (ialloc fs dev type ic m ≡ none))
        ⊎ ((j : ℕ) × (1 ≤ j)
            × (j < fs.ninodes)
            × (disk_type fs m j ≡ 0)
            × ((i : ℕ) → 1 ≤ i → i < j → disk_type fs m i ≢ 0)
            × ((((i : ℕ) → i < ninode → (is_cached dev j (ic i) ≡ false) × ((ic i).ref ≢ 0))
                  × (ialloc fs dev type ic m ≡ none))
                ⊎ ((i : ℕ) × (ic' : Icache) × (m' : Machine) × (iget dev j ic ≡ some (i, ic'))
                    × (ialloc fs dev type ic m ≡ some ((i, ic'), m'))
                    × Taken m j m')))
  unfolding ialloc
  ialloc_lem dev k ic m small room =
      elim (ialloc_from-cases fs.ninodes 1 k m small room (omega arith)) [
        | inl (full, e) ↦ inl (full, rw (e, ◌>>=◌) refl)
        | inr (j, m', e, l, h, before, t) ↦ inr (
          j,
          l,
          h,
          t.0,
          before,
          elim (iget-cases dev j ic) [
            | inl (i, c, f) ↦ inr (
              i,
              add_ref i ic,
              m',
              f,
              >>=-some (ialloc_from fs fs.ninodes type 1) _ m m' j e ∙ rw f refl,
              t,
            )
            | inr (out, inl (used, f)) ↦ inl (
              (λ i low. (out i low, used i low)),
              >>=-some (ialloc_from fs fs.ninodes type 1) _ m m' j e ∙ rw f refl,
            )
            | inr (out, inr (i, low, z, f)) ↦
                inr (
                  i,
                  _,
                  m',
                  f,
                  >>=-some (ialloc_from fs fs.ninodes type 1) _ m m' j e ∙ rw f refl,
                  t,
                )
          ],
        )
      ]

-- ===== src/Fs/Bitmap/Free.antt =====
-- When `balloc` and `bfree` succeed, and that `bfree` undoes `balloc`.
use hyu_2020_operating_syste.Base.{
  ℕ, suc, ◌+◌, ◌/◌, ◌%◌, ◌<◌, ◌≡◌, ◌≢◌, ◌⊎◌, inl, inr, ◌∙◌, refl, sym, ap, Bool, true, false, none,
  some, if◌then◌else◌, ◌==◌, arith, eq_cases, update, update_self, update_ne, eq→==, ne→==,
}
use hyu_2020_operating_syste.Block.{Disk, zero_block}
use hyu_2020_operating_syste.Log.{Machine}
use hyu_2020_operating_syste.Fs.{Mount, ◌>>=◌}
use hyu_2020_operating_syste.Fs.Bits.{mark_bit, clear_bit, IsBytes}
use hyu_2020_operating_syste.Fs.Bits.Laws.{bit_used-clear_bit}
use hyu_2020_operating_syste.Fs.Room.{Room, write_block-Room}
use hyu_2020_operating_syste.Fs.Bitmap.{bpb, bblock, block_used, bzero, balloc, bfree}
use hyu_2020_operating_syste.Fs.Bitmap.Search.{First, take_block, balloc_from-Taken}
use hyu_2020_operating_syste.Fs.Bitmap.Alloc.{Sound, balloc_lem}

module _ (fs : Mount) where
  take_block-Room :
      (k r : ℕ) (m : Machine)
      → Room fs (k + 2) m
      → (m' : Machine) × (take_block fs r m ≡ some (r, m')) × Room fs k m'
  unfolding bzero
  take_block-Room k r m room =
      let (m1, e1, c1, room1) =
        write_block-Room fs (suc k) (bblock fs r) (mark_bit (m.cache (bblock fs r)) (r % bpb)) m
          (rw (← two) room) in
      let (m2, e2, c2, room2) = write_block-Room fs k r zero_block m1 room1 in
      (m2, rw (e1, ◌>>=◌) (rw (e2, ◌>>=◌)), room2)
    where
      two : k + 2 ≡ suc (suc k)
      two = omega arith

  -- With two entries left in the log, `balloc` panics exactly when no block below `sb.size` is free,
  -- and otherwise returns the first free one, with two entries fewer left at most.
  pub balloc_total :
      (k : ℕ) (m : Machine)
      → Room fs (k + 2) m
      → (((b : ℕ) → b < fs.size → block_used fs m.cache b ≡ true) × (balloc fs m ≡ none))
        ⊎ ((r : ℕ) × (m' : Machine) × First fs m.cache 0 r
            × (balloc fs m ≡ some (r, m'))
            × Room fs k m')
  unfolding balloc
  balloc_total k m room =
      elim (balloc_from-Taken fs (fs.size / bpb + 1) 0 m (omega arith) (omega arith)) [
        | inl (all, n) ↦ inl (λ b hb. all b (omega arith) hb, n)
        | inr (r, f, t) ↦
            let (m', e, room') = take_block-Room k r m room in inr (r, m', f, t ∙ e, room')
      ]

  -- Let the bitmap block hold bytes. `bfree` panics on a free block. With an entry left in the log it frees a used one: that bit is
  -- cleared, the other bits and all blocks but that bitmap block stay as they were.
  pub bfree_lem :
      (k : ℕ) (m : Machine) (b : ℕ)
      → Room fs (suc k) m
      → IsBytes (m.cache (bblock fs b))
      → ((block_used fs m.cache b ≡ false) → bfree fs b m ≡ none)
        × ((block_used fs m.cache b ≡ true)
            → (m' : Machine) × (bfree fs b m ≡ some (tt, m'))
              × ((x : ℕ)
                  → block_used fs m'.cache x ≡ (if x == b then false else block_used fs m.cache x))
              × ((x : ℕ) → x ≢ bblock fs b → m'.cache x ≡ m.cache x)
              × Room fs k m')
  unfolding bfree
  bfree_lem k m b room bytes = (
    λ f. rw f,
    λ u.
        let (m', e, c, room') =
          write_block-Room fs k (bblock fs b) (clear_bit (m.cache (bblock fs b)) (b % bpb)) m
            room in
        (
          m',
          rw u e,
          λ x. rw c (cleared x),
          λ x n. rw c (update_ne m.cache (bblock fs b) x _ n),
          room',
        ),
  )
    where
      offsets : (b r : ℕ) → bblock fs b ≡ bblock fs r → (b % bpb == r % bpb) ≡ (b == r)
      offsets b r e = ground arith

      cleared :
          (x : ℕ)
          → block_used fs
              (update m.cache (bblock fs b) (clear_bit (m.cache (bblock fs b)) (b % bpb)))
              x
            ≡ (if x == b then false else block_used fs m.cache x)
      cleared x = elim (eq_cases (bblock fs x) (bblock fs b)) [
        | inl same ↦ rw (
          same,
          update_self m.cache (bblock fs b) (clear_bit (m.cache (bblock fs b)) (b % bpb)),
          bit_used-clear_bit (m.cache (bblock fs b)) (b % bpb) (x % bpb) bytes,
          offsets x b same,
        )
        | inr other ↦ rw (
          update_ne m.cache (bblock fs b) (bblock fs x)
              (clear_bit (m.cache (bblock fs b)) (b % bpb)) other,
          ne→== x b (λ e. other (ap (bblock fs) e)),
        )
      ]

  -- On a sound bitmap with a free block, and with three entries left in the log, freeing the block that
  -- `balloc` has just returned succeeds and gives back the bitmap as it was.
  pub bfree-balloc :
      (k : ℕ) (m : Machine)
      → Room fs (k + 3) m
      → Sound fs m.cache
      → (b : ℕ) → b < fs.size
      → block_used fs m.cache b ≡ false
      → (r : ℕ) × (m1 m2 : Machine) × (balloc fs m ≡ some (r, m1))
        × (bfree fs r m1 ≡ some (tt, m2))
        × ((x : ℕ) → x < fs.size → block_used fs m2.cache x ≡ block_used fs m.cache x)
  bfree-balloc k m room s b hb free = elim (balloc_total (k + 1) m (rw (← three) room)) [
    | inl (all, n) ↦ absurd (free_or_used (all b hb) free)
    | inr (r, m1, f, e, room1) ↦
        let (f1, z, bits, others, s1) = balloc_lem fs m s e in
        let (m2, e2, freed, rest, room2) =
          (bfree_lem k m1 r (rw (← one) room1) (s1.bytes r f.inside)).1
            (bits r f.inside ∙ rw (eq→== r r refl)) in
        (r, m1, m2, e, e2, λ x hx. freed x ∙ same m.cache m1.cache x r (bits x hx) f.free)
  ]
    where
      three : k + 3 ≡ (k + 1) + 2
      three = omega arith

      one : k + 1 ≡ suc k
      one = omega arith

      free_or_used : {c : Bool} → c ≡ true → c ≡ false → ⊥
      free_or_used p q = cc

      same :
          (c c1 : Disk) (x r : ℕ)
          → block_used fs c1 x ≡ (if x == r then true else block_used fs c x)
          → block_used fs c r ≡ false
          → (if x == r then false else block_used fs c1 x) ≡ block_used fs c x
      same c c1 x r p q = elim (eq_cases x r) [
        | inl e ↦ rw (e, eq→== r r refl) (sym q)
        | inr ne ↦ rw (ne→== x r ne) (p ∙ rw (ne→== x r ne))
      ]

-- ===== src/Fs/Bitmap/Alloc.antt =====
-- What `balloc` does: the first free block is marked and zeroed, and nothing else changes.
use hyu_2020_operating_syste.Base.{
  ℕ, ◌+◌, ◌/◌, ◌%◌, ◌<◌, ◌≡◌, ◌≢◌, inl, inr, ◌∙◌, refl, sym, ap, Bool, true, false, none, some,
  if◌then◌else◌, ◌==◌, arith, eq_cases, update, update_self, update_ne, subst, ne→==,
}
use hyu_2020_operating_syste.Block.{Disk, zero_block}
use hyu_2020_operating_syste.Log.{Machine}
use hyu_2020_operating_syste.Fs.{Mount, ◌>>◌, pure, >>=-eq-some, write_block}
use hyu_2020_operating_syste.Fs.Bits.{mark_bit, IsBytes}
use hyu_2020_operating_syste.Fs.Bits.Laws.{bit_used-mark_bit, mark_bit-IsBytes}
use hyu_2020_operating_syste.Fs.Room.{write_block-some}
use hyu_2020_operating_syste.Fs.Bitmap.{bpb, bblock, block_used, bzero, balloc}
use hyu_2020_operating_syste.Fs.Bitmap.Search.{First, take_block, balloc_from-Taken}

module _ (fs : Mount) where
  -- The bitmap blocks hold bytes, and mark themselves as used.
  pub record Sound (c : Disk) : Type 0 where
    pub bytes : (b : ℕ) → b < fs.size → IsBytes (c (bblock fs b))
    pub own :
        (b : ℕ) → b < fs.size → (bblock fs b < fs.size) × (block_used fs c (bblock fs b) ≡ true)

  -- the cache after `balloc` has returned `r`
  abbrev pub after_balloc : Disk → ℕ → Disk
  after_balloc c r =
      update (update c (bblock fs r) (mark_bit (c (bblock fs r)) (r % bpb))) r zero_block

  pub take_block-cache :
      (r : ℕ) (m : Machine) {r' : ℕ} {m' : Machine}
      → take_block fs r m ≡ some (r', m')
      → (r' ≡ r) × (m'.cache ≡ after_balloc m.cache r)
  unfolding bzero
  take_block-cache r m e =
      let mark = write_block fs (bblock fs r) (mark_bit (m.cache (bblock fs r)) (r % bpb)) in
      let (u, m1, e1, k1) = >>=-eq-some mark (λ _. bzero fs r >> pure r) m e in
      let (v, m2, e2, k2) = >>=-eq-some (bzero fs r) (λ _. pure r) m1 k1 in
      let c1 =
        write_block-some fs (bblock fs r) (mark_bit (m.cache (bblock fs r)) (r % bpb)) m e1 in
      let c2 = write_block-some fs r zero_block m1 e2 in (ground arith, ground arith)

  -- A block that is free in a sound bitmap is no bitmap block.
  pub free-ne-bblock :
      (c : Disk) (r b : ℕ)
      → Sound c
      → r < fs.size
      → block_used fs c r ≡ false
      → b < fs.size
      → bblock fs b ≢ r
  free-ne-bblock c r b s h f hb e =
      let u = (s.own b hb).1 in
      let u' : block_used fs c r ≡ true = subst (λ x. block_used fs c x ≡ true) e u in cc

  pub after_balloc-used :
      (c : Disk) (r b : ℕ)
      → Sound c
      → r < fs.size
      → block_used fs c r ≡ false
      → b < fs.size
      → block_used fs (after_balloc c r) b ≡ (if b == r then true else block_used fs c b)
  after_balloc-used c r b s h f hb =
      let apart = free-ne-bblock c r b s h f hb in
      rw
        (update_ne (update c (bblock fs r) (mark_bit (c (bblock fs r)) (r % bpb))) r (bblock fs b)
          zero_block apart)
        (elim (eq_cases (bblock fs b) (bblock fs r)) [
          | inl same ↦ rw (
            same,
            update_self c (bblock fs r) (mark_bit (c (bblock fs r)) (r % bpb)),
            bit_used-mark_bit (c (bblock fs r)) (r % bpb) (b % bpb) (s.bytes r h),
            offsets b r same,
          )
          | inr other ↦ rw (
            update_ne c (bblock fs r) (bblock fs b) (mark_bit (c (bblock fs r)) (r % bpb)) other,
            ne→== b r (λ e. other (ap (bblock fs) e)),
          )
        ])
    where
      offsets : (b r : ℕ) → bblock fs b ≡ bblock fs r → (b % bpb == r % bpb) ≡ (b == r)
      offsets b r e = ground arith

  after_balloc-Sound :
      (c : Disk) (r : ℕ)
      → Sound c
      → r < fs.size
      → block_used fs c r ≡ false
      → Sound (after_balloc c r)
  after_balloc-Sound c r s h f = record {
    bytes = λ b hb.
        rw
          (update_ne (update c (bblock fs r) (mark_bit (c (bblock fs r)) (r % bpb))) r (bblock fs b)
            zero_block (free-ne-bblock c r b s h f hb))
          (marked b hb);
    own = λ b hb.
        let (l, u) = s.own b hb in
        (l, rw (after_balloc-used c r (bblock fs b) s h f l, u) (either (bblock fs b == r)));
  }
    where
      marked :
          (b : ℕ)
          → b < fs.size
          → IsBytes (update c (bblock fs r) (mark_bit (c (bblock fs r)) (r % bpb)) (bblock fs b))
      marked b hb = elim (eq_cases (bblock fs b) (bblock fs r)) [
        | inl e ↦
            rw (e, update_self c (bblock fs r) (mark_bit (c (bblock fs r)) (r % bpb)))
              (mark_bit-IsBytes (c (bblock fs r)) (r % bpb) (s.bytes r h))
        | inr ne ↦
            rw (update_ne c (bblock fs r) (bblock fs b) (mark_bit (c (bblock fs r)) (r % bpb)) ne)
              (s.bytes b hb)
      ]

      either : (b : Bool) → (if b then true else true) ≡ true
      either true = refl
      either false = refl

  -- On a sound bitmap, what `balloc` returns is the first free block below `sb.size`, marked used and zeroed, with all other
  -- bits of the bitmap as they were and no other block outside the bitmap changed, and the bitmap
  -- stays sound.
  pub balloc_lem :
      (m : Machine) {r : ℕ} {m' : Machine}
      → Sound m.cache
      → balloc fs m ≡ some (r, m')
      → First fs m.cache 0 r
        × (m'.cache r ≡ zero_block)
        × ((b : ℕ)
            → b < fs.size
            → block_used fs m'.cache b ≡ (if b == r then true else block_used fs m.cache b))
        × ((x : ℕ) → x ≢ r → x ≢ bblock fs r → m'.cache x ≡ m.cache x)
        × Sound m'.cache
  unfolding balloc
  balloc_lem m {r} {m'} s e =
      elim (balloc_from-Taken fs (fs.size / bpb + 1) 0 m (omega arith) (omega arith)) [
        | inl (all, n) ↦ absurd (none_or_some (sym n ∙ e))
        | inr (r0, f, t) ↦ done r0 f (take_block-cache r0 m (sym t ∙ e))
      ]
    where
      marked : ℕ → Disk
      marked r0 = update m.cache (bblock fs r0) (mark_bit (m.cache (bblock fs r0)) (r0 % bpb))

      none_or_some : {A : Type 0} {a : A} → none ≡ some a → ⊥
      none_or_some h = cc

      done :
          (r0 : ℕ)
          → First fs m.cache 0 r0
          → (r ≡ r0) × (m'.cache ≡ after_balloc m.cache r0)
          → First fs m.cache 0 r
            × (m'.cache r ≡ zero_block)
            × ((b : ℕ)
                → b < fs.size
                → block_used fs m'.cache b ≡ (if b == r then true else block_used fs m.cache b))
            × ((x : ℕ) → x ≢ r → x ≢ bblock fs r → m'.cache x ≡ m.cache x)
            × Sound m'.cache
      done r0 f (er, ec) =
          rw (er, ec)
            (
              f,
              update_self (marked r0) r0 zero_block,
              λ b hb. after_balloc-used m.cache r0 b s f.inside f.free hb,
              λ x n k.
                  update_ne (marked r0) r0 x zero_block n
                  ∙ update_ne m.cache (bblock fs r0) x
                      (mark_bit (m.cache (bblock fs r0)) (r0 % bpb)) k,
              after_balloc-Sound m.cache r0 s f.inside f.free,
            )

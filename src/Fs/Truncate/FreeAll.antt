-- ===== src/Fs/Truncate/FreeAll.antt =====
-- Freeing a list of blocks.
use hyu_2020_operating_syste.Base.{
  ℕ, suc, ◌%◌, ◌<◌, ◌≡◌, ◌≢◌, inl, inr, ◌∙◌, refl, sym, ap, Bool, true, false, ◌||◌, some,
  if◌then◌else◌, ◌==◌, arith, eq_cases, update_self, update_ne, ne→==, List, [], ◌∷◌, ◌++◌, All,
  Absent, Distinct, mem, Bool-cases, subst,
}
use hyu_2020_operating_syste.Block.{Disk}
use hyu_2020_operating_syste.Log.{Machine}
use hyu_2020_operating_syste.Fs.{
  Mount, M, ◌>>◌, pure, >>=-some, >>=-eq-some, >>=-cong, >>=-assoc, write_block,
}
use hyu_2020_operating_syste.Fs.Bits.{clear_bit, IsBytes}
use hyu_2020_operating_syste.Fs.Bits.Laws.{clear_bit-IsBytes}
use hyu_2020_operating_syste.Fs.Room.{Reserve, Reserve-Room, write_block-Reserve, write_block-some}
use hyu_2020_operating_syste.Fs.Bitmap.{bpb, bblock, block_used, bfree}
use hyu_2020_operating_syste.Fs.Bitmap.Free.{bfree_lem}
use hyu_2020_operating_syste.Fs.Bmap.Walk.{Plain}

module _ (fs : Mount) where
  abbrev pub free_all : List ℕ → M (Unit {0})
  free_all [] = pure tt
  free_all (b ∷ bs) = bfree fs b >> free_all bs

  pub free_all-append :
      (xs ys : List ℕ) (m : Machine) → free_all (xs ++ ys) m ≡ (free_all xs >> free_all ys) m
  free_all-append [] ys m = refl
  free_all-append (x ∷ xs) ys m =
      >>=-cong (bfree fs x) (bfree fs x) _ _ m refl (λ u m1 e. free_all-append xs ys m1)
      ∙ sym (>>=-assoc (bfree fs x) (λ _. free_all xs) (λ _. free_all ys) m)

  -- The blocks that are no bitmap blocks are as in `c`.
  abbrev pub Apart : Disk → Machine → Type 0
  Apart c m = (x : ℕ) → ((b : ℕ) → b < fs.size → x ≢ bblock fs b) → m.cache x ≡ c x

  bfree-write :
      (b : ℕ) (m : Machine) {u : Unit {0}} {m' : Machine}
      → bfree fs b m ≡ some (u, m')
      → write_block fs (bblock fs b) (clear_bit (m.cache (bblock fs b)) (b % bpb)) m ≡ some (u, m')
  unfolding bfree
  bfree-write b m e = ground arith

  -- What freeing needs: bitmap blocks of bytes, which are all among `own`, and room in the log for them.
  pub record Ready (own : List ℕ) (k : ℕ) (m : Machine) : Type 0 where
    pub bytes : (b : ℕ) → b < fs.size → IsBytes (m.cache (bblock fs b))
    pub owned : (b : ℕ) → b < fs.size → mem (bblock fs b) own ≡ true
    pub room : Reserve fs own (suc k) m

  bfree-Ready :
      (own : List ℕ) (k b : ℕ) (m : Machine) {u : Unit {0}} {m' : Machine}
      → bfree fs b m ≡ some (u, m')
      → b < fs.size
      → Ready own k m
      → Ready own k m'
  bfree-Ready own k b m {m' = m'} e h r =
      let w = bfree-write b m e in
      let c = write_block-some fs (bblock fs b) (clear_bit (m.cache (bblock fs b)) (b % bpb)) m w in
      record {
        bytes = λ x l.
            subst (λ (q : Disk). IsBytes (q (bblock fs x))) (sym c)
              (elim (eq_cases (bblock fs x) (bblock fs b)) [
                | inl same ↦
                    rw
                      (
                        same,
                        update_self m.cache (bblock fs b)
                            (clear_bit (m.cache (bblock fs b)) (b % bpb)),
                      )
                      (clear_bit-IsBytes (m.cache (bblock fs b)) (b % bpb) (r.bytes b h))
                | inr other ↦
                    rw
                      (update_ne m.cache (bblock fs b) (bblock fs x)
                        (clear_bit (m.cache (bblock fs b)) (b % bpb)) other)
                      (r.bytes x l)
              ]);
        owned = r.owned;
        room = write_block-Reserve fs own (suc k) (bblock fs b) _ m (r.owned b h) w r.room;
      }

  -- What freeing the blocks `bs` does.
  pub record Freed (bs own : List ℕ) (k : ℕ) (m m' : Machine) : Type 0 where
    pub bits :
        (x : ℕ)
        → x < fs.size
        → block_used fs m'.cache x ≡ (if mem x bs then false else block_used fs m.cache x)
    pub apart : Apart m.cache m'
    pub ready : Ready own k m'

  free_step :
      (b k : ℕ) (bs own : List ℕ) (m m1 m' : Machine)
      → ((x : ℕ) → block_used fs m1.cache x ≡ (if x == b then false else block_used fs m.cache x))
      → Apart m.cache m1
      → Freed bs own k m1 m'
      → Freed (b ∷ bs) own k m m'
  free_step b k bs own m m1 m' bits apart f = record {
    bits = λ x h. elim (Bool-cases (mem x bs)) [
      | inl i ↦ f.bits x h ∙ rw i (either (x == b) (block_used fs m.cache x))
      | inr i ↦ f.bits x h ∙ rw (i, bits x) (neither (x == b) (block_used fs m.cache x))
    ];
    apart = λ x n. f.apart x n ∙ apart x n;
    ready = f.ready;
  }
    where
      either : (p q : Bool) → false ≡ (if p || true then false else q)
      either true q = refl
      either false q = refl

      neither : (p q : Bool) → (if p then false else q) ≡ (if p || false then false else q)
      neither true q = refl
      neither false q = refl

  -- Blocks in use, no two the same, can all be freed.
  pub free_all_lem :
      (bs own : List ℕ) (k : ℕ) (m : Machine)
      → All (Plain fs m.cache) bs
      → Distinct bs
      → Ready own k m
      → (m' : Machine) × (free_all bs m ≡ some (tt, m')) × Freed bs own k m m'
  free_all_lem [] own k m p d r =
      (m, refl, record { bits = λ x h. refl; apart = λ x n. refl; ready = r })
  free_all_lem (b ∷ bs) own k m p d r =
      let (m1, e1, bits, same, _) =
        (bfree_lem fs k m b (Reserve-Room fs own (suc k) m r.room) (r.bytes b p.0.inside)).1
          p.0.used in
      let apart : Apart m.cache m1 = λ x n. same x (n b p.0.inside) in
      let (m', e2, f) =
        free_all_lem bs own k m1 (still bs m1 bits d.0 p.1) d.1
          (bfree-Ready own k b m e1 p.0.inside r) in
      (m', >>=-some (bfree fs b) _ m m1 tt e1 ∙ e2, free_step b k bs own m m1 m' bits apart f)
    where
      still :
          (xs : List ℕ) (m1 : Machine)
          → ((x : ℕ)
              → block_used fs m1.cache x ≡ (if x == b then false else block_used fs m.cache x))
          → Absent b xs
          → All (Plain fs m.cache) xs
          → All (Plain fs m1.cache) xs
      still [] m1 bits a p = tt
      still (x ∷ xs) m1 bits a p = (
        record {
          inside = p.0.inside;
          used = bits x ∙ rw (ne→== x b (λ e. a.0 (sym e))) (p.0.used);
          no_bitmap = p.0.no_bitmap;
        },
        still xs m1 bits a.1 p.1,
      )

  same : (m m' : Machine) → free_all [] m ≡ some (tt, m') → m' ≡ m
  same m m' e = cc

  -- Freeing leaves all but the bitmap as it was.
  pub free_all-Apart :
      (bs : List ℕ) (m m' : Machine)
      → All (λ b. b < fs.size) bs
      → free_all bs m ≡ some (tt, m')
      → Apart m.cache m'
  free_all-Apart [] m m' h e x n = ap (λ (q : Machine). q.cache x) (same m m' e)
  free_all-Apart (b ∷ bs) m m' h e x n =
      let (u, m1, e1, e2) = >>=-eq-some (bfree fs b) (λ _. free_all bs) m e in
      let c = write_block-some fs (bblock fs b) _ m (bfree-write b m e1) in
      free_all-Apart bs m1 m' h.1 e2 x n
      ∙ ap (λ (q : Disk). q x) c
      ∙ update_ne m.cache (bblock fs b) x _ (n b h.0)

-- ===== src/Fs/Bmap/Fresh.antt =====
-- A table entry that has just been allocated.
use hyu_2020_operating_syste.Base.{
  ℕ, ◌^◌, ◌≤◌, ◌<◌, ◌≡◌, ◌≢◌, inl, ◌∙◌, refl, sym, subst, Bool, true, false, some, List, [], ◌∷◌,
  ◌==◌, if◌then◌else◌, arith, Absent, eq→==, update_self, update_ne,
}
use hyu_2020_operating_syste.Block.{Block, Disk, zero_block, get_word, set_word, get_word-set_word}
use hyu_2020_operating_syste.Log.{Machine}
use hyu_2020_operating_syste.Fs.{Mount}
use hyu_2020_operating_syste.Fs.Bitmap.{block_used}
use hyu_2020_operating_syste.Fs.Bitmap.Alloc.{Sound, balloc_lem, free-ne-bblock}
use hyu_2020_operating_syste.Fs.Bmap.{slot}
use hyu_2020_operating_syste.Fs.Bmap.Walk.{tables, Plain, Chain, Sound-update, slot-missing}

module _ (fs : Mount) where
  -- What holds after `slot` has filled entry `i` of the table `a` with the new block `r`.
  pub record Filled (m : Machine) (a i r : ℕ) (m2 : Machine) : Type 0 where
    pub sound : Sound fs m2.cache
    pub nonzero : r ≢ 0
    pub entry : get_word (m2.cache a) i ≡ r
    pub chain : (is : List ℕ) → Chain fs m2.cache r is
    pub apart : (x : ℕ) (is : List ℕ) → Plain fs m.cache x → Absent x (tables m2.cache r is)
    pub same : (x : ℕ) → Plain fs m.cache x → x ≢ a → m2.cache x ≡ m.cache x
    pub kept :
        (x : ℕ) → x < fs.size → block_used fs m.cache x ≡ true → block_used fs m2.cache x ≡ true

  pub used_or_free :
      (c : Disk) (x r : ℕ) → block_used fs c x ≡ true → block_used fs c r ≡ false → x ≢ r
  used_or_free c x r u f e =
      let u' : block_used fs c r ≡ true = subst (λ y. block_used fs c y ≡ true) e u in cc

  empty_table : (c : Disk) (r j : ℕ) → c r ≡ zero_block → get_word (c r) j ≡ 0
  unfolding get_word
  empty_table c r j e = rw e

  -- Nothing hangs below a block that has just been zeroed.
  pub fresh-Chain :
      (c : Disk) (r : ℕ) → Plain fs c r → c r ≡ zero_block → (is : List ℕ) → Chain fs c r is
  fresh-Chain c r p b [] = tt
  fresh-Chain c r p b (j ∷ is) = (p, inl (empty_table c r j b))

  pub slot-Filled :
      (m : Machine) (a i : ℕ) {r : ℕ} {m2 : Machine}
      → fs.size ≤ 2 ^ 32
      → 0 < fs.size
      → Sound fs m.cache
      → block_used fs m.cache 0 ≡ true
      → Plain fs m.cache a
      → get_word (m.cache a) i ≡ 0
      → slot fs a i m ≡ some (r, m2)
      → Filled m a i r m2
  unfolding tables
  slot-Filled m a i {r} {m2} words pos s boot p z e =
      let (m1, eb, c2) = slot-missing fs a i m z e in
      let (f, zero, bits, others, s1) = balloc_lem fs m s eb in
      let v : Block = set_word (m1.cache a) i r in
      let (s2, bits2) = Sound-update fs m1.cache a v p.no_bitmap s1 in
      let ar : a ≢ r = used_or_free m.cache a r p.used f.free in
      let used : (x : ℕ)
          → x < fs.size
          → block_used fs m.cache x ≡ true
          → block_used fs m2.cache x ≡ true =
        (λ x hx u. rw c2 (bits2 x hx ∙ bits x hx ∙ stays (x == r) u)) in
      let new : block_used fs m2.cache r ≡ true =
        (rw c2 (bits2 r f.inside ∙ bits r f.inside ∙ rw (eq→== r r refl))) in
      let blank : m2.cache r ≡ zero_block =
        (rw c2 (update_ne m1.cache a r v (λ e. ar (sym e)) ∙ zero)) in
      let plain : Plain fs m2.cache r = record {
        inside = f.inside;
        used = new;
        no_bitmap = λ b hb e. free-ne-bblock fs m.cache r b s f.inside f.free hb (sym e);
      } in
      record {
        sound = rw c2 s2;
        nonzero = λ e. used_or_free m.cache 0 r boot f.free (sym e);
        entry =
            rw (c2, update_self m1.cache a v)
              (get_word-set_word (m1.cache a) i r (let h = f.inside in omega arith));
        chain = fresh-Chain m2.cache r plain blank;
        apart = λ x is px. apart_of x is blank (used_or_free m.cache x r px.used f.free);
        same = λ x px xa. rw c2 (
            update_ne m1.cache a x v xa
            ∙ others x (used_or_free m.cache x r px.used f.free) (px.no_bitmap r f.inside));
        kept = used;
      }
    where
      stays : (b : Bool) {u : Bool} → u ≡ true → (if b then true else u) ≡ true
      stays true h = refl
      stays false h = h

      apart_of :
          (x : ℕ) (is : List ℕ) → m2.cache r ≡ zero_block → x ≢ r → Absent x (tables m2.cache r is)
      apart_of x [] b n = tt
      apart_of x (j ∷ is) b n = rw (empty_table m2.cache r j b) (n, tt)

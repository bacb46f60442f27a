-- ===== src/Fs/Truncate/Walk.antt =====
-- The loops of `itrunc` free the blocks that are read off the tables.
use hyu_2020_operating_syste.Base.{
  ℕ, zero, suc, ◌+◌, ◌^◌, ◌<◌, ◌≡◌, ◌≢◌, ◌∙◌, inl, inr, sym, ap, refl, List, [], ◌∷◌, ◌++◌, All,
  All-parts, Option, none, some, eq_cases, eq→==, ne→==,
}
use hyu_2020_operating_syste.Block.{Block, Disk, get_word}
use hyu_2020_operating_syste.Log.{Machine}
use hyu_2020_operating_syste.Fs.{Mount, M, ◌>>◌, pure, >>=-cong}
use hyu_2020_operating_syste.Fs.Bitmap.{bblock, bfree}
use hyu_2020_operating_syste.Fs.Truncate.{free_words, free_tree}
use hyu_2020_operating_syste.Fs.Truncate.Blocks.{entries, tree_blocks}
use hyu_2020_operating_syste.Fs.Truncate.FreeAll.{free_all, free_all-append, free_all-Apart, Apart}

module _ (fs : Mount) (c : Disk) where
  -- A block inside the disk, and no bitmap block.
  pub record Outside (x : ℕ) : Type 0 where
    pub inside : x < fs.size
    pub no_bitmap : (b : ℕ) → b < fs.size → x ≢ bblock fs b

  -- While only the bitmap changes, `f` frees the blocks `bs`.
  abbrev pub Frees : M (Unit {0}) → List ℕ → Type 0
  Frees f bs = All Outside bs → (m : Machine) → Apart fs c m → f m ≡ free_all fs bs m

  pub insides : (bs : List ℕ) → All Outside bs → All (λ b. b < fs.size) bs
  insides [] h = tt
  insides (b ∷ bs) h = (h.0.inside, insides bs h.1)

  -- One after the other.
  pub Frees-append :
      (f g : M (Unit {0})) (xs ys : List ℕ) → Frees f xs → Frees g ys → Frees (f >> g) (xs ++ ys)
  Frees-append f g xs ys p q h m apart =
      let (hx, hy) = All-parts Outside xs ys h in
      >>=-cong f (free_all fs xs) (λ _. g) (λ _. free_all fs ys) m (p hx m apart)
        (λ u m1 e. q hy m1 (λ x n. free_all-Apart fs xs m m1 (insides xs hx) e x n ∙ apart x n))
      ∙ sym (free_all-append fs xs ys m)

  free_one-Frees : (b : ℕ) → Frees (bfree fs b) (b ∷ [])
  free_one-Frees b h m apart = go (bfree fs b m)
    where
      go : (o : Option (Unit {0} × Machine)) → o ≡ ((λ (_ : Machine). o) >> pure tt) m
      go none = refl
      go (some (tt, m')) = refl

  free_words-Frees :
      (free : ℕ → M (Unit {0})) (under : ℕ → List ℕ) (n b i : ℕ)
      → ((x : ℕ) → Frees (free x) (under x))
      → Outside b
      → Frees (free_words free n b i) (entries under (c b) n i)
  unfolding free_words entries
  free_words-Frees free under zero b i each out h m apart = refl
  free_words-Frees free under (suc n) b i each out h m apart =
      let same = ap (λ (a : Block). get_word a i) (apart b out.no_bitmap) in
      elim (eq_cases (get_word (c b) i) 0) [
        | inl z ↦
            let o = eq→== (get_word (c b) i) 0 z in
            rw (same, o) (free_words-Frees free under n b (i + 1) each out (rw o at h) m apart)
        | inr nz ↦
            let o = ne→== (get_word (c b) i) 0 nz in
            rw (same, o)
              (Frees-append (free (get_word (c b) i)) (free_words free n b (i + 1))
                (under (get_word (c b) i)) (entries under (c b) n (i + 1)) (each (get_word (c b) i))
                (free_words-Frees free under n b (i + 1) each out) (rw o at h) m apart)
      ]

  pub free_tree-Frees : (d b : ℕ) → Frees (free_tree fs d b) (tree_blocks c d b)
  unfolding free_tree tree_blocks
  free_tree-Frees zero b h = free_one-Frees b h
  free_tree-Frees (suc d) b h =
      let (_, here) = All-parts Outside (entries (tree_blocks c d) (c b) (2 ^ 7) 0) (b ∷ []) h in
      Frees-append (free_words (free_tree fs d) (2 ^ 7) b 0) (bfree fs b)
        (entries (tree_blocks c d) (c b) (2 ^ 7) 0) (b ∷ [])
        (free_words-Frees (free_tree fs d) (tree_blocks c d) (2 ^ 7) b 0 (free_tree-Frees d) here.0)
        (free_one-Frees b) h

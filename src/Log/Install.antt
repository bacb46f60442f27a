-- ===== src/Log/Install.antt =====
-- `install_trans`: at every write the platter goes on to stand for the same abstract disk.
use hyu_2020_operating_syste.Base.{
  ℕ, ◌+◌, ◌≤◌, ◌≡◌, inl, inr, ◌∙◌, add-zero, false, List, [], ◌∷◌, arith, length, update,
  update_self, update_ne, eq_cases, All, Absent,
}
use hyu_2020_operating_syste.Block.{Block, Disk}
use hyu_2020_operating_syste.Log.{Machine, fill, install_from}
use hyu_2020_operating_syste.Log.Represents.{Home, Stored, Stored-update, Logged, Logged-update}
use hyu_2020_operating_syste.Log.Loops.{Safe, bwrite-Safe, written}

module _ (start size : ℕ) where
  -- The platter shows `lh` in its header `hdr`, and stands for `v`.
  abbrev pub Installable : List ℕ → Block → Disk → Disk → Type 0
  Installable lh hdr v d = (d start ≡ hdr) × Logged start size lh d v

  -- The state of the loop with the blocks `bs` of `lh` still to install.
  pub record Installing (lh : List ℕ) (hdr : Block) (v : Disk) (tail : ℕ) (bs : List ℕ)
      (m : Machine) : Type 0 where
    pub header : m.disk start ≡ hdr
    pub logged : Logged start size lh m.disk v
    pub source : Stored start size m.cache v tail bs
    pub home :
        (b : ℕ)
        → Home start size b
        → Absent b bs
        → (m.disk b ≡ v b) × (m.cache b ≡ v b) × (m.dirty b ≡ false)
    pub block : m.block ≡ lh

  module _ (lh : List ℕ) (hdr : Block) (v : Disk) where
    Installing-step :
        (tail x : ℕ) (bs : List ℕ) (m : Machine) (k : ℕ)
        → tail + length bs + 2 ≤ size
        → Home start size x
        → Installing lh hdr v tail (x ∷ bs) m
        → Installing lh hdr v (tail + 1) bs (written x (fill x (m.cache (start + tail + 1)) m) k)
    Installing-step tail x bs m k f h i = record {
      header = update_ne m.disk x start c (omega arith) ∙ i.header;
      logged = Logged-update start size lh m.disk v x c h value i.logged;
      source =
          Stored-update start size m.cache v x (m.cache (start + tail + 1)) (tail + 1) bs
            (omega arith) i.source.1;
      home = λ b hb a. elim (eq_cases b x) [
        | inl same ↦ (
          rw same (update_self m.disk x c ∙ value),
          rw same value,
          rw same (update_self m.dirty x false),
        )
        | inr other ↦ (
          update_ne m.disk x b c other ∙ (i.home b hb (other, a)).0,
          update_ne m.cache x b (m.cache (start + tail + 1)) other ∙ (i.home b hb (other, a)).1,
          update_ne m.dirty x b false other ∙ (i.home b hb (other, a)).2,
        )
      ];
      block = i.block;
    }
      where
        c : Block
        c = update m.cache x (m.cache (start + tail + 1)) x

        value : c ≡ v x
        value = update_self m.cache x (m.cache (start + tail + 1)) ∙ i.source.0

    pub install_from-Safe :
        (tail : ℕ) (bs : List ℕ) (m : Machine)
        → tail + length bs + 1 ≤ size
        → All (Home start size) bs
        → Installing lh hdr v tail bs m
        → Safe
            (Installable lh hdr v)
            (Installing lh hdr v (tail + length bs) [])
            (install_from start tail bs m)
    unfolding install_from
    install_from-Safe tail [] m f h i = rw add-zero i
    install_from-Safe tail (x ∷ bs) m f h i =
        bwrite-Safe (Installable lh hdr v) (Installing lh hdr v (tail + length (x ∷ bs)) []) x
          (fill x (m.cache (start + tail + 1)) m) (install_from start (tail + 1) bs)
          (i.header, i.logged)
          (λ k. rw shift (
            install_from-Safe (tail + 1) bs (written x (fill x (m.cache (start + tail + 1)) m) k)
              (omega arith) h.1 (Installing-step tail x bs m k (omega arith) h.0 i)))
      where
        shift : tail + length (x ∷ bs) ≡ tail + 1 + length bs
        shift = omega arith

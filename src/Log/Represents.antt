-- ===== src/Log/Represents.antt =====
-- What the platter stands for while the log is in use: the abstract disk that recovery will produce.
use hyu_2020_operating_syste.Base.{
  ℕ, ◌+◌, ◌≤◌, ◌<◌, ◌≡◌, ◌⊎◌, inl, inr, ◌∙◌, List, [], ◌∷◌, arith, length, update, update_self,
  update_ne, eq_cases, All, Absent,
}
use hyu_2020_operating_syste.Block.{Block, Disk}
use hyu_2020_operating_syste.Log.{decode_head}

-- The log area has `size` blocks from `start` on: the header, then the logged blocks.
module _ (start size : ℕ) where
  abbrev pub Home : ℕ → Type 0
  Home b = (b < start) ⊎ (start + size ≤ b)

  -- The log blocks from `tail` on hold what `v` has at the blocks of the list.
  abbrev pub Stored : Disk → Disk → ℕ → List ℕ → Type 0
  Stored d v tail [] = Unit {0}
  Stored d v tail (b ∷ bs) = (d (start + tail + 1) ≡ v b) × Stored d v (tail + 1) bs

  -- With `lh` in the header, installing the log turns `d` into `v`.
  pub record Logged (lh : List ℕ) (d v : Disk) : Type 0 where
    pub fits : length lh + 1 ≤ size
    pub homes : All Home lh
    pub stored : Stored d v 0 lh
    pub rest : (b : ℕ) → Home b → Absent b lh → d b ≡ v b

  -- What recovery will make of the platter `d`, on the blocks outside the log area.
  abbrev pub Represents : Disk → Disk → Type 0
  Represents d v = (lh : List ℕ) × (decode_head (d start) ≡ lh) × Logged lh d v

  -- The log blocks do not change when a block outside of them does.
  pub Stored-update :
      (d v : Disk) (b : ℕ) (w : Block) (tail : ℕ) (bs : List ℕ)
      → ((b < start + tail + 1) ⊎ (start + tail + length bs < b))
      → Stored d v tail bs
      → Stored (update d b w) v tail bs
  Stored-update d v b w tail [] h s = tt
  Stored-update d v b w tail (x ∷ bs) h s = (
    update_ne d b (start + tail + 1) w (omega arith) ∙ s.0,
    Stored-update d v b w (tail + 1) bs (omega arith) s.1,
  )

  -- Writing a home block with its abstract contents changes nothing that recovery sees.
  pub Logged-update :
      (lh : List ℕ) (d v : Disk) (b : ℕ) (w : Block)
      → Home b
      → w ≡ v b
      → Logged lh d v
      → Logged lh (update d b w) v
  Logged-update lh d v b w h e l = record {
    fits = l.fits;
    homes = l.homes;
    stored = Stored-update d v b w 0 lh (let f = l.fits in omega arith) l.stored;
    rest = λ b' h' a. elim (eq_cases b' b) [
      | inl same ↦ subst' same
      | inr other ↦ update_ne d b b' w other ∙ l.rest b' h' a
    ];
  }
    where
      subst' : {b' : ℕ} → b' ≡ b → update d b w b' ≡ v b'
      subst' same = rw same (update_self d b w ∙ e)

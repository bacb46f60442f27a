-- ===== src/Fs/Icache/Reach.antt =====
-- The references in every sequence of calls.
use hyu_2020_operating_syste.Base.{
  ℕ, suc, ◌+◌, ◌%◌, ◌^◌, ◌<◌, ◌≡◌, ◌≢◌, ◌∙◌, ◌⊎◌, inl, inr, refl, sym, ap, Option, none, some, List,
  [], ◌∷◌, ◌++◌, arith, All, length, count_by_none, update, subst,
}
use hyu_2020_operating_syste.Fs.Bmap.{Inode}
use hyu_2020_operating_syste.Fs.Icache.{Icache, ninode, add_ref, drop_ref, iget, idup}
use hyu_2020_operating_syste.Fs.Icache.Kept.{
  used_cached, cached_used, small, held, named, add_ref-Held, drop_ref-Held, fresh-Held, iget-cases,
}
use hyu_2020_operating_syste.Fs.Icache.Held.{Handle, Sys, count, Names, Held, kept-Held}

-- References come from `iget` and `idup` and go with `iput`. An entry may change in all but its inode
-- and its count. There are never 2 ^ 31 references.
pub data Step : Sys → Sys → Type 0 where
  gets :
      (s : Sys) (dev inum i : ℕ) (t : Icache)
      → length s.handles + 1 < 2 ^ 31
      → iget dev inum s.table ≡ some (i, t)
      → Step s
          (record { table = t; handles = record { slot = i; dev = dev; inum = inum } ∷ s.handles })
  dups :
      (s : Sys) (pre : List Handle) (h : Handle) (post : List Handle)
      → length s.handles + 1 < 2 ^ 31
      → s.handles ≡ pre ++ (h ∷ post)
      → Step s (record { table = idup h.slot s.table; handles = h ∷ s.handles })
  drops :
      (s : Sys) (pre : List Handle) (h : Handle) (post : List Handle)
      → s.handles ≡ pre ++ (h ∷ post)
      → Step s (record { table = drop_ref h.slot s.table; handles = pre ++ post })
  changes :
      (s : Sys) (i : ℕ) (p : Inode)
      → p.dev ≡ (s.table i).dev
      → p.inum ≡ (s.table i).inum
      → p.ref ≡ (s.table i).ref
      → Step s (record s { table = update s.table i p })

pub data Reach (s : Sys) : Sys → Type 0 where
  here : Reach s s
  next : {t u : Sys} → Reach s t → Step t u → Reach s u

iget-Held :
    (s : Sys) (v : Held s) (dev inum i : ℕ) (t : Icache)
    → length s.handles + 1 < 2 ^ 31
    → iget dev inum s.table ≡ some (i, t)
    → Held (record { table = t; handles = record { slot = i; dev = dev; inum = inum } ∷ s.handles })
iget-Held s v dev inum i t few e = elim (iget-cases dev inum s.table) [
  | inl (j, c, f) ↦
      let (used, d, n) = used_cached dev inum (s.table j) c in
      moved j (add_ref j s.table) (sym f ∙ e)
        (add_ref-Held s v (record { slot = j; dev = dev; inum = inum }) used (d, n) few)
  | inr (absent, inl (_, f)) ↦ absurd (let g = sym f ∙ e in cc)
  | inr (absent, inr (k, low, free, f)) ↦
      moved k _ (sym f ∙ e) (fresh-Held s v dev inum k free low absent few)
]
  where
    moved :
        (j : ℕ) (u : Icache)
        → ◌≡◌ {A = Option (ℕ × Icache)} (some (j, u)) (some (i, t))
        → Held (record {
          table = u;
          handles = record { slot = j; dev = dev; inum = inum } ∷ s.handles;
        })
        → Held (record {
          table = t;
          handles = record { slot = i; dev = dev; inum = inum } ∷ s.handles;
        })
    moved j u e h =
        let same : j ≡ i = cc in
        let tables : u ≡ t = cc in
        subst
          (λ (q : ℕ). Held (record {
            table = t;
            handles = record { slot = q; dev = dev; inum = inum } ∷ s.handles;
          }))
          same
          (subst
            (λ (q : Icache). Held (record {
              table = q;
              handles = record { slot = j; dev = dev; inum = inum } ∷ s.handles;
            }))
            tables h)

Step-Held : {s t : Sys} → Step s t → Held s → Held t
unfolding idup
Step-Held (gets s dev inum i t few e) v = iget-Held s v dev inum i t few e
Step-Held (dups s pre h post few e) v =
    let r = held s v pre h post e in
    add_ref-Held s v h (λ z. absurd (omega arith)) (named s v pre h post e).0 few
Step-Held (drops s pre h post e) v = drop_ref-Held s v pre h post e
Step-Held (changes s i p d n r) v =
    kept-Held s v i p d n (λ nz z. nz (r ∙ z)) s.handles (r ∙ v.counts i) (λ j ne. refl) v.few
      v.names

Reach-Held : {s t : Sys} → Held s → Reach s t → Held t
Reach-Held v here = v
Reach-Held v (next r st) = Step-Held st (Reach-Held v r)

module _ (t : Sys) (w : Held t) (dev inum : ℕ) where
  same_slot :
      (pre : List Handle) (h : Handle) (post : List Handle)
      → t.handles ≡ pre ++ (h ∷ post)
      → h.dev ≡ dev
      → h.inum ≡ inum
      → iget dev inum t.table
        ≡ some (
          h.slot,
          update t.table h.slot (record (t.table h.slot) { ref = suc (count h.slot t.handles) }),
        )
  same_slot pre h post e d n =
      let r = held t w pre h post e in
      let (nd, nn) = (named t w pre h post e).0 in
      elim (iget-cases dev inum t.table) [
        | inl (i, c, f) ↦
            let (used, di, ni) = used_cached dev inum (t.table i) c in
            let same : i ≡ h.slot =
              w.unique i h.slot used (λ z. absurd (omega arith)) (di ∙ sym d ∙ sym nd)
                (ni ∙ sym n ∙ sym nn) in
            let b = small t w h.slot in
            let c' = w.counts h.slot in
            let ref : ((t.table h.slot).ref + 1) % 2 ^ 32 ≡ suc (count h.slot t.handles) =
              omega arith in
            f
            ∙ ap (λ q. some (q, add_ref q t.table)) same
            ∙ ap (λ q. some (h.slot, update t.table h.slot (record (t.table h.slot) { ref = q })))
                ref
        | inr (absent, _) ↦
            let c =
              cached_used dev inum (t.table h.slot) (λ z. absurd (omega arith)) (small t w h.slot)
                (nd ∙ d) (nn ∙ n) in
            let inside : h.slot < ninode = ground (arith, w.low h.slot) in
            absurd (let f = absent h.slot inside in cc)
      ]

  other_slots :
      (i : ℕ) (hs : List Handle)
      → (t.table i).dev ≡ dev
      → (t.table i).inum ≡ inum
      → All (λ h. ¬ ((h.dev ≡ dev) × (h.inum ≡ inum))) hs
      → All (Names t.table) hs
      → All (λ h. h.slot ≢ i) hs
  other_slots i [] d n a b = tt
  other_slots i (h ∷ hs) d n a b = (
    (λ e. a.0 (
      sym b.0.0 ∙ ap (λ k. (t.table k).dev) e ∙ d,
      sym b.0.1 ∙ ap (λ k. (t.table k).inum) e ∙ n,
    )),
    other_slots i hs d n a.1 b.1,
  )

-- In every state that iget, idup, iput and changes of held inodes reach from one whose counts are right: `iget` of an inode that
-- someone holds a reference to returns the entry of that reference, so that all references to an inode
-- share one entry, and counts one more. For an inode that no one holds it takes an entry whose count
-- is 0, to be read from disk, and panics if there is none.
pub iget_lem :
    {s t : Sys} (dev inum : ℕ)
    → Held s
    → Reach s t
    → ((pre : List Handle) (h : Handle) (post : List Handle)
        → t.handles ≡ pre ++ (h ∷ post)
        → h.dev ≡ dev
        → h.inum ≡ inum
        → iget dev inum t.table
          ≡ some (
            h.slot,
            update t.table h.slot (record (t.table h.slot) { ref = suc (count h.slot t.handles) }),
          ))
      × (All (λ h. ¬ ((h.dev ≡ dev) × (h.inum ≡ inum))) t.handles
          → (((j : ℕ) → j < ninode → (t.table j).ref ≢ 0) × (iget dev inum t.table ≡ none))
            ⊎ ((k : ℕ) × (k < ninode)
                × (count k t.handles ≡ 0)
                × (iget dev inum t.table
                    ≡ some (
                      k,
                      update t.table k
                          (record (t.table k) { dev = dev; inum = inum; ref = 1; valid = 0 }),
                    ))))
iget_lem {s} {t} dev inum v r =
    let w = Reach-Held v r in
    (
      same_slot t w dev inum,
      λ free. elim (iget-cases dev inum t.table) [
        | inl (i, c, f) ↦
            let (used, d, n) = used_cached dev inum (t.table i) c in
            absurd (
              used (
                w.counts i
                ∙ count_by_none (λ (h : Handle). h.slot) i t.handles
                    (other_slots t w dev inum i t.handles d n free w.names)))
        | inr (absent, inl full) ↦ inl full
        | inr (absent, inr (k, low, z, f)) ↦ inr (k, low, sym (w.counts k) ∙ z, f)
      ],
    )

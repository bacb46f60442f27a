-- ===== src/Fs/Icache/Kept.antt =====
-- Each call keeps what holds of the table and the references.
use hyu_2020_operating_syste.Base.{
  ℕ, suc, ◌+◌, ◌-◌, ◌%◌, ◌^◌, ◌<◌, ◌≡◌, ◌≢◌, ◌∙◌, ◌⊎◌, inl, inr, refl, sym, ap, Bool, true, false,
  ◌&&◌, none, some, List, [], ◌∷◌, ◌++◌, ◌==◌, int_lt, arith, eq_cases, eq→==, ne→==, ==→eq, All,
  All-append, All-parts, length, count_by-middle, count_by_bound, count_by_zero, count-update,
  length-middle, update, update_self, update_ne, update-cases, subst,
}
use hyu_2020_operating_syste.Fs.Bmap.{Inode}
use hyu_2020_operating_syste.Fs.Icache.{
  Icache, ninode, Slot, cached, missing, is_cached, find_slot, add_ref, drop_ref, iget,
}
use hyu_2020_operating_syste.Fs.Icache.Slots.{Scanned, find_slot-Scanned}
use hyu_2020_operating_syste.Fs.Icache.Held.{Handle, Sys, count, Names, Held, kept-Held}

pub cached_used :
    (dev inum : ℕ) (ip : Inode)
    → ip.ref ≢ 0
    → ip.ref < 2 ^ 31
    → ip.dev ≡ dev
    → ip.inum ≡ inum
    → is_cached dev inum ip ≡ true
cached_used dev inum ip nz h d n = rw (eq→== _ _ d, eq→== _ _ n) (ground arith)

pub used_cached :
    (dev inum : ℕ) (ip : Inode)
    → is_cached dev inum ip ≡ true
    → (ip.ref ≢ 0) × (ip.dev ≡ dev) × (ip.inum ≡ inum)
used_cached dev inum ip c =
    let (r, c') = both (int_lt 0 ip.ref) ((ip.dev == dev) && (ip.inum == inum)) c in
    let (d, n) = both (ip.dev == dev) (ip.inum == inum) c' in
    (λ z. let f = (rw z at r) in absurd (cc), ==→eq _ _ d, ==→eq _ _ n)
  where
    both : (p q : Bool) → (p && q) ≡ true → (p ≡ true) × (q ≡ true)
    both true q e = (refl, e)
    both false q e = absurd (cc)

module _ (s : Sys) (v : Held s) where
  pub small : (i : ℕ) → (s.table i).ref < 2 ^ 31
  small i =
      let c = v.counts i in
      let b = count_by_bound (λ (h : Handle). h.slot) i s.handles in let f = v.few in omega arith

  module _ (pre : List Handle) (h : Handle) (post : List Handle)
      (e : s.handles ≡ pre ++ (h ∷ post)) where
    pub held : (s.table h.slot).ref ≡ suc (count h.slot (pre ++ post))
    held =
        v.counts h.slot
        ∙ ap (count h.slot) e
        ∙ count_by-middle (λ (k : Handle). k.slot) h.slot h pre post
        ∙ rw (eq→== h.slot h.slot refl) (omega arith)

    pub named : Names s.table h × All (Names s.table) (pre ++ post)
    named =
        let (a, b) =
          All-parts (Names s.table) pre (h ∷ post) (subst (All (Names s.table)) e v.names) in
        (b.0, All-append (Names s.table) pre post a b.1)

  -- One reference more to an entry that is in use.
  pub add_ref-Held :
      (h : Handle)
      → (s.table h.slot).ref ≢ 0
      → Names s.table h
      → length s.handles + 1 < 2 ^ 31
      → Held (record { table = add_ref h.slot s.table; handles = h ∷ s.handles })
  add_ref-Held h used n few =
      let b = small h.slot in
      let c = v.counts h.slot in
      let o = eq→== h.slot h.slot refl in
      kept-Held s v h.slot (record (s.table h.slot) { ref = ((s.table h.slot).ref + 1) % 2 ^ 32 })
        refl refl (λ _. used) (h ∷ s.handles) (rw o (omega arith))
        (λ j ne. let q = ne→== j h.slot ne in rw q (omega arith)) (omega arith) (n, v.names)

  pub drop_ref-Held :
      (pre : List Handle) (h : Handle) (post : List Handle)
      → s.handles ≡ pre ++ (h ∷ post)
      → Held (record { table = drop_ref h.slot s.table; handles = pre ++ post })
  drop_ref-Held pre h post e =
      let r = held pre h post e in
      let b = small h.slot in
      let l = ap length e ∙ length-middle h pre post in
      let f = v.few in
      kept-Held s v h.slot
        (record (s.table h.slot) { ref = ((s.table h.slot).ref + 2 ^ 32 - 1) % 2 ^ 32 }) refl refl
        (λ _. omega arith) (pre ++ post) (omega arith)
        (λ j ne.
          let q = ne→== j h.slot ne in
          sym (
            ap (count j) e
            ∙ count_by-middle (λ (k : Handle). k.slot) j h pre post
            ∙ rw q (omega arith)))
        (omega arith) (named pre h post e).1

  -- An entry that was free, for an inode that is not in the table.
  pub fresh-Held :
      (dev inum k : ℕ)
      → (s.table k).ref ≡ 0
      → k < ninode
      → ((j : ℕ) → j < ninode → is_cached dev inum (s.table j) ≡ false)
      → length s.handles + 1 < 2 ^ 31
      → Held (record {
        table =
            update s.table k (record (s.table k) { dev = dev; inum = inum; ref = 1; valid = 0 });
        handles = record { slot = k; dev = dev; inum = inum } ∷ s.handles;
      })
  fresh-Held dev inum k free low none_there few = record {
    counts =
        count-update (λ (q : Inode). q.ref) s.table k p (λ j. count j s.handles)
          (λ j. count j (h ∷ s.handles)) v.counts
          (let o = eq→== k k refl in let c = v.counts k in rw o (omega arith))
          (λ j ne. let q = ne→== j k ne in rw q (omega arith));
    few = omega arith;
    names = (
      (
        ap (λ (q : Inode). q.dev) (update_self s.table k p),
        ap (λ (q : Inode). q.inum) (update_self s.table k p),
      ),
      others s.handles
          (count_by_zero (λ (q : Handle). q.slot) k s.handles (sym (v.counts k) ∙ free)) v.names,
    );
    low = λ j l.
        ap (λ (q : Inode). q.ref) (update_ne s.table k j p (λ e. absurd (omega arith))) ∙ v.low j l;
    unique = λ i j x y d n. elim (update-cases s.table k p i) [
      | inl (ei, ui) ↦ elim (update-cases s.table k p j) [
        | inl (ej, uj) ↦ ei ∙ sym ej
        | inr (nj, uj) ↦ absurd (clash j (in_use j uj y) (dev_is i j ui uj d) (inum_is i j ui uj n))
      ]
      | inr (ni, ui) ↦ elim (update-cases s.table k p j) [
        | inl (ej, uj) ↦
            absurd (clash i (in_use i ui x) (dev_is j i uj ui (sym d)) (inum_is j i uj ui (sym n)))
        | inr (nj, uj) ↦
            v.unique i j (in_use i ui x) (in_use j uj y)
              (sym (ap (λ (q : Inode). q.dev) ui) ∙ d ∙ ap (λ (q : Inode). q.dev) uj)
              (sym (ap (λ (q : Inode). q.inum) ui) ∙ n ∙ ap (λ (q : Inode). q.inum) uj)
      ]
    ];
  }
    where
      p : Inode
      p = record (s.table k) { dev = dev; inum = inum; ref = 1; valid = 0 }

      h : Handle
      h = record { slot = k; dev = dev; inum = inum }

      in_use :
          (j : ℕ)
          → update s.table k p j ≡ s.table j
          → (update s.table k p j).ref ≢ 0
          → (s.table j).ref ≢ 0
      in_use j u nz z = nz (ap (λ (q : Inode). q.ref) u ∙ z)

      dev_is :
          (i j : ℕ)
          → update s.table k p i ≡ p
          → update s.table k p j ≡ s.table j
          → (update s.table k p i).dev ≡ (update s.table k p j).dev
          → (s.table j).dev ≡ dev
      dev_is i j u w e = sym (ap (λ (q : Inode). q.dev) w) ∙ sym e ∙ ap (λ (q : Inode). q.dev) u

      inum_is :
          (i j : ℕ)
          → update s.table k p i ≡ p
          → update s.table k p j ≡ s.table j
          → (update s.table k p i).inum ≡ (update s.table k p j).inum
          → (s.table j).inum ≡ inum
      inum_is i j u w e = sym (ap (λ (q : Inode). q.inum) w) ∙ sym e ∙ ap (λ (q : Inode). q.inum) u

      clash : (j : ℕ) → (s.table j).ref ≢ 0 → (s.table j).dev ≡ dev → (s.table j).inum ≡ inum → ⊥
      clash j nz d n = elim (eq_cases (s.table j).ref 0) [
        | inl z ↦ nz z
        | inr _ ↦
            let t = cached_used dev inum (s.table j) nz (small j) d n in
            let inside : j < ninode = ground (arith, v.low j) in let f = none_there j inside in cc
      ]

      others :
          (hs : List Handle)
          → All (λ (q : Handle). q.slot ≢ k) hs
          → All (Names s.table) hs
          → All (Names (update s.table k p)) hs
      others [] a b = tt
      others (q ∷ hs) a b = (rw (update_ne s.table k q.slot p a.0) b.0, others hs a.1 b.1)

-- What `iget` does: the inode is in the table, or it is not, and there is a free entry or none.
pub iget-cases :
    (dev inum : ℕ) (ic : Icache)
    → ((i : ℕ) × (is_cached dev inum (ic i) ≡ true) × (iget dev inum ic ≡ some (i, add_ref i ic)))
      ⊎ (((j : ℕ) → j < ninode → is_cached dev inum (ic j) ≡ false)
          × ((((j : ℕ) → j < ninode → (ic j).ref ≢ 0) × (iget dev inum ic ≡ none))
              ⊎ ((k : ℕ) × (k < ninode)
                  × ((ic k).ref ≡ 0)
                  × (iget dev inum ic
                      ≡ some (
                        k,
                        update ic k (record (ic k) { dev = dev; inum = inum; ref = 1; valid = 0 }),
                      )))))
unfolding iget
iget-cases dev inum ic = go (find_slot ninode 0 none dev inum ic) refl (
    find_slot-Scanned ninode 0 none dev inum ic (λ j h. absurd (omega arith))
      (λ j h. absurd (omega arith)))
  where
    go :
        (r : Slot)
        → find_slot ninode 0 none dev inum ic ≡ r
        → Scanned ic dev inum (0 + ninode) r
        → ((i : ℕ) × (is_cached dev inum (ic i) ≡ true)
            × (iget dev inum ic ≡ some (i, add_ref i ic)))
          ⊎ (((j : ℕ) → j < ninode → is_cached dev inum (ic j) ≡ false)
              × ((((j : ℕ) → j < ninode → (ic j).ref ≢ 0) × (iget dev inum ic ≡ none))
                  ⊎ ((k : ℕ) × (k < ninode)
                      × ((ic k).ref ≡ 0)
                      × (iget dev inum ic
                          ≡ some (
                            k,
                            update ic k
                                (record (ic k) { dev = dev; inum = inum; ref = 1; valid = 0 }),
                          )))))
    go (cached i) e q = inl (i, q.1, rw (e, iget) refl)
    go (missing none) e q = inr (q.1, inl (q.0, rw (e, iget) refl))
    go (missing (some k)) e q = inr (q.1, inr (k, q.0.0, q.0.1, rw (e, iget) refl))

-- ===== src/Kalloc/Owned.antt =====
-- Each page is free or handed out, never both.
use hyu_2020_operating_syste.Base.{
  ℕ, ◌+◌, ◌≤◌, ◌≡◌, ◌≢◌, ◌∙◌, ◌⊎◌, inl, inr, refl, sym, ap, some, List, [], ◌∷◌, ◌++◌, arith, eq→==,
  ne→==, All, count_by, count_by-middle, count_by_zero, update, update_self, update_ne, subst,
}
use hyu_2020_operating_syste.Kalloc.{Kmem, kfree, kalloc}

abbrev pub count : ℕ → List ℕ → ℕ
count p ps = count_by (λ x. x) p ps

-- The list that starts at address `h`.
abbrev pub Chain : (ℕ → ℕ) → ℕ → List ℕ → Type 0
Chain next h [] = h ≡ 0
Chain next h (p ∷ ps) = (h ≡ p) × (p ≢ 0) × Chain next (next p) ps

Chain-update :
    (next : ℕ → ℕ) (q v h : ℕ) (ps : List ℕ)
    → All (λ p. p ≢ q) ps
    → Chain next h ps
    → Chain (update next q v) h ps
Chain-update next q v h [] a c = c
Chain-update next q v h (p ∷ ps) a c = (
  c.0,
  c.1,
  subst (λ n. Chain (update next q v) n ps) (sym (update_ne next q p v a.0))
      (Chain-update next q v (next p) ps a.1 c.2),
)

-- The allocator, and the pages that are handed out.
pub record Sys : Type 0 where
  pub kmem : Kmem
  pub used : List ℕ

-- A page that was handed out may be written in, and may be given back.
pub data Step (end : ℕ) : Sys → Sys → Type 0 where
  allocs :
      (s : Sys) (p : ℕ) (m : Kmem)
      → kalloc s.kmem ≡ (p, m)
      → p ≢ 0
      → Step end s (record { kmem = m; used = p ∷ s.used })
  frees :
      (s : Sys) (pre : List ℕ) (p : ℕ) (post : List ℕ) (m : Kmem)
      → s.used ≡ pre ++ (p ∷ post)
      → kfree end p s.kmem ≡ some m
      → Step end s (record { kmem = m; used = pre ++ post })
  writes :
      (s : Sys) (pre : List ℕ) (p : ℕ) (post : List ℕ) (v : ℕ)
      → s.used ≡ pre ++ (p ∷ post)
      → Step end s (record s { kmem = record (s.kmem) { next = update s.kmem.next p v } })

pub data Reach (end : ℕ) (s : Sys) : Sys → Type 0 where
  here : Reach end s s
  next : {t u : Sys} → Reach end s t → Step end t u → Reach end s u

-- The pages `all`, no two the same, are those of the free list and those handed out.
pub record Owned (all : List ℕ) (s : Sys) : Type 0 where
  pub free : List ℕ
  pub chain : Chain s.kmem.next s.kmem.freelist free
  pub parts : (p : ℕ) → count p free + count p s.used ≡ count p all
  pub once : (p : ℕ) → count p all ≤ 1
  pub real : count 0 all ≡ 0

module _ (all : List ℕ) (s : Sys) (v : Owned all s) where
  used-ne-free :
      (pre : List ℕ) (p : ℕ) (post : List ℕ) → s.used ≡ pre ++ (p ∷ post) → All (λ q. q ≢ p) v.free
  used-ne-free pre p post e =
      let c = ap (count p) e ∙ count_by-middle (λ (x : ℕ). x) p p pre post in
      let o = eq→== p p refl in
      let one : count p s.used ≡ 1 + count p (pre ++ post) = c ∙ rw o refl in
      let a = v.parts p in let b = v.once p in count_by_zero (λ (x : ℕ). x) p v.free (omega arith)

  kalloc-cases :
      ((v.free ≡ []) × (kalloc s.kmem ≡ (0, s.kmem)))
      ⊎ ((p : ℕ) × (ps : List ℕ) × (v.free ≡ p ∷ ps)
          × (p ≢ 0)
          × (kalloc s.kmem ≡ (p, record (s.kmem) { freelist = s.kmem.next p }))
          × Chain s.kmem.next (s.kmem.next p) ps)
  unfolding kalloc
  kalloc-cases = go v.free refl v.chain
    where
      go :
          (ps : List ℕ)
          → v.free ≡ ps
          → Chain s.kmem.next s.kmem.freelist ps
          → ((v.free ≡ []) × (kalloc s.kmem ≡ (0, s.kmem)))
            ⊎ ((p : ℕ) × (ps : List ℕ) × (v.free ≡ p ∷ ps)
                × (p ≢ 0)
                × (kalloc s.kmem ≡ (p, record (s.kmem) { freelist = s.kmem.next p }))
                × Chain s.kmem.next (s.kmem.next p) ps)
      go [] e c = inl (e, rw (eq→== _ _ c) refl)
      go (p ∷ ps) e c = inr (p, ps, e, c.1, rw (c.0, ne→== p 0 c.1) refl, c.2)

  kfree-some :
      (end p : ℕ) (m : Kmem)
      → kfree end p s.kmem ≡ some m
      → m ≡ record { freelist = p; next = update s.kmem.next p s.kmem.freelist }
  unfolding kfree
  kfree-some end p m e = ground arith

  taken :
      (p : ℕ) (m : Kmem)
      → kalloc s.kmem ≡ (p, m)
      → p ≢ 0
      → Owned all (record { kmem = m; used = p ∷ s.used })
  taken p m e nz = elim kalloc-cases [
    | inl (_, f) ↦ absurd (let g = sym f ∙ e in let z : 0 ≡ p = cc in nz (sym z))
    | inr (q, ps, free, _, f, c) ↦ moved q ps free c (sym f ∙ e)
  ]
    where
      moved :
          (q : ℕ) (ps : List ℕ)
          → v.free ≡ q ∷ ps
          → Chain s.kmem.next (s.kmem.next q) ps
          → ◌≡◌ {A = ℕ × Kmem} (q, record (s.kmem) { freelist = s.kmem.next q }) (p, m)
          → Owned all (record { kmem = m; used = p ∷ s.used })
      moved q ps free c g =
          let same : q ≡ p = cc in
          let rest : record (s.kmem) { freelist = s.kmem.next q } ≡ m = cc in
          record {
            free = ps;
            chain = subst (λ (k : Kmem). Chain k.next k.freelist ps) rest c;
            parts = λ x.
                let a = v.parts x in
                let f = ap (count x) free in
                let o : count x (q ∷ ps) ≡ count x (p ∷ ps) = ap (λ z. count x (z ∷ ps)) same in
                omega arith;
            once = v.once;
            real = v.real;
          }

  returned :
      (end : ℕ) (pre : List ℕ) (p : ℕ) (post : List ℕ) (m : Kmem)
      → s.used ≡ pre ++ (p ∷ post)
      → kfree end p s.kmem ≡ some m
      → Owned all (record { kmem = m; used = pre ++ post })
  returned end pre p post m e k = record {
    free = p ∷ v.free;
    chain =
        subst (λ (k : Kmem). Chain k.next k.freelist (p ∷ v.free)) (sym (kfree-some end p m k))
          (
            refl,
            not_null,
            subst (λ h. Chain (update s.kmem.next p s.kmem.freelist) h v.free)
                (sym (update_self s.kmem.next p s.kmem.freelist))
                (Chain-update s.kmem.next p s.kmem.freelist s.kmem.freelist v.free
                  (used-ne-free pre p post e) v.chain),
          );
    parts = λ x.
        let c = ap (count x) e ∙ count_by-middle (λ (y : ℕ). y) x p pre post in
        let a = v.parts x in omega arith;
    once = v.once;
    real = v.real;
  }
    where
      not_null : p ≢ 0
      not_null z =
          let c = ap (count 0) e ∙ count_by-middle (λ (y : ℕ). y) 0 p pre post in
          let o = eq→== 0 p (sym z) in
          let one : count 0 s.used ≡ 1 + count 0 (pre ++ post) = c ∙ rw o refl in
          let a = v.parts 0 in let r = v.real in absurd (omega arith)

Step-Owned : (all : List ℕ) (end : ℕ) {s t : Sys} → Step end s t → Owned all s → Owned all t
Step-Owned all end (allocs s p m e nz) v = taken all s v p m e nz
Step-Owned all end (frees s pre p post m e k) v = returned all s v end pre p post m e k
Step-Owned all end (writes s pre p post w e) v = record {
  free = v.free;
  chain =
      Chain-update s.kmem.next p w s.kmem.freelist v.free (used-ne-free all s v pre p post e)
        v.chain;
  parts = v.parts;
  once = v.once;
  real = v.real;
}

Reach-Owned : (all : List ℕ) (end : ℕ) {s t : Sys} → Owned all s → Reach end s t → Owned all t
Reach-Owned all end v here = v
Reach-Owned all end v (next r st) = Step-Owned all end st (Reach-Owned all end v r)

-- Start with each page of `all` either free or handed out. After any sequence of kalloc and kfree
-- calls and of writes into pages that are handed out, kalloc returns a page of `all` that is not handed
-- out, or null, and null only if all of them are: no page is given twice, and none is lost.
pub kalloc_lem :
    (all : List ℕ) (end : ℕ) {s t : Sys}
    → Owned all s
    → Reach end s t
    → (((p : ℕ) → count p t.used ≡ count p all) × (kalloc t.kmem ≡ (0, t.kmem)))
      ⊎ ((p : ℕ) × (m : Kmem) × (p ≢ 0)
          × (kalloc t.kmem ≡ (p, m))
          × (count p all ≡ 1)
          × (count p t.used ≡ 0))
kalloc_lem all end {s} {t} v r =
    let w = Reach-Owned all end v r in
    elim (kalloc-cases all t w) [
      | inl (empty, f) ↦
          inl (λ p. let a = w.parts p in let b = ap (count p) empty in omega arith, f)
      | inr (p, ps, free, nz, f, c) ↦
          let b = ap (count p) free in
          let o = eq→== p p refl in
          let one : count p w.free ≡ 1 + count p ps = b ∙ rw o refl in
          let a = w.parts p in
          let u = w.once p in
          inr (p, record (t.kmem) { freelist = t.kmem.next p }, nz, f, omega arith, omega arith)
    ]

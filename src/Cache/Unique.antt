-- ===== src/Cache/Unique.antt =====
-- No block is cached twice.
use hyu_2020_operating_syste.Base.{
  ℕ, zero, suc, ◌≡◌, ◌≢◌, ◌⊎◌, inl, inr, ◌∙◌, sym, subst, refl, Bool, false, Option, none, some, [],
  ◌∷◌, ◌++◌, ◌==◌, All, Bool-cases, arith,
}
use hyu_2020_operating_syste.Cache.{
  Buf, Lru, binit, hold, recycled, drop, unlink, count_down, bget, brelse,
}
use hyu_2020_operating_syste.Cache.Lookup.{Missing, bget-cases}

-- Two buffers with different blocks; device 0 stands for no block yet.
abbrev pub Apart : Buf → Buf → Type 0
Apart b c = b.dev ≢ 0 → c.dev ≡ b.dev → c.blockno ≢ b.blockno

abbrev pub Unique : Lru → Type 0
Unique [] = Unit {0}
Unique (b ∷ bs) = All (Apart b) bs × Unique bs

Apart-sym : (b c : Buf) → Apart b c → Apart c b
Apart-sym b c a n e f = a (λ z. n (sym e ∙ z)) (sym e) (sym f)

-- The change of one buffer in a list keeps what all others are required to satisfy.
All-replace :
    (P : Buf → Type 0) (b b' : Buf) (pre post : Lru)
    → (P b → P b')
    → All P (pre ++ (b ∷ post))
    → All P (pre ++ (b' ∷ post))
All-replace P b b' [] post f a = (f a.0, a.1)
All-replace P b b' (x ∷ xs) post f a = (a.0, All-replace P b b' xs post f a.1)

Unique-same :
    (b b' : Buf) (pre post : Lru)
    → b'.dev ≡ b.dev
    → b'.blockno ≡ b.blockno
    → Unique (pre ++ (b ∷ post))
    → Unique (pre ++ (b' ∷ post))
Unique-same b b' [] post d n u = (all post u.0, u.1)
  where
    all : (cs : Lru) → All (Apart b) cs → All (Apart b') cs
    all [] h = tt
    all (c ∷ cs) h = ((λ z e f. h.0 (λ y. z (d ∙ y)) (e ∙ d) (f ∙ n)), all cs h.1)
Unique-same b b' (x ∷ xs) post d n u = (
  All-replace (Apart x) b b' xs post (λ a z e f. a z (sym d ∙ e) (sym n ∙ f)) u.0,
  Unique-same b b' xs post d n u.1,
)

Unique-fresh :
    (dev blockno : ℕ) (b : Buf) (pre post : Lru)
    → Missing dev blockno (pre ++ (b ∷ post))
    → Unique (pre ++ (b ∷ post))
    → Unique (pre ++ (recycled dev blockno b ∷ post))
Unique-fresh dev blockno b [] post m u = (all post m.1, u.1)
  where
    all : (cs : Lru) → Missing dev blockno cs → All (Apart (recycled dev blockno b)) cs
    all [] h = tt
    all (c ∷ cs) h = ((λ z e f. let k = h.0 in ground arith), all cs h.1)
Unique-fresh dev blockno b (x ∷ xs) post m u = (
  All-replace (Apart x) b (recycled dev blockno b) xs post (λ a z e f. let k = m.0 in ground arith)
      u.0,
  Unique-fresh dev blockno b xs post m.1 u.1,
)

bget-Unique :
    (dev blockno i : ℕ) (bs bs' : Lru)
    → bget dev blockno bs ≡ some (i, bs')
    → Unique bs
    → Unique bs'
bget-Unique dev blockno i bs bs' e u = elim (bget-cases dev blockno bs) [
  | inl (b, cs, e', h, r) ↦
      let same : cs ≡ bs' = cc in
      subst Unique (sym r.new ∙ same)
        (Unique-same b (hold b) r.pre r.post refl refl (subst Unique r.old u))
  | inr (m, found) ↦ elim found [
    | inl (b, cs, r, e', f, p) ↦
        let same : cs ≡ bs' = cc in
        subst Unique (sym r.new ∙ same) (
          Unique-fresh dev blockno b r.pre r.post (subst (Missing dev blockno) r.old m)
            (subst Unique r.old u))
    | inr (e', p) ↦ absurd (none_some (sym e' ∙ e))
  ]
]
  where
    none_some : ◌≢◌ {A = Option (ℕ × Lru)} none (some (i, bs'))
    none_some e = cc

-- What is left after a buffer is unlinked.
unlink-cases :
    (i : ℕ) (bs : Lru)
    → (unlink i bs ≡ none)
      ⊎ ((b : Buf) × (rest : Lru) × (unlink i bs ≡ some (b, rest))
          × ((P : Buf → Type 0) → All P bs → P b × All P rest)
          × (Unique bs → All (Apart b) rest × Unique rest))
unfolding unlink
unlink-cases i [] = inl refl
unlink-cases i (b ∷ bs) = elim (Bool-cases (b.id == i)) [
  | inl h ↦ inr (b, bs, rw h refl, (λ P a. a), (λ u. u))
  | inr h ↦ elim (unlink-cases i bs) [
    | inl e ↦ inl (rw (h, e) refl)
    | inr (c, rest, e, all, uniq) ↦ inr (
      c,
      b ∷ rest,
      rw (h, e) refl,
      (λ P a. let q = all P a.1 in (q.0, (a.0, q.1))),
      (λ u.
          let q = all (Apart b) u.0 in let r = uniq u.1 in ((Apart-sym b c q.0, r.0), (q.1, r.1))),
    )
  ]
]

count_down-All :
    (P : Buf → Type 0)
    → ((b : Buf) → P b → P (drop b))
    → (i : ℕ) (bs : Lru) → All P bs
    → All P (count_down i bs)
unfolding count_down
count_down-All P f i [] a = tt
count_down-All P f i (b ∷ bs) a = elim (Bool-cases (b.id == i)) [
  | inl h ↦ rw h (f b a.0, a.1)
  | inr h ↦ rw h (a.0, count_down-All P f i bs a.1)
]

count_down-Unique : (i : ℕ) (bs : Lru) → Unique bs → Unique (count_down i bs)
unfolding count_down
count_down-Unique i [] u = tt
count_down-Unique i (b ∷ bs) u = elim (Bool-cases (b.id == i)) [
  | inl h ↦ rw h (u.0, u.1)
  | inr h ↦ rw h (count_down-All (Apart b) (λ c a. a) i bs u.0, count_down-Unique i bs u.1)
]

brelse-Unique : (i : ℕ) (bs : Lru) → Unique bs → Unique (brelse i bs)
unfolding brelse
brelse-Unique i bs u = elim (unlink-cases i bs) [
  | inl e ↦ rw (e, brelse) u
  | inr (b, rest, e, all, uniq) ↦ elim (Bool-cases ((drop b).refcnt == 0)) [
    | inl z ↦ rw (e, z, brelse) (uniq u)
    | inr z ↦ rw (e, z, brelse) (count_down-Unique i bs u)
  ]
]

-- Calls of `bget` and `brelse`, and changes of the flags of a buffer, in any order.
pub data Step : Lru → Lru → Type 0 where
  gets : (bs bs' : Lru) (dev blockno i : ℕ) → bget dev blockno bs ≡ some (i, bs') → Step bs bs'
  releases : (bs : Lru) (i : ℕ) → Step bs (brelse i bs)
  marks :
      (pre post : Lru) (b : Buf) (valid dirty : Bool)
      → Step (pre ++ (b ∷ post)) (pre ++ (record b { valid = valid; dirty = dirty } ∷ post))

pub data Reach (bs : Lru) : Lru → Type 0 where
  here : Reach bs bs
  next : {cs ds : Lru} → Reach bs cs → Step cs ds → Reach bs ds

Step-Unique : {bs cs : Lru} → Step bs cs → Unique bs → Unique cs
Step-Unique (gets bs bs' dev blockno i e) u = bget-Unique dev blockno i bs bs' e u
Step-Unique (releases bs i) u = brelse-Unique i bs u
Step-Unique (marks pre post b valid dirty) u = Unique-same b _ pre post refl refl u

binit-Unique : (n : ℕ) → Unique (binit n)
unfolding binit
binit-Unique zero = tt
binit-Unique (suc n) = (apart n, binit-Unique n)
  where
    apart :
        (m : ℕ)
        → All
            (Apart
              (record { id = n; dev = 0; blockno = 0; valid = false; dirty = false; refcnt = 0 }))
            (binit m)
    apart zero = tt
    apart (suc m) = ((λ z e f. z refl), apart m)

-- From `binit` on, in any sequence of `bget`, `brelse` and changes of flags, no two buffers of the list
-- are of one block of a device other than 0.
pub Reach-Unique : (n : ℕ) {bs : Lru} → Reach (binit n) bs → Unique bs
Reach-Unique n here = binit-Unique n
Reach-Unique n (next r s) = Step-Unique s (Reach-Unique n r)

-- ===== src/Cache/Lookup.antt =====
-- What `bget` finds.
use hyu_2020_operating_syste.Base.{
  ℕ, ◌+◌, ◌%◌, ◌^◌, ◌≡◌, ◌≢◌, ◌⊎◌, inl, inr, ap, refl, true, false, none, some, [], ◌∷◌, ◌++◌, All,
  Bool-cases, arith,
}
use hyu_2020_operating_syste.Cache.{Buf, Lru, holds, is_free, hold, recycled, hit, miss, bget}

-- One buffer of the list is replaced, and all others stay as they are, in their order.
pub record Replaced (bs : Lru) (b b' : Buf) (bs' : Lru) : Type 0 where
  pub pre : Lru
  pub post : Lru
  pub old : bs ≡ pre ++ (b ∷ post)
  pub new : bs' ≡ pre ++ (b' ∷ post)

module _ (dev blockno : ℕ) where
  abbrev pub Missing : Lru → Type 0
  Missing bs = All (λ b. holds dev blockno b ≡ false) bs

  abbrev Busy : Lru → Type 0
  Busy bs = All (λ b. is_free b ≡ false) bs

  hit-cases :
      (bs : Lru)
      → ((hit dev blockno bs ≡ none) × Missing bs)
        ⊎ ((b : Buf) × (bs' : Lru) × (hit dev blockno bs ≡ some (b.id, bs'))
            × (holds dev blockno b ≡ true)
            × Replaced bs b (hold b) bs')
  unfolding hit
  hit-cases [] = inl (refl, tt)
  hit-cases (b ∷ bs) = elim (Bool-cases (holds dev blockno b)) [
    | inl h ↦
        inr (b, hold b ∷ bs, rw h refl, h, record { pre = []; post = bs; old = refl; new = refl })
    | inr h ↦ elim (hit-cases bs) [
      | inl (e, m) ↦ inl (rw (h, e) refl, (h, m))
      | inr (c, bs', e, k, r) ↦ inr (
        c,
        b ∷ bs',
        rw (h, e) refl,
        k,
        record {
          pre = b ∷ r.pre;
          post = r.post;
          old = ap (λ l. b ∷ l) r.old;
          new = ap (λ l. b ∷ l) r.new;
        },
      )
    ]
  ]

  miss-cases :
      (bs : Lru)
      → ((miss dev blockno bs ≡ none) × Busy bs)
        ⊎ ((b : Buf) × (bs' : Lru) × (r : Replaced bs b (recycled dev blockno b) bs') × (miss dev
                blockno bs
              ≡ some (b.id, bs'))
            × (is_free b ≡ true)
            × Busy r.post)
  unfolding miss
  miss-cases [] = inl (refl, tt)
  miss-cases (b ∷ bs) = elim (miss-cases bs) [
    | inr (c, bs', r, e, f, p) ↦ inr (
      c,
      b ∷ bs',
      record {
        pre = b ∷ r.pre;
        post = r.post;
        old = ap (λ l. b ∷ l) r.old;
        new = ap (λ l. b ∷ l) r.new;
      },
      rw e refl,
      f,
      p,
    )
    | inl (e, m) ↦ elim (Bool-cases (is_free b)) [
      | inl f ↦ inr (
        b,
        recycled dev blockno b ∷ bs,
        record { pre = []; post = bs; old = refl; new = refl },
        rw (e, f) refl,
        f,
        m,
      )
      | inr f ↦ inl (rw (e, f) refl, (f, m))
    ]
  ]

  pub bget-cases :
      (bs : Lru)
      → ((b : Buf) × (bs' : Lru) × (bget dev blockno bs ≡ some (b.id, bs'))
          × (holds dev blockno b ≡ true)
          × Replaced bs b (hold b) bs')
        ⊎ (Missing bs
            × (((b : Buf) × (bs' : Lru) × (r : Replaced bs b (recycled dev blockno b) bs') × (bget
                      dev blockno bs
                    ≡ some (b.id, bs'))
                  × (is_free b ≡ true)
                  × Busy r.post)
                ⊎ ((bget dev blockno bs ≡ none) × Busy bs)))
  unfolding bget
  bget-cases bs = elim (hit-cases bs) [
    | inr (b, bs', e, h, r) ↦ inl (b, bs', rw (e, bget) refl, h, r)
    | inl (e, m) ↦ elim (miss-cases bs) [
      | inr (b, bs', r, e', f, p) ↦ inr (m, inl (b, bs', r, rw (e, bget) e', f, p))
      | inl (e', p) ↦ inr (m, inr (rw (e, bget) e', p))
    ]
  ]

  -- The same without the Boolean tests.
  abbrev pub Of : Buf → Type 0
  Of b = (b.dev ≡ dev) × (b.blockno ≡ blockno)

  abbrev pub InUse : Buf → Type 0
  InUse b = (b.refcnt ≢ 0) ⊎ (b.dirty ≡ true)

  free_lem : (b : Buf) → is_free b ≡ true → (b.refcnt ≡ 0) × (b.dirty ≡ false)
  free_lem b h = ground arith

  busy_lem : (b : Buf) → is_free b ≡ false → InUse b
  busy_lem b h = ground arith

  other_lem : (b : Buf) → holds dev blockno b ≡ false → b.dev ≡ dev → b.blockno ≢ blockno
  other_lem b h = ground arith

  same_lem : (b : Buf) → holds dev blockno b ≡ true → Of b
  same_lem b h = ground arith

  All-weaken : (P Q : Buf → Type 0) → ((b : Buf) → P b → Q b) → (bs : Lru) → All P bs → All Q bs
  All-weaken P Q f [] a = tt
  All-weaken P Q f (b ∷ bs) a = (f b a.0, All-weaken P Q f bs a.1)

  -- `bget` returns the cached buffer of the block, with one reference more; if there is none, the
  -- last buffer of the list that is clean and has no reference, given to the block with one reference;
  -- it panics exactly if there is neither. Every other buffer stays as it is, in its place.
  pub bget_lem :
      (bs : Lru)
      → ((b : Buf) × (bs' : Lru) × (bget dev blockno bs ≡ some (b.id, bs'))
          × Of b
          × Replaced bs b (record b { refcnt = (b.refcnt + 1) % 2 ^ 32 }) bs')
        ⊎ (All (λ c. c.dev ≡ dev → c.blockno ≢ blockno) bs
            × (((b : Buf) × (bs' : Lru) × (r : Replaced bs b
                    (record {
                      id = b.id;
                      dev = dev;
                      blockno = blockno;
                      valid = false;
                      dirty = false;
                      refcnt = 1;
                    })
                    bs')
                  × (bget dev blockno bs ≡ some (b.id, bs'))
                  × (b.refcnt ≡ 0)
                  × (b.dirty ≡ false)
                  × All InUse r.post)
                ⊎ ((bget dev blockno bs ≡ none) × All InUse bs)))
  bget_lem bs = elim (bget-cases bs) [
    | inl (b, bs', e, h, r) ↦ inl (b, bs', e, same_lem b h, r)
    | inr (m, found) ↦ inr (
      All-weaken _ _ other_lem bs m,
      elim found [
        | inl (b, bs', r, e, f, p) ↦
            let (z, c) = free_lem b f in inl (b, bs', r, e, z, c, All-weaken _ _ busy_lem r.post p)
        | inr (e, p) ↦ inr (e, All-weaken _ _ busy_lem bs p)
      ],
    )
  ]

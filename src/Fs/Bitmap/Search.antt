-- ===== src/Fs/Bitmap/Search.antt =====
-- The search of `balloc` finds the first free bit, if there is one.
use hyu_2020_operating_syste.Base.{
  ℕ, zero, suc, ◌+◌, ◌-◌, ◌*◌, ◌%◌, ◌≤◌, ◌<◌, ◌≡◌, ◌⊎◌, inl, inr, Bool, true, false, Option, none,
  some, ltb, arith, min, refl, eq_cases, Bool-cases,
}
use hyu_2020_operating_syste.Block.{Disk, Block}
use hyu_2020_operating_syste.Log.{Machine}
use hyu_2020_operating_syste.Fs.{Mount, ◌>>◌, pure, write_block}
use hyu_2020_operating_syste.Fs.Bits.{bit_used, mark_bit}
use hyu_2020_operating_syste.Fs.Bitmap.{bpb, find_free, bblock, block_used, bzero, balloc_from}

-- What the inner loop returns for the bits from `bi` on.
abbrev pub Searched : ℕ → ℕ → ℕ → ℕ → Block → Option ℕ → Type 0
Searched n size b bi a none = (k : ℕ) → bi ≤ k → k < bi + n → b + k < size → bit_used a k ≡ true
Searched n size b bi a (some j) =
    (bi ≤ j)
    × (j < bi + n)
    × (b + j < size)
    × (bit_used a j ≡ false)
    × ((k : ℕ) → bi ≤ k → k < j → bit_used a k ≡ true)

later :
    (n size b bi : ℕ) (a : Block) (o : Option ℕ)
    → bit_used a bi ≡ true
    → Searched n size b (bi + 1) a o
    → Searched (suc n) size b bi a o
later n size b bi a none u s =
    λ k l h z. elim (eq_cases k bi) [ inl e ↦ rw e u | inr ne ↦ s k (omega arith) (omega arith) z ]
later n size b bi a (some j) u (p, q, r, f, g) = (
  omega arith,
  omega arith,
  r,
  f,
  λ k l h. elim (eq_cases k bi) [ inl e ↦ rw e u | inr ne ↦ g k (omega arith) h ],
)

pub find_free-Searched :
    (n size b bi : ℕ) (a : Block) → Searched n size b bi a (find_free n size b bi a)
unfolding find_free
find_free-Searched zero size b bi a = λ k l h z. absurd (omega arith)
find_free-Searched (suc n) size b bi a = elim (Bool-cases (ltb (b + bi) size)) [
  | inl inside ↦ elim (Bool-cases (bit_used a bi)) [
    | inl u ↦ rw (inside, u) (later n size b bi a _ u (find_free-Searched n size b (bi + 1) a))
    | inr f ↦
        rw (inside, f) (omega arith, omega arith, ground arith, f, λ k l h. absurd (omega arith))
  ]
  | inr outside ↦ rw outside (λ k l h z. absurd (ground arith))
]

module _ (fs : Mount) where
  -- `r` is the first free block from `b` on.
  pub record First (c : Disk) (b r : ℕ) : Type 0 where
    pub from : b ≤ r
    pub inside : r < fs.size
    pub free : block_used fs c r ≡ false
    pub least : (k : ℕ) → b ≤ k → k < r → block_used fs c k ≡ true

  -- taking block `r`: its bit is set, and it is zeroed
  abbrev pub take_block : ℕ → Machine → Option (ℕ × Machine)
  take_block r m =
      (write_block fs (bblock fs r) (mark_bit (m.cache (bblock fs r)) (r % bpb))
          >> (bzero fs r >> pure r))
        m

  abbrev pub Taken : ℕ → Machine → Option (ℕ × Machine) → Type 0
  Taken b m out =
      (((k : ℕ) → b ≤ k → k < fs.size → block_used fs m.cache k ≡ true) × (out ≡ none))
      ⊎ ((r : ℕ) × First m.cache b r × (out ≡ take_block r m))

  bit_of_block :
      (c : Disk) (b k : ℕ) (u : Bool)
      → b % bpb ≡ 0
      → b ≤ k
      → k < b + bpb
      → bit_used (c (bblock fs b)) (k - b) ≡ u
      → block_used fs c k ≡ u
  bit_of_block c b k u h l g e =
      let same : bblock fs k ≡ bblock fs b = omega arith in
      let off : k % bpb ≡ k - b = omega arith in rw (same, off) e

  full :
      (c : Disk) (b : ℕ)
      → b % bpb ≡ 0
      → Searched bpb fs.size b 0 (c (bblock fs b)) none
      → (k : ℕ) → b ≤ k
      → k < b + bpb
      → k < fs.size
      → block_used fs c k ≡ true
  full c b h s k l g z =
      bit_of_block c b k true h l g (s (k - b) (omega arith) (omega arith) (omega arith))

  found-Taken :
      (b bi : ℕ) (m : Machine)
      → b % bpb ≡ 0
      → Searched bpb fs.size b 0 (m.cache (bblock fs b)) (some bi)
      → First m.cache b (b + bi)
        × ((write_block fs (bblock fs b) (mark_bit (m.cache (bblock fs b)) bi)
                >> (bzero fs (b + bi) >> pure (b + bi)))
              m
            ≡ take_block (b + bi) m)
  found-Taken b bi m h (p, q, r, f, g) =
      let same : bblock fs (b + bi) ≡ bblock fs b = omega arith in
      let off : (b + bi) % bpb ≡ bi = omega arith in
      let back : (b + bi) - b ≡ bi = omega arith in
      (
        record {
          from = omega arith;
          inside = r;
          free = bit_of_block m.cache b (b + bi) false h (omega arith) (omega arith) (rw back f);
          least = λ k l s.
              bit_of_block m.cache b k true h l (omega arith)
                (g (k - b) (omega arith) (omega arith));
        },
        rw (same, off),
      )

  First-later :
      (c : Disk) (b r : ℕ)
      → ((k : ℕ) → b ≤ k → k < b + bpb → k < fs.size → block_used fs c k ≡ true)
      → First c (b + bpb) r
      → First c b r
  First-later c b r h f = record {
    from = let l = f.from in omega arith;
    inside = f.inside;
    free = f.free;
    least = λ k l s. elim (eq_cases (min k (b + bpb)) k) [
      | inl below ↦ elim (eq_cases k (b + bpb)) [
        | inl e ↦ f.least k (omega arith) s
        | inr ne ↦ h k l (omega arith) (let i = f.inside in omega arith)
      ]
      | inr above ↦ f.least k (omega arith) s
    ];
  }

  pub balloc_from-Taken :
      (n b : ℕ) (m : Machine)
      → b % bpb ≡ 0
      → fs.size < b + n * bpb
      → Taken b m (balloc_from fs n b m)
  unfolding balloc_from
  balloc_from-Taken zero b m h e = inl (λ k l z. absurd (omega arith), refl)
  balloc_from-Taken (suc n) b m h e = elim (Bool-cases (ltb b fs.size)) [
    | inl inside ↦ rw inside (
        go (find_free bpb fs.size b 0 (m.cache (bblock fs b)))
          (find_free-Searched bpb fs.size b 0 (m.cache (bblock fs b)))
          (balloc_from-Taken n (b + bpb) m (omega arith) (omega arith)))
    | inr past ↦ rw past (inl (λ k l z. absurd (ground arith), refl))
  ]
    where
      go :
          (o : Option ℕ)
          → Searched bpb fs.size b 0 (m.cache (bblock fs b)) o
          → Taken (b + bpb) m (balloc_from fs n (b + bpb) m)
          → Taken b m (elim o [
            | none ↦ balloc_from fs n (b + bpb) m
            | some bi ↦
                (write_block fs (bblock fs b) (mark_bit (m.cache (bblock fs b)) bi)
                    >> (bzero fs (b + bi) >> pure (b + bi)))
                  m
          ])
      go none s (inl (all, e)) = inl (
        λ k l z. elim (eq_cases (min k (b + bpb)) k) [
          | inl below ↦ elim (eq_cases k (b + bpb)) [
            | inl same ↦ all k (omega arith) z
            | inr ne ↦ full m.cache b h s k l (omega arith) z
          ]
          | inr above ↦ all k (omega arith) z
        ],
        e,
      )
      go none s (inr (r, f, e)) = inr (r, First-later m.cache b r (full m.cache b h s) f, e)
      go (some bi) s t = let (f, e) = found-Taken b bi m h s in inr (b + bi, f, e)

-- ===== src/Fs/Dinode/Coding.antt =====
-- An inode that is stored is read back, and the other inodes of the block stay.
use hyu_2020_operating_syste.Base.{
  ℕ, zero, suc, ◌+◌, ◌*◌, ◌/◌, ◌^◌, ◌<◌, ◌≤◌, ◌≡◌, ◌≢◌, ◌⊎◌, inl, inr, ◌∙◌, sym, ap, refl, arith,
  eq_cases, ltb, true,
}
use hyu_2020_operating_syste.Block.{
  Block, get_word, set_word, get_word-set_word, get_word-set_word_ne,
}
use hyu_2020_operating_syste.Fs.Bmap.{Inode}
use hyu_2020_operating_syste.Fs.Dinode.{naddrs, put_addrs, encode_dinode, decode_dinode}
use hyu_2020_operating_syste.Fs.Dinode.Halves.{
  get_half, set_half, get_half-set_half, get_half-set_half_ne, get_half-set_word_ne,
  get_word-set_half_ne,
}

get_word-put_addrs_ne :
    (n base j : ℕ) (addrs : ℕ → ℕ) (a : Block)
    → ((j < base) ⊎ (base + n ≤ j))
    → get_word (put_addrs n base addrs a) j ≡ get_word a j
unfolding put_addrs
get_word-put_addrs_ne zero base j addrs a h = refl
get_word-put_addrs_ne (suc n) base j addrs a h =
    get_word-set_word_ne (put_addrs n base addrs a) (base + n) j (addrs n) (omega arith)
    ∙ get_word-put_addrs_ne n base j addrs a (omega arith)

get_half-put_addrs_ne :
    (n base j : ℕ) (addrs : ℕ → ℕ) (a : Block)
    → ((j / 2 < base) ⊎ (base + n ≤ j / 2))
    → get_half (put_addrs n base addrs a) j ≡ get_half a j
unfolding put_addrs
get_half-put_addrs_ne zero base j addrs a h = refl
get_half-put_addrs_ne (suc n) base j addrs a h =
    get_half-set_word_ne (put_addrs n base addrs a) (base + n) j (addrs n) (omega arith)
    ∙ get_half-put_addrs_ne n base j addrs a (omega arith)

get_word-put_addrs :
    (n base k : ℕ) (addrs : ℕ → ℕ) (a : Block)
    → k < n
    → addrs k < 2 ^ 32
    → get_word (put_addrs n base addrs a) (base + k) ≡ addrs k
unfolding put_addrs
get_word-put_addrs zero base k addrs a h w = absurd (omega arith)
get_word-put_addrs (suc n) base k addrs a h w = elim (eq_cases k n) [
  | inl e ↦ rw e (get_word-set_word (put_addrs n base addrs a) (base + n) (addrs n) (rw e at w))
  | inr ne ↦
      get_word-set_word_ne (put_addrs n base addrs a) (base + n) (base + k) (addrs n) (omega arith)
      ∙ get_word-put_addrs n base k addrs a (omega arith) w
]

-- The fields that are on disk are the same.
pub record SameFields (p q : Inode) : Type 0 where
  pub type : p.type ≡ q.type
  pub major : p.major ≡ q.major
  pub minor : p.minor ≡ q.minor
  pub nlink : p.nlink ≡ q.nlink
  pub size : p.size ≡ q.size
  pub addrs : (k : ℕ) → k < naddrs → p.addrs k ≡ q.addrs k

-- The fields are `short`s and `uint`s.
pub record IsStored (p : Inode) : Type 0 where
  pub type : p.type < 2 ^ 16
  pub major : p.major < 2 ^ 16
  pub minor : p.minor < 2 ^ 16
  pub nlink : p.nlink < 2 ^ 16
  pub size : p.size < 2 ^ 32
  pub addrs : (k : ℕ) → k < naddrs → p.addrs k < 2 ^ 32

module _ (i : ℕ) (ip : Inode) (a : Block) where
  abbrev h0 : Block
  h0 = set_half a (32 * i) ip.type

  abbrev h1 : Block
  h1 = set_half h0 (32 * i + 1) ip.major

  abbrev h2 : Block
  h2 = set_half h1 (32 * i + 2) ip.minor

  abbrev h3 : Block
  h3 = set_half h2 (32 * i + 3) ip.nlink

  abbrev w : Block
  w = set_word h3 (16 * i + 2) ip.size

  -- a `short` of this inode, through the words that are stored after it
  half_here :
      (j : ℕ) → j < 4 → get_half (encode_dinode i ip a) (32 * i + j) ≡ get_half h3 (32 * i + j)
  unfolding encode_dinode
  half_here j h =
      get_half-put_addrs_ne naddrs (16 * i + 3) (32 * i + j) ip.addrs w (omega arith)
      ∙ get_half-set_word_ne h3 (16 * i + 2) (32 * i + j) ip.size (omega arith)

  size_here : get_word (encode_dinode i ip a) (16 * i + 2) ≡ get_word w (16 * i + 2)
  unfolding encode_dinode
  size_here = get_word-put_addrs_ne naddrs (16 * i + 3) (16 * i + 2) ip.addrs w (omega arith)

  addrs_here :
      (k : ℕ)
      → k < naddrs
      → ip.addrs k < 2 ^ 32
      → get_word (encode_dinode i ip a) (16 * i + 3 + k) ≡ ip.addrs k
  unfolding encode_dinode
  addrs_here k h b = get_word-put_addrs naddrs (16 * i + 3) k ip.addrs w h b

  pub decode-encode :
      (q : Inode) → IsStored ip → SameFields (decode_dinode i (encode_dinode i ip a) q) ip
  unfolding decode_dinode
  decode-encode q v = record {
    type =
        ap (get_half (encode_dinode i ip a)) zero_more
        ∙ half_here 0 (omega arith)
        ∙ ap (get_half h3) (sym zero_more)
        ∙ get_half-set_half_ne h2 (32 * i + 3) (32 * i) ip.nlink (omega arith)
        ∙ get_half-set_half_ne h1 (32 * i + 2) (32 * i) ip.minor (omega arith)
        ∙ get_half-set_half_ne h0 (32 * i + 1) (32 * i) ip.major (omega arith)
        ∙ get_half-set_half a (32 * i) ip.type v.type;
    major =
        half_here 1 (omega arith)
        ∙ get_half-set_half_ne h2 (32 * i + 3) (32 * i + 1) ip.nlink (omega arith)
        ∙ get_half-set_half_ne h1 (32 * i + 2) (32 * i + 1) ip.minor (omega arith)
        ∙ get_half-set_half h0 (32 * i + 1) ip.major v.major;
    minor =
        half_here 2 (omega arith)
        ∙ get_half-set_half_ne h2 (32 * i + 3) (32 * i + 2) ip.nlink (omega arith)
        ∙ get_half-set_half h1 (32 * i + 2) ip.minor v.minor;
    nlink = half_here 3 (omega arith) ∙ get_half-set_half h2 (32 * i + 3) ip.nlink v.nlink;
    size = size_here ∙ get_word-set_word h3 (16 * i + 2) ip.size v.size;
    addrs = λ k h.
        let low : ltb k naddrs ≡ true = ground arith in rw low (addrs_here k h (v.addrs k h));
  }
    where
      zero_more : 32 * i ≡ 32 * i + 0
      zero_more = omega arith

  module _ (j : ℕ) (ne : j ≢ i) where
    half_there : (p : ℕ) → p / 32 ≡ j → get_half (encode_dinode i ip a) p ≡ get_half a p
    unfolding encode_dinode
    half_there p e =
        get_half-put_addrs_ne naddrs (16 * i + 3) p ip.addrs w (omega arith)
        ∙ get_half-set_word_ne h3 (16 * i + 2) p ip.size (omega arith)
        ∙ get_half-set_half_ne h2 (32 * i + 3) p ip.nlink (omega arith)
        ∙ get_half-set_half_ne h1 (32 * i + 2) p ip.minor (omega arith)
        ∙ get_half-set_half_ne h0 (32 * i + 1) p ip.major (omega arith)
        ∙ get_half-set_half_ne a (32 * i) p ip.type (omega arith)

    word_there : (p : ℕ) → p / 16 ≡ j → get_word (encode_dinode i ip a) p ≡ get_word a p
    unfolding encode_dinode
    word_there p e =
        get_word-put_addrs_ne naddrs (16 * i + 3) p ip.addrs w (omega arith)
        ∙ get_word-set_word_ne h3 (16 * i + 2) p ip.size (omega arith)
        ∙ get_word-set_half_ne h2 (32 * i + 3) p ip.nlink (omega arith)
        ∙ get_word-set_half_ne h1 (32 * i + 2) p ip.minor (omega arith)
        ∙ get_word-set_half_ne h0 (32 * i + 1) p ip.major (omega arith)
        ∙ get_word-set_half_ne a (32 * i) p ip.type (omega arith)

    pub decode-encode_ne :
        (q : Inode) → SameFields (decode_dinode j (encode_dinode i ip a) q) (decode_dinode j a q)
    unfolding decode_dinode
    decode-encode_ne q = record {
      type = half_there (32 * j) (omega arith);
      major = half_there (32 * j + 1) (omega arith);
      minor = half_there (32 * j + 2) (omega arith);
      nlink = half_there (32 * j + 3) (omega arith);
      size = word_there (16 * j + 2) (omega arith);
      addrs = λ k h.
          let low : ltb k naddrs ≡ true = ground arith in
          rw low (word_there (16 * j + 3 + k) (omega arith));
    }

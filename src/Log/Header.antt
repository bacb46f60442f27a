-- ===== src/Log/Header.antt =====
-- The header block of the log: `write_head` and `read_head` are inverse.
use hyu_2020_operating_syste.Base.{
  ℕ, zero, suc, ◌+◌, ◌*◌, ◌^◌, ◌≤◌, ◌<◌, ◌≡◌, ◌∙◌, refl, sym, ap₂, List, [], ◌∷◌, arith, length,
  All, ltb, true,
}
use hyu_2020_operating_syste.Block.{
  Block, get_word, set_word, get_word-set_word, get_word-set_word_ne,
}
use hyu_2020_operating_syste.Log.{put_blocks, encode_head, get_blocks, decode_head}
use hyu_2020_operating_syste.Log.Group.{log_size}

lt→ltb : (a b : ℕ) → a < b → ltb a b ≡ true
lt→ltb a b h = ground arith

-- Storing the entries from `i` on leaves the words up to `i` alone.
put_blocks-below :
    (i j : ℕ) (lh : List ℕ) (a : Block) → j ≤ i → get_word (put_blocks i lh a) j ≡ get_word a j
unfolding put_blocks
put_blocks-below i j [] a h = refl
put_blocks-below i j (b ∷ bs) a h =
    put_blocks-below (i + 1) j bs (set_word a (i + 1) b) (omega arith)
    ∙ get_word-set_word_ne a (i + 1) j b (omega arith)

get_blocks-put_blocks :
    (i : ℕ) (lh : List ℕ) (a : Block)
    → All (λ b. b < 2 ^ 32) lh
    → get_blocks (length lh) i (put_blocks i lh a) ≡ lh
unfolding get_blocks put_blocks
get_blocks-put_blocks i [] a h = refl
get_blocks-put_blocks i (b ∷ bs) a h = rw (
  put_blocks-below (i + 1) (i + 1) bs (set_word a (i + 1) b) (omega arith),
  get_word-set_word a (i + 1) b h.0,
  get_blocks-put_blocks (i + 1) bs (set_word a (i + 1) b) h.1,
)

-- Entries depend on their own bytes only.
get_word-same :
    (a b : Block) (i : ℕ) → ((k : ℕ) → k < 4 * i + 4 → b k ≡ a k) → get_word b i ≡ get_word a i
unfolding get_word
get_word-same a b i h = rw (
  h (4 * i) (omega arith),
  h (4 * i + 1) (omega arith),
  h (4 * i + 2) (omega arith),
  h (4 * i + 3) (omega arith),
)

get_blocks-same :
    (a b : Block) (n i : ℕ)
    → ((k : ℕ) → k < 4 * (i + n + 1) → b k ≡ a k)
    → get_blocks n i b ≡ get_blocks n i a
unfolding get_blocks
get_blocks-same a b zero i h = refl
get_blocks-same a b (suc n) i h =
    ap₂ ◌∷◌ (get_word-same a b (i + 1) (λ k l. h k (omega arith)))
      (get_blocks-same a b n (i + 1) (λ k l. h k (omega arith)))

set_word-after : (a : Block) (i v k : ℕ) → 4 * (i + 1) ≤ k → set_word a i v k ≡ a k
unfolding set_word
set_word-after a i v k h = ground arith

put_blocks-after :
    (i : ℕ) (lh : List ℕ) (a : Block) (k : ℕ)
    → 4 * (i + length lh + 1) ≤ k
    → put_blocks i lh a k ≡ a k
unfolding put_blocks
put_blocks-after i [] a k h = refl
put_blocks-after i (b ∷ bs) a k h =
    put_blocks-after (i + 1) bs (set_word a (i + 1) b) k (omega arith)
    ∙ set_word-after a (i + 1) b k (omega arith)

head-word :
    (lh : List ℕ) (a : Block) → length lh < 2 ^ 31 → get_word (encode_head lh a) 0 ≡ length lh
unfolding encode_head
head-word lh a n =
    rw (put_blocks-below 0 0 lh (set_word a 0 (length lh)) (omega arith))
      (get_word-set_word a 0 (length lh) (omega arith))

decode_head-entries :
    (a : Block) (lh : List ℕ)
    → length lh < 2 ^ 31
    → get_word a 0 ≡ length lh
    → decode_head a ≡ get_blocks (length lh) 0 a
unfolding decode_head
decode_head-entries a lh n e = rw (e, lt→ltb (length lh) (2 ^ 31) n) refl

get_blocks-encode_head :
    (lh : List ℕ) (a : Block)
    → All (λ b. b < 2 ^ 32) lh
    → get_blocks (length lh) 0 (encode_head lh a) ≡ lh
unfolding encode_head
get_blocks-encode_head lh a h = get_blocks-put_blocks 0 lh (set_word a 0 (length lh)) h

-- `write_head` and `read_head` are inverse, without regard to the size of a block.
pub decode_head-encode_head :
    (lh : List ℕ) (a : Block)
    → length lh < 2 ^ 31
    → All (λ b. b < 2 ^ 32) lh
    → decode_head (encode_head lh a) ≡ lh
decode_head-encode_head lh a n h =
    decode_head-entries (encode_head lh a) lh n (head-word lh a n) ∙ get_blocks-encode_head lh a h

decode_head-same :
    (a b : Block) (lh : List ℕ)
    → length lh ≤ log_size
    → get_word a 0 ≡ length lh
    → ((k : ℕ) → k < 512 → b k ≡ a k)
    → decode_head b ≡ decode_head a
decode_head-same a b lh n e h =
    decode_head-entries b lh (omega arith) (get_word-same a b 0 (λ k l. h k (omega arith)) ∙ e)
    ∙ get_blocks-same a b (length lh) 0 (λ k l. h k (omega arith))
    ∙ sym (decode_head-entries a lh (omega arith) e)

-- The header block has only 512 bytes. For at most LOGSIZE block numbers, each below 2 ^ 32,
-- `write_head` changes no byte after the last entry, which is in the block, and `read_head` reads the
-- same entries back from any block that has these 512 bytes.
pub head_lem :
    (lh : List ℕ) (a b : Block)
    → length lh ≤ log_size
    → All (λ b. b < 2 ^ 32) lh
    → ((k : ℕ) → k < 512 → b k ≡ encode_head lh a k)
    → (decode_head b ≡ lh)
      × (4 * (length lh + 1) ≤ 512)
      × ((k : ℕ) → 4 * (length lh + 1) ≤ k → encode_head lh a k ≡ a k)
unfolding encode_head
head_lem lh a b n h same = (
  decode_head-same (encode_head lh a) b lh n (head-word lh a (omega arith)) same
      ∙ decode_head-encode_head lh a (omega arith) h,
  omega arith,
  λ k far.
      put_blocks-after 0 lh (set_word a 0 (length lh)) k (omega arith)
      ∙ set_word-after a 0 (length lh) k (omega arith),
)

-- ===== src/Fs/Dinode/Halves.antt =====
-- The `short`s of a block.
use hyu_2020_operating_syste.Base.{
  ℕ, ◌+◌, ◌*◌, ◌/◌, ◌%◌, ◌^◌, ◌<◌, ◌≡◌, ◌≢◌, arith, ◌==◌, if◌then◌else◌,
}
use hyu_2020_operating_syste.Block.{Block, get_word, set_word}

-- Bytes `2 i` and `2 i + 1` as a 16-bit pattern.
unfoldable pub get_half : Block → ℕ → ℕ
get_half a i = a (2 * i) + 256 * a (2 * i + 1)

unfoldable pub set_half : Block → ℕ → ℕ → Block
set_half a i v k = if k / 2 == i then (if k % 2 == 0 then v % 256 else v / 256 % 256) else a k

pub get_half-set_half : (a : Block) (i v : ℕ) → v < 2 ^ 16 → get_half (set_half a i v) i ≡ v
unfolding get_half set_half
get_half-set_half a i v h = ground arith

pub get_half-set_half_ne :
    (a : Block) (i j v : ℕ) → j ≢ i → get_half (set_half a i v) j ≡ get_half a j
unfolding get_half set_half
get_half-set_half_ne a i j v h = ground arith

pub get_half-set_word_ne :
    (a : Block) (i j v : ℕ) → j / 2 ≢ i → get_half (set_word a i v) j ≡ get_half a j
unfolding get_half set_word
get_half-set_word_ne a i j v h = ground arith

pub get_word-set_half_ne :
    (a : Block) (i j v : ℕ) → i / 2 ≢ j → get_word (set_half a i v) j ≡ get_word a j
unfolding get_word set_half
get_word-set_half_ne a i j v h = ground arith

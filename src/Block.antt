-- ===== src/Block.antt =====
-- Disk blocks as bytes, and the little-endian 32-bit words that `(uint*)bp->data` reads in them.
use hyu_2020_operating_syste.Base.{
  ℕ, zero, suc, ◌+◌, ◌*◌, ◌/◌, ◌%◌, ◌^◌, ◌<◌, ◌≡◌, ◌≢◌, arith, ◌==◌, if◌then◌else◌,
}

-- `uchar data[BSIZE]`: byte k is `b k`. Only k < 512 is ever read.
abbrev pub Block : Type 0
Block = ℕ → ℕ

-- All blocks of a device, by block number.
abbrev pub Disk : Type 0
Disk = ℕ → Block

-- `a[i]` for `uint *a = (uint*)bp->data`
unfoldable pub get_word : Block → ℕ → ℕ
get_word a i = a (4 * i) + 256 * a (4 * i + 1) + 65536 * a (4 * i + 2) + 16777216 * a (4 * i + 3)

-- the bytes of a word, from the least
abbrev word_byte : ℕ → ℕ → ℕ
word_byte v zero = v % 256
word_byte v (suc zero) = v / 256 % 256
word_byte v (suc (suc zero)) = v / 65536 % 256
word_byte v _ = v / 16777216 % 256

-- `a[i] = v`
unfoldable pub set_word : Block → ℕ → ℕ → Block
set_word a i v k = if k / 4 == i then word_byte v (k % 4) else a k

-- `memset(bp->data, 0, BSIZE)`
abbrev pub zero_block : Block
zero_block _ = 0

-- A word that is stored is read back.
pub get_word-set_word : (a : Block) (i v : ℕ) → v < 2 ^ 32 → get_word (set_word a i v) i ≡ v
unfolding get_word set_word
get_word-set_word a i v h = ground arith

-- A store leaves the other words alone.
pub get_word-set_word_ne :
    (a : Block) (i j v : ℕ) → j ≢ i → get_word (set_word a i v) j ≡ get_word a j
unfolding get_word set_word
get_word-set_word_ne a i j v h = ground arith

-- ===== src/Fs/Bits.antt =====
-- The bits of a bitmap block: `data[bi/8]` and the mask `1 << (bi % 8)`.
pub mod Laws
use Prim.Native.Nat.{bit_and, bit_or}
use hyu_2020_operating_syste.Base.{
  ℕ, zero, suc, ◌+◌, ◌-◌, ◌*◌, ◌/◌, ◌%◌, ◌^◌, ◌≤◌, ◌<◌, ◌≡◌, ◌≢◌, refl, Bool, true, false, not,
  ◌&&◌, arith, ◌==◌, ltb, if◌then◌else◌, update, update_self, update_ne, ==→eq, ltb→lt, ap, ◌∙◌,
}
use hyu_2020_operating_syste.Block.{Block}

-- `(data[bi/8] & (1 << (bi % 8))) != 0`
unfoldable pub bit_used : Block → ℕ → Bool
bit_used a bi = not (bit_and (a (bi / 8)) (2 ^ (bi % 8)) == 0)

-- `data[bi/8] |= m`
unfoldable pub mark_bit : Block → ℕ → Block
mark_bit a bi = update a (bi / 8) (bit_or (a (bi / 8)) (2 ^ (bi % 8)))

-- `data[bi/8] &= ~m`, stored to a `uchar`
unfoldable pub clear_bit : Block → ℕ → Block
clear_bit a bi = update a (bi / 8) (bit_and (a (bi / 8)) (255 - 2 ^ (bi % 8)))

abbrev pub IsBytes : Block → Type 0
IsBytes a = (k : ℕ) → a k < 256

-- `test` holds of the first `count` numbers.
passes : (ℕ → Bool) → ℕ → Bool
passes test zero = true
passes test (suc count) = let rest = passes test count in if test count then rest else false

passes_at : (test : ℕ → Bool) (count j : ℕ) → j < count → passes test count ≡ true → test j ≡ true
unfolding passes
passes_at test zero j lt h = absurd (omega arith)
passes_at test (suc count) j lt h = ground (arith, passes_at test count j)

abbrev pub same : Bool → Bool → Bool
same true b = b
same false b = not b

pub same→eq : (a b : Bool) → same a b ≡ true → a ≡ b
same→eq a b h = ground arith

abbrev pub mark_row : ℕ → ℕ → ℕ → Bool
mark_row x k j =
    same (not (bit_and (bit_or x (2 ^ k)) (2 ^ j) == 0))
      (if j == k then true else not (bit_and x (2 ^ j) == 0))

abbrev pub clear_row : ℕ → ℕ → ℕ → Bool
clear_row x k j =
    same (not (bit_and (bit_and x (255 - 2 ^ k)) (2 ^ j) == 0))
      (if j == k then false else not (bit_and x (2 ^ j) == 0))

abbrev pub byte_row : ℕ → ℕ → Bool
byte_row x k = ltb (bit_or x (2 ^ k)) 256 && ltb (bit_and x (255 - 2 ^ k)) 256

mark_table : passes (λ x. passes (λ k. passes (mark_row x k) 8) 8) 256 ≡ true
unfolding passes
mark_table = refl

clear_table : passes (λ x. passes (λ k. passes (clear_row x k) 8) 8) 256 ≡ true
unfolding passes
clear_table = refl

byte_table : passes (λ x. passes (byte_row x) 8) 256 ≡ true
unfolding passes
byte_table = refl

pub mark_at : (x k j : ℕ) → x < 256 → k < 8 → j < 8 → mark_row x k j ≡ true
mark_at x k j hx hk hj = passes_at (mark_row x k) 8 j hj (
    passes_at (λ k. passes (mark_row x k) 8) 8 k hk
      (passes_at (λ x. passes (λ k. passes (mark_row x k) 8) 8) 256 x hx mark_table))

pub clear_at : (x k j : ℕ) → x < 256 → k < 8 → j < 8 → clear_row x k j ≡ true
clear_at x k j hx hk hj = passes_at (clear_row x k) 8 j hj (
    passes_at (λ k. passes (clear_row x k) 8) 8 k hk
      (passes_at (λ x. passes (λ k. passes (clear_row x k) 8) 8) 256 x hx clear_table))

pub byte_at : (x k : ℕ) → x < 256 → k < 8 → byte_row x k ≡ true
byte_at x k hx hk =
    passes_at (byte_row x) 8 k hk (passes_at (λ x. passes (byte_row x) 8) 256 x hx byte_table)

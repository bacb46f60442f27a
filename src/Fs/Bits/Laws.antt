-- ===== src/Fs/Bits/Laws.antt =====
-- Marking or clearing a bit changes that bit and no other.
use Prim.Native.Nat.{bit_and, bit_or}
use hyu_2020_operating_syste.Base.{
  ℕ, ◌-◌, ◌/◌, ◌%◌, ◌^◌, ◌<◌, ◌≡◌, inl, inr, Bool, true, false, not, ◌&&◌, arith, ◌==◌,
  if◌then◌else◌, update, update_self, update_ne, ne→==, ltb→lt, ap, eq_cases, subst, sym,
}
use hyu_2020_operating_syste.Block.{Block}
use hyu_2020_operating_syste.Fs.Bits.{
  bit_used, mark_bit, clear_bit, IsBytes, mark_at, clear_at, byte_at, same→eq,
}

mod_cases : (i j : ℕ) → j / 8 ≡ i / 8 → (j % 8 == i % 8) ≡ (j == i)
mod_cases i j h = ground arith

byte_used : ℕ → ℕ → Bool
byte_used x k = not (bit_and x (2 ^ k) == 0)

bit_used-update :
    (a : Block) (i j v : ℕ) (b : Bool)
    → (j / 8 ≡ i / 8
        → byte_used v (j % 8) ≡ (if j % 8 == i % 8 then b else byte_used (a (i / 8)) (j % 8)))
    → bit_used (update a (i / 8) v) j ≡ (if j == i then b else bit_used a j)
unfolding bit_used byte_used
bit_used-update a i j v b h = elim (eq_cases (j / 8) (i / 8)) [
  | inl same ↦ rw (same, update_self a (i / 8) v, ← mod_cases i j same) (h same)
  | inr other ↦
      rw (update_ne a (i / 8) (j / 8) v other, ne→== j i (λ e. other (ap (λ (n : ℕ). n / 8) e)))
]

-- After marking a bit it is used, and every other bit is as it was.
pub bit_used-mark_bit :
    (a : Block) (i j : ℕ)
    → IsBytes a
    → bit_used (mark_bit a i) j ≡ (if j == i then true else bit_used a j)
unfolding mark_bit byte_used
bit_used-mark_bit a i j h =
    bit_used-update a i j (bit_or (a (i / 8)) (2 ^ (i % 8))) true (λ e.
      same→eq _ _ (mark_at (a (i / 8)) (i % 8) (j % 8) (h (i / 8)) (omega arith) (omega arith)))

-- After clearing a bit it is free, and every other bit is as it was.
pub bit_used-clear_bit :
    (a : Block) (i j : ℕ)
    → IsBytes a
    → bit_used (clear_bit a i) j ≡ (if j == i then false else bit_used a j)
unfolding clear_bit byte_used
bit_used-clear_bit a i j h =
    bit_used-update a i j (bit_and (a (i / 8)) (255 - 2 ^ (i % 8))) false (λ e.
      same→eq _ _ (clear_at (a (i / 8)) (i % 8) (j % 8) (h (i / 8)) (omega arith) (omega arith)))

IsBytes-update : (a : Block) (k v : ℕ) → v < 256 → IsBytes a → IsBytes (update a k v)
IsBytes-update a k v hv h j = elim (eq_cases j k) [
  | inl e ↦ subst (λ (x : ℕ). x < 256) (sym (rw e (update_self a k v))) hv
  | inr ne ↦ subst (λ (x : ℕ). x < 256) (sym (update_ne a k j v ne)) (h j)
]

both : (a b : Bool) → (a && b) ≡ true → (a ≡ true) × (b ≡ true)
both a b h = ground arith

pub mark_bit-IsBytes : (a : Block) (i : ℕ) → IsBytes a → IsBytes (mark_bit a i)
unfolding mark_bit
mark_bit-IsBytes a i h =
    IsBytes-update a (i / 8) _
      (ltb→lt _ 256 (both _ _ (byte_at (a (i / 8)) (i % 8) (h (i / 8)) (omega arith))).0) h

pub clear_bit-IsBytes : (a : Block) (i : ℕ) → IsBytes a → IsBytes (clear_bit a i)
unfolding clear_bit
clear_bit-IsBytes a i h =
    IsBytes-update a (i / 8) _
      (ltb→lt _ 256 (both _ _ (byte_at (a (i / 8)) (i % 8) (h (i / 8)) (omega arith))).1) h

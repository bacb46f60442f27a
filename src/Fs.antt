-- ===== src/Fs.antt =====
-- project3/xv6-public/fs.c over the buffer cache and the log. A buffer is read by `m.cache`, and
-- what the code changes in `bp->data` before `log_write(bp)` is one update here.
pub mod Example
pub mod Bits
pub mod Room
pub mod Bitmap
pub mod Bmap
pub mod Path
pub mod Dinode
pub mod Data
pub mod Truncate
pub mod Dir
pub mod Icache
use hyu_2020_operating_syste.Base.{ℕ, ◌≡◌, refl, Option, none, some}
use hyu_2020_operating_syste.Block.{Block}
use hyu_2020_operating_syste.Log.{Machine, fill}
use hyu_2020_operating_syste.Log.Group.{Ops, log_write}

-- `struct superblock`
pub record Superblock : Type 0 where
  pub size : ℕ
  pub nblocks : ℕ
  pub ninodes : ℕ
  pub nlog : ℕ
  pub logstart : ℕ
  pub inodestart : ℕ
  pub bmapstart : ℕ

-- The mounted file system: the global `sb`, and the log's counters during a system call.
pub record Mount : Type 0 where
  pub sb : Superblock
  pub open sb use *
  pub ops : Ops

-- Code that runs in a transaction; `none` is a panic.
abbrev pub M : Type 0 → Type 0
M A = Machine → Option (A × Machine)

infixl 5 ◌>>=◌ ◌>>◌
abbrev pub ◌>>=◌ : {A B : Type 0} → M A → (A → M B) → M B
◌>>=◌ f k m = elim (f m) [ none ↦ none | some (a, m') ↦ k a m' ]

abbrev pub ◌>>◌ : {A B : Type 0} → M A → M B → M B
f >> k = f >>= λ _. k

abbrev pub pure : {A : Type 0} → A → M A
pure a m = some (a, m)

-- The parts of a block of code that did not panic.
pub >>=-eq-some :
    {A B : Type 0} (f : M A) (k : A → M B) (m : Machine) {out : B × Machine}
    → (f >>= k) m ≡ some out
    → (a : A) × (m1 : Machine) × (f m ≡ some (a, m1)) × (k a m1 ≡ some out)
>>=-eq-some {A} {B} f k m {out} e = go (f m) refl e
  where
    go :
        (o : Option (A × Machine))
        → f m ≡ o
        → elim o [ none ↦ none | some (a, m1) ↦ k a m1 ] ≡ some out
        → (a : A) × (m1 : Machine) × (f m ≡ some (a, m1)) × (k a m1 ≡ some out)
    go none h e = cc
    go (some (a, m1)) h e = (a, m1, h, e)

pub >>=-some :
    {A B : Type 0} (f : M A) (k : A → M B) (m m1 : Machine) (a : A)
    → f m ≡ some (a, m1)
    → (f >>= k) m ≡ k a m1
>>=-some f k m m1 a e = rw (e, ◌>>=◌)

-- Running parts that agree, one after the other.
pub >>=-cong :
    {A B : Type 0} (f f' : M A) (k k' : A → M B) (m : Machine)
    → f m ≡ f' m
    → ((a : A) (m1 : Machine) → f' m ≡ some (a, m1) → k a m1 ≡ k' a m1)
    → (f >>= k) m ≡ (f' >>= k') m
>>=-cong {A} {B} f f' k k' m e h = go (f m) (f' m) e h
  where
    go :
        (o o' : Option (A × Machine))
        → o ≡ o'
        → ((a : A) (m1 : Machine) → o' ≡ some (a, m1) → k a m1 ≡ k' a m1)
        → elim o [ none ↦ none | some (a, m1) ↦ k a m1 ]
          ≡ elim o' [ none ↦ none | some (a, m1) ↦ k' a m1 ]
    go o none e h = rw e refl
    go o (some (a, m1)) e h = rw e (h a m1 refl)

pub >>=-assoc :
    {A B C : Type 0} (f : M A) (k : A → M B) (l : B → M C) (m : Machine)
    → (f >>= k >>= l) m ≡ (f >>= λ a. k a >>= l) m
>>=-assoc {A} {B} {C} f k l m = go (f m)
  where
    go :
        (o : Option (A × Machine))
        → ((λ (_ : Machine). o) >>= k >>= l) m ≡ ((λ (_ : Machine). o) >>= λ a. k a >>= l) m
    go none = refl
    go (some (a, m1)) = refl

-- `bp = bread(dev, b); … change bp->data to v …; log_write(bp); brelse(bp)`
unfoldable pub write_block : Mount → ℕ → Block → M (Unit {0})
write_block fs b v m = elim (log_write fs.nlog fs.ops b (fill b v m)) [
  | none ↦ none
  | some m' ↦ some (tt, m')
]

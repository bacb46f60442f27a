-- ===== src/Cache.antt =====
-- The buffer cache of project3/xv6-public/bio.c: which buffer holds which block.
pub mod Lookup
pub mod Unique
mod Tests
use hyu_2020_operating_syste.Base.{
  ℕ, zero, suc, ◌+◌, ◌-◌, ◌%◌, ◌^◌, Bool, true, false, not, ◌&&◌, Option, none, some, List, [], ◌∷◌,
  ◌==◌, if◌then◌else◌,
}

-- `struct buf` without its data and its sleep lock; `id` is its index in `bcache.buf`.
pub record Buf : Type 0 where
  pub id : ℕ
  pub dev : ℕ
  pub blockno : ℕ
  pub valid : Bool
  pub dirty : Bool
  pub refcnt : ℕ

-- The list from `bcache.head.next` on, the most recently released buffer first.
abbrev pub Lru : Type 0
Lru = List Buf

-- the loop of `binit`, which puts buffers `0` to `n - 1` at the head, one after the other
unfoldable pub binit : ℕ → Lru
binit zero = []
binit (suc n) =
    record { id = n; dev = 0; blockno = 0; valid = false; dirty = false; refcnt = 0 } ∷ binit n

abbrev pub holds : ℕ → ℕ → Buf → Bool
holds dev blockno b = (b.dev == dev) && (b.blockno == blockno)

abbrev pub is_free : Buf → Bool
is_free b = (b.refcnt == 0) && not b.dirty

-- `b->refcnt++`
abbrev pub hold : Buf → Buf
hold b = record b { refcnt = (b.refcnt + 1) % 2 ^ 32 }

abbrev pub recycled : ℕ → ℕ → Buf → Buf
recycled dev blockno b = record b {
  dev = dev;
  blockno = blockno;
  valid = false;
  dirty = false;
  refcnt = 1;
}

-- The first loop of `bget`, from the head on: the buffer that it returns, and the list after it.
unfoldable pub hit : ℕ → ℕ → Lru → Option (ℕ × Lru)
hit dev blockno [] = none
hit dev blockno (b ∷ bs) =
    let rest = hit dev blockno bs in
    if holds dev blockno b
    then some (b.id, hold b ∷ bs)
    else elim rest [ none ↦ none | some (i, bs') ↦ some (i, b ∷ bs') ]

-- The second loop, from the tail on.
unfoldable pub miss : ℕ → ℕ → Lru → Option (ℕ × Lru)
miss dev blockno [] = none
miss dev blockno (b ∷ bs) = elim (miss dev blockno bs) [
  | none ↦ if is_free b then some (b.id, recycled dev blockno b ∷ bs) else none
  | some (i, bs') ↦ some (i, b ∷ bs')
]

-- `none` is the panic.
unfoldable pub bget : ℕ → ℕ → Lru → Option (ℕ × Lru)
bget dev blockno bs = elim (hit dev blockno bs) [ none ↦ miss dev blockno bs | some r ↦ some r ]

-- `b->refcnt--`
abbrev pub drop : Buf → Buf
drop b = record b { refcnt = (b.refcnt + 2 ^ 32 - 1) % 2 ^ 32 }

-- The buffer `i` taken out of the list, which `brelse` unlinks.
unfoldable pub unlink : ℕ → Lru → Option (Buf × Lru)
unlink i [] = none
unlink i (b ∷ bs) =
    let rest = unlink i bs in
    if b.id == i then some (b, bs) else elim rest [ none ↦ none | some (c, cs) ↦ some (c, b ∷ cs) ]

-- the buffer `i` with its count dropped, in its place
unfoldable pub count_down : ℕ → Lru → Lru
count_down i [] = []
count_down i (b ∷ bs) = let rest = count_down i bs in if b.id == i then drop b ∷ bs else b ∷ rest

-- `brelse` of buffer `i`; a buffer that is not of the list does not occur.
unfoldable pub brelse : ℕ → Lru → Lru
brelse i bs = elim (unlink i bs) [
  | none ↦ bs
  | some (b, rest) ↦ if (drop b).refcnt == 0 then drop b ∷ rest else count_down i bs
]

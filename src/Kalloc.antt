-- ===== src/Kalloc.antt =====
-- The allocator of pages in project3/xv6-public/kalloc.c.
pub mod Owned
mod Tests
use hyu_2020_operating_syste.Base.{
  ℕ, zero, suc, ◌+◌, ◌-◌, ◌*◌, ◌/◌, ◌%◌, ◌^◌, Bool, not, ◌||◌, Option, none, some, ◌==◌, ltb, leb,
  if◌then◌else◌, update,
}

-- `PGSIZE`, `KERNBASE` and `PHYSTOP`
abbrev pub pgsize : ℕ
pgsize = 4096

abbrev pub kernbase : ℕ
kernbase = 2147483648

abbrev pub phystop : ℕ
phystop = 234881024

-- `kmem.freelist`, 0 for null, and the word at the start of each page, which is `r->next` in a free one
pub record Kmem : Type 0 where
  pub freelist : ℕ
  pub next : ℕ → ℕ

-- `PGROUNDUP`
abbrev pub pgroundup : ℕ → ℕ
pgroundup v = (v + pgsize - 1) / pgsize * pgsize

-- `end` is the first address after the kernel, which the linker places.
module _ (end : ℕ) where
  -- `none` is the panic.
  unfoldable pub kfree : ℕ → Kmem → Option Kmem
  kfree v m =
      if not (v % pgsize == 0) || (ltb v end || leb phystop ((v + 2 ^ 32 - kernbase) % 2 ^ 32))
      then none
      else some (record { freelist = v; next = update m.next v m.freelist })

  -- The loop of `freerange`, on fuel; it frees a page in each round.
  unfoldable pub freerange_from : ℕ → ℕ → ℕ → Kmem → Option Kmem
  freerange_from zero p vend m = some m
  freerange_from (suc n) p vend m =
      if leb (p + pgsize) vend
      then elim (kfree p m) [ none ↦ none | some m' ↦ freerange_from n (p + pgsize) vend m' ]
      else some m

  unfoldable pub freerange : ℕ → ℕ → Kmem → Option Kmem
  freerange vstart vend m = freerange_from (vend / pgsize + 1) (pgroundup vstart) vend m

-- the page, or null
unfoldable pub kalloc : Kmem → ℕ × Kmem
kalloc m =
    if m.freelist == 0 then (0, m) else (m.freelist, record m { freelist = m.next m.freelist })

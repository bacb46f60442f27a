-- ===== src/Kalloc/Tests.antt =====
-- Two pages above a kernel that ends at 0x80108000.
use hyu_2020_operating_syste.Base.{ℕ, ◌≡◌, ◌≢◌, ◌⊎◌, refl, [], ◌∷◌, some, arith, update}
use hyu_2020_operating_syste.Kalloc.{Kmem, kfree, freerange, freerange_from, kalloc}
use hyu_2020_operating_syste.Kalloc.Owned.{count, Sys, allocs, here, next, Owned, kalloc_lem}

abbrev kernel_end : ℕ
kernel_end = 2148564992

abbrev no_pages : Kmem
no_pages = record { freelist = 0; next = λ _. 0 }

abbrev two_pages : Kmem
two_pages = record {
  freelist = 2148569088;
  next = update (update (λ _. 0) 2148564992 0) 2148569088 2148564992;
}

-- `kinit1` makes such a list.
freed_range : freerange kernel_end 2148564000 2148573184 no_pages ≡ some two_pages
unfolding freerange freerange_from kfree
freed_range = refl

abbrev at_start : Sys
at_start = record { kmem = two_pages; used = [] }

start-Owned : Owned (2148569088 ∷ 2148564992 ∷ []) at_start
start-Owned = record {
  free = 2148569088 ∷ 2148564992 ∷ [];
  chain = (refl, omega arith, (refl, omega arith, refl));
  parts = λ p. omega arith;
  once = λ p. ground arith;
  real = refl;
}

abbrev one_page : Kmem
one_page = record two_pages { freelist = 2148564992 }

page_taken : kalloc two_pages ≡ (2148569088, one_page)
unfolding kalloc
page_taken = refl

kalloc_lem_example :
    (((p : ℕ) → count p (2148569088 ∷ []) ≡ count p (2148569088 ∷ 2148564992 ∷ []))
      × (kalloc one_page ≡ (0, one_page)))
    ⊎ ((p : ℕ) × (m : Kmem) × (p ≢ 0)
        × (kalloc one_page ≡ (p, m))
        × (count p (2148569088 ∷ 2148564992 ∷ []) ≡ 1)
        × (count p (2148569088 ∷ []) ≡ 0))
kalloc_lem_example =
    kalloc_lem (2148569088 ∷ 2148564992 ∷ []) kernel_end {s = at_start}
      {t = record { kmem = one_page; used = 2148569088 ∷ [] }} start-Owned
      (next here (allocs at_start 2148569088 one_page page_taken (omega arith)))

-- ===== src/Cache/Tests.antt =====
-- A cache of three buffers.
use hyu_2020_operating_syste.Base.{
  ℕ, ◌+◌, ◌%◌, ◌^◌, ◌≡◌, ◌≢◌, All, ◌⊎◌, refl, false, none, some, [], ◌∷◌,
}
use hyu_2020_operating_syste.Cache.{Buf, Lru, binit, bget, hit, miss, brelse, unlink, count_down}
use hyu_2020_operating_syste.Cache.Lookup.{Replaced, Of, InUse, bget_lem}
use hyu_2020_operating_syste.Cache.Unique.{Unique, here, next, gets, releases, Reach-Unique}

abbrev held : Buf
held = record { id = 0; dev = 1; blockno = 7; valid = false; dirty = false; refcnt = 1 }

abbrev unused_buf : ℕ → Buf
unused_buf i = record { id = i; dev = 0; blockno = 0; valid = false; dirty = false; refcnt = 0 }

-- block 7 is read into the last buffer
abbrev one_held : Lru
one_held = unused_buf 2 ∷ unused_buf 1 ∷ held ∷ []

bget_runs : bget 1 7 (binit 3) ≡ some (0, one_held)
unfolding bget hit miss binit
bget_runs = refl

-- It is released, and goes to the head.
brelse_runs : brelse 0 one_held ≡ record held { refcnt = 0 } ∷ unused_buf 2 ∷ unused_buf 1 ∷ []
unfolding brelse unlink count_down
brelse_runs = refl

Reach-Unique_example : Unique (brelse 0 one_held)
Reach-Unique_example =
    Reach-Unique 3
      (next (next here (gets (binit 3) one_held 1 7 0 bget_runs)) (releases one_held 0))

bget_lem_example :
    ((b : Buf) × (bs' : Lru) × (bget 1 7 one_held ≡ some (b.id, bs'))
      × Of 1 7 b
      × Replaced one_held b (record b { refcnt = (b.refcnt + 1) % 2 ^ 32 }) bs')
    ⊎ (All (λ c. c.dev ≡ 1 → c.blockno ≢ 7) one_held
        × (((b : Buf) × (bs' : Lru) × (r : Replaced one_held b
                (record {
                  id = b.id;
                  dev = 1;
                  blockno = 7;
                  valid = false;
                  dirty = false;
                  refcnt = 1;
                })
                bs')
              × (bget 1 7 one_held ≡ some (b.id, bs'))
              × (b.refcnt ≡ 0)
              × (b.dirty ≡ false)
              × All (InUse 1 7) r.post)
            ⊎ ((bget 1 7 one_held ≡ none) × All (InUse 1 7) one_held)))
bget_lem_example = bget_lem 1 7 one_held

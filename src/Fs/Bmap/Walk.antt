-- ===== src/Fs/Bmap/Walk.antt =====
-- Following a place through the tables: what is found, what is allocated, what stays.
use hyu_2020_operating_syste.Base.{
  ℕ, ◌<◌, ◌≡◌, ◌≢◌, ◌⊎◌, sym, true, some, List, [], ◌∷◌, ◌==◌, if◌then◌else◌, arith, Absent, eq→==,
  ne→==, update, update_ne,
}
use hyu_2020_operating_syste.Block.{Block, Disk, get_word, set_word}
use hyu_2020_operating_syste.Log.{Machine}
use hyu_2020_operating_syste.Fs.{Mount, ◌>>=◌, ◌>>◌, pure, >>=-eq-some, write_block}
use hyu_2020_operating_syste.Fs.Room.{write_block-some}
use hyu_2020_operating_syste.Fs.Bitmap.{bblock, block_used, balloc}
use hyu_2020_operating_syste.Fs.Bitmap.Alloc.{Sound}
use hyu_2020_operating_syste.Fs.Bmap.{slot}

-- The block at the end of a place, read off the tables; 0 where an entry is missing.
unfoldable pub resolve : Disk → ℕ → List ℕ → ℕ
resolve c a [] = a
resolve c a (i ∷ is) =
    let rest = resolve c (get_word (c a) i) is in if get_word (c a) i == 0 then 0 else rest

-- The tables on the way that exist.
unfoldable pub tables : Disk → ℕ → List ℕ → List ℕ
tables c a [] = []
tables c a (i ∷ is) =
    let rest = tables c (get_word (c a) i) is in a ∷ (if get_word (c a) i == 0 then [] else rest)

module _ (fs : Mount) where
  -- A block in use that is no bitmap block.
  pub record Plain (c : Disk) (x : ℕ) : Type 0 where
    pub inside : x < fs.size
    pub used : block_used fs c x ≡ true
    pub no_bitmap : (b : ℕ) → b < fs.size → x ≢ bblock fs b

  -- The tables on the way are plain blocks, no two the same.
  abbrev pub Chain : Disk → ℕ → List ℕ → Type 0
  Chain c a [] = Unit {0}
  Chain c a (i ∷ is) =
      Plain c a
      × ((get_word (c a) i ≡ 0)
          ⊎ ((get_word (c a) i ≢ 0)
              × Chain c (get_word (c a) i) is
              × Absent a (tables c (get_word (c a) i) is)))

  -- What holds when the walk from block `a` has ended with `addr`.
  pub record Walked (m : Machine) (a : ℕ) (is : List ℕ) (addr : ℕ) (m' : Machine) : Type 0 where
    pub sound : Sound fs m'.cache
    pub resolves : resolve m'.cache a is ≡ addr
    pub mapped : a ≢ 0 → addr ≢ 0
    pub same : (x : ℕ) → Plain m.cache x → Absent x (tables m.cache a is) → m'.cache x ≡ m.cache x
    pub kept :
        (x : ℕ) → x < fs.size → block_used fs m.cache x ≡ true → block_used fs m'.cache x ≡ true

  pub Sound-update :
      (c : Disk) (x : ℕ) (v : Block)
      → ((b : ℕ) → b < fs.size → x ≢ bblock fs b)
      → Sound fs c
      → Sound fs (update c x v)
        × ((b : ℕ) → b < fs.size → block_used fs (update c x v) b ≡ block_used fs c b)
  Sound-update c x v n s = (
    record {
      bytes = λ b hb. rw (update_ne c x (bblock fs b) v (λ e. n b hb (sym e))) (s.bytes b hb);
      own = λ b hb. (
        (s.own b hb).0,
        rw (update_ne c x (bblock fs (bblock fs b)) v (λ e. n (bblock fs b) (s.own b hb).0 (sym e)))
            (s.own b hb).1,
      );
    },
    λ b hb. rw (update_ne c x (bblock fs b) v (λ e. n b hb (sym e))),
  )

  -- An entry that is there is followed.
  pub slot-there :
      (t i : ℕ) (m : Machine)
      → get_word (m.cache t) i ≢ 0
      → slot fs t i m ≡ some (get_word (m.cache t) i, m)
  unfolding slot
  slot-there t i m h = rw (ne→== (get_word (m.cache t) i) 0 h)

  -- A missing entry is allocated: the parts of that run.
  pub slot-missing :
      (t i : ℕ) (m : Machine) {r : ℕ} {m' : Machine}
      → get_word (m.cache t) i ≡ 0
      → slot fs t i m ≡ some (r, m')
      → (m1 : Machine) × (balloc fs m ≡ some (r, m1))
        × (m'.cache ≡ update m1.cache t (set_word (m1.cache t) i r))
  unfolding slot
  slot-missing t i m {r} {m'} z e =
      let e' : (balloc fs >>= λ r m1. (write_block fs t (set_word (m1.cache t) i r) >> pure r) m1) m
          ≡ some (r, m') =
        (rw (eq→== (get_word (m.cache t) i) 0 z) at e) in
      let (r1, m1, e1, k1) =
        >>=-eq-some (balloc fs)
          (λ r m1. (write_block fs t (set_word (m1.cache t) i r) >> pure r) m1) m e' in
      let (u, m2, e2, k2) =
        >>=-eq-some (write_block fs t (set_word (m1.cache t) i r1)) (λ _. pure r1) m1 k1 in
      let c2 = write_block-some fs t (set_word (m1.cache t) i r1) m1 e2 in
      let same : r1 ≡ r = ground arith in (m1, ground arith, ground arith)

-- ===== src/Fs/Data/Extent.antt =====
-- The part of a file whose blocks are there, and reading in it.
use hyu_2020_operating_syste.Base.{
  ℕ, zero, suc, ◌+◌, ◌-◌, ◌*◌, ◌/◌, ◌%◌, ◌^◌, ◌<◌, ◌≤◌, ◌≡◌, ◌≢◌, ◌∙◌, inl, inr, ap, refl, List, [],
  ◌∷◌, ◌++◌, arith, some, All, eq_cases, ne→==,
}
use hyu_2020_operating_syste.Block.{Disk, get_word}
use hyu_2020_operating_syste.Log.{Machine}
use hyu_2020_operating_syste.Fs.{Mount, >>=-some}
use hyu_2020_operating_syste.Fs.Bmap.{Inode, bmap}
use hyu_2020_operating_syste.Fs.Bmap.Position.{place}
use hyu_2020_operating_syste.Fs.Bmap.Walk.{resolve, tables}
use hyu_2020_operating_syste.Fs.Bmap.Once.{bmap_again}
use hyu_2020_operating_syste.Fs.Data.{bsize, chunk, slice, read_from}
use hyu_2020_operating_syste.Fs.Data.Slices.{slice-append, slice-cong}

-- The walk depends on the tables that it meets only.
resolve-cong :
    (c d : Disk) (a : ℕ) (is : List ℕ)
    → All (λ t. d t ≡ c t) (tables c a is)
    → resolve d a is ≡ resolve c a is
unfolding resolve tables
resolve-cong c d a [] h = refl
resolve-cong c d a (i ∷ is) h = elim (eq_cases (get_word (c a) i) 0) [
  | inl z ↦ let e = h.0 in rw (e, z) refl
  | inr nz ↦
      let o = ne→== (get_word (c a) i) 0 nz in
      let e = h.0 in rw (e, o) (resolve-cong c d (get_word (c a) i) is (rw o at h.1))
]

-- The first `blocks` blocks of the file are there: block `bn` is `at bn`, all different, and no table
-- that leads to one is one.
pub record Laid (c : Disk) (ip : Inode) (at : ℕ → ℕ) (blocks : ℕ) : Type 0 where
  pub way :
      (bn : ℕ)
      → bn < blocks
      → (k : ℕ) × (is : List ℕ) × (place bn ≡ some (k, is))
        × (ip.addrs k ≢ 0)
        × (resolve c (ip.addrs k) is ≡ at bn)
        × (at bn ≢ 0)
        × All (λ t. (b : ℕ) → b < blocks → t ≢ at b) (tables c (ip.addrs k) is)
  pub apart : (i j : ℕ) → i < blocks → j < blocks → at i ≡ at j → i ≡ j

-- Byte `p` of the file.
abbrev pub content : (ℕ → ℕ) → Disk → ℕ → ℕ
content at c p = c (at (p / bsize)) (p % bsize)

All-map : (P Q : ℕ → Type 0) (xs : List ℕ) → ((x : ℕ) → P x → Q x) → All P xs → All Q xs
All-map P Q [] f a = tt
All-map P Q (x ∷ xs) f a = (f x a.0, All-map P Q xs f a.1)

module _ (fs : Mount) (c : Disk) (ip : Inode) (at : ℕ → ℕ) (blocks : ℕ)
    (laid : Laid c ip at blocks) where
  -- Blocks that are none of the file's data are as in `c`.
  abbrev pub Around : Machine → Type 0
  Around m = (x : ℕ) → ((b : ℕ) → b < blocks → x ≢ at b) → m.cache x ≡ c x

  pub bmap-Laid :
      (m : Machine) (bn : ℕ) → Around m → bn < blocks → bmap fs ip bn m ≡ some ((at bn, ip), m)
  bmap-Laid m bn around h =
      let (k, is, p, nz, r, nr, t) = laid.way bn h in
      bmap_again fs ip bn k is m (ip.addrs k) (at bn) p nz refl
        (resolve-cong c m.cache (ip.addrs k) is
            (All-map _ _ (tables c (ip.addrs k) is) (λ x f. around x f) t)
          ∙ r)
        nr

  pub read_from-Laid :
      (f off n : ℕ) (m : Machine)
      → Around m
      → n ≤ f
      → off + n ≤ blocks * bsize
      → off + n < 2 ^ 32
      → read_from fs f ip off n m ≡ some ((slice (content at m.cache) off n, ip), m)
  unfolding read_from slice
  read_from-Laid zero off n m around e h w = let z : n ≡ 0 = omega arith in rw z refl
  read_from-Laid (suc f) off n m around e h w = elim (eq_cases n 0) [
    | inl z ↦ rw (z, slice) refl
    | inr nz ↦
        let o = ne→== n 0 nz in
        let step : (off + chunk off n) % 2 ^ 32 ≡ off + chunk off n = omega arith in
        let rest =
          read_from-Laid f (off + chunk off n) (n - chunk off n) m around (omega arith)
            (omega arith) (omega arith) in
        let whole : chunk off n + (n - chunk off n) ≡ n = omega arith in
        rw (o, step)
          (>>=-some (bmap fs ip (off / bsize)) _ m m (at (off / bsize), ip)
              (bmap-Laid m (off / bsize) around (omega arith))
            ∙ >>=-some (read_from fs f ip (off + chunk off n) (n - chunk off n)) _ m m _ rest
            ∙ ap (λ l. some ((l, ip), m))
                (ap (λ l. l ++ slice (content at m.cache) (off + chunk off n) (n - chunk off n))
                    (here m off n)
                  ∙ slice-append (content at m.cache) off (chunk off n) (n - chunk off n)
                  ∙ ap (slice (content at m.cache) off) whole))
  ]
    where
      here :
          (m : Machine) (off n : ℕ)
          → slice (m.cache (at (off / bsize))) (off % bsize) (chunk off n)
            ≡ slice (content at m.cache) off (chunk off n)
      here m off n =
          slice-cong (m.cache (at (off / bsize))) (content at m.cache) (off % bsize) off
            (chunk off n)
            (λ i l.
              let q : (off + i) / bsize ≡ off / bsize = omega arith in
              let r : (off + i) % bsize ≡ off % bsize + i = omega arith in rw (q, r) refl)

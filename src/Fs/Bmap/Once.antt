-- ===== src/Fs/Bmap/Once.antt =====
-- `bmap` on an inode: the address that it returns is the address that it goes on to return.
use hyu_2020_operating_syste.Base.{
  ℕ, ◌^◌, ◌≤◌, ◌<◌, ◌≡◌, ◌≢◌, ◌⊎◌, inl, inr, ◌∙◌, refl, sym, subst, Bool, true, false, Option, none,
  some, List, ◌==◌, if◌then◌else◌, arith, eq→==, ne→==, Option-cases, update, update_self,
}
use hyu_2020_operating_syste.Block.{Disk}
use hyu_2020_operating_syste.Log.{Machine}
use hyu_2020_operating_syste.Fs.{Mount, ◌>>=◌, pure, >>=-eq-some, >>=-some}
use hyu_2020_operating_syste.Fs.Bitmap.{block_used, balloc}
use hyu_2020_operating_syste.Fs.Bitmap.Alloc.{Sound, balloc_lem, free-ne-bblock}
use hyu_2020_operating_syste.Fs.Bmap.{Inode, root, bmap}
use hyu_2020_operating_syste.Fs.Bmap.Position.{place, follow, at_place, bmap-at_place}
use hyu_2020_operating_syste.Fs.Bmap.Walk.{resolve, Chain}
use hyu_2020_operating_syste.Fs.Bmap.Fresh.{fresh-Chain, used_or_free}
use hyu_2020_operating_syste.Fs.Bmap.Stable.{follow-Walked, follow-resolve}

module _ (fs : Mount) where
  -- The tables of an inode's file are plain blocks, no two on a way the same.
  abbrev pub WellMapped : Disk → Inode → Type 0
  WellMapped c ip =
      (bn k : ℕ) (is : List ℕ)
      → place bn ≡ some (k, is)
      → (ip.addrs k ≡ 0) ⊎ ((ip.addrs k ≢ 0) × Chain fs c (ip.addrs k) is)

  -- What `root` hands to the walk.
  record Rooted (ip : Inode) (k : ℕ) (is : List ℕ) (a : ℕ) (ip' : Inode) (m1 : Machine)
      : Type 0 where
    sound : Sound fs m1.cache
    boot : block_used fs m1.cache 0 ≡ true
    chain : Chain fs m1.cache a is
    nonzero : a ≢ 0
    entry : ip'.addrs k ≡ a

  returned :
      {A B : Type 0} {a a' : A} {b b' : B} {m m' : Machine}
      → ◌≡◌ {A = Option ((A × B) × Machine)} (some ((a, b), m)) (some ((a', b'), m'))
      → (a ≡ a') × (b ≡ b') × (m ≡ m')
  returned e = (cc, cc, cc)

  Rooted-cong :
      (ip : Inode) (k : ℕ) (is : List ℕ) (a a' : ℕ) (i i' : Inode) (m m' : Machine)
      → ◌≡◌ {A = Option ((ℕ × Inode) × Machine)} (some ((a, i), m)) (some ((a', i'), m'))
      → Rooted ip k is a i m
      → Rooted ip k is a' i' m'
  Rooted-cong ip k is a a' i i' m m' e h =
      let (ea, ei, em) = returned e in
      subst (λ x. Rooted ip k is x i' m') ea
        (subst (λ x. Rooted ip k is a x m') ei (subst (λ x. Rooted ip k is a i x) em h))

  root-Rooted :
      (ip : Inode) (k : ℕ) (is : List ℕ) (m : Machine) {a : ℕ} {ip' : Inode} {m1 : Machine}
      → 0 < fs.size
      → Sound fs m.cache
      → block_used fs m.cache 0 ≡ true
      → ((ip.addrs k ≡ 0) ⊎ ((ip.addrs k ≢ 0) × Chain fs m.cache (ip.addrs k) is))
      → root fs ip k m ≡ some ((a, ip'), m1)
      → Rooted ip k is a ip' m1
  unfolding root
  root-Rooted ip k is m {a} {ip'} {m1} pos s boot (inr (ne, c)) e =
      Rooted-cong ip k is (ip.addrs k) a ip ip' m m1 (rw (ne→== (ip.addrs k) 0 ne) at e)
        (record { sound = s; boot = boot; chain = c; nonzero = ne; entry = refl })
  root-Rooted ip k is m {a} {ip'} {m1} pos s boot (inl z) e =
      let e' : (balloc fs >>= λ r. pure (r, record ip { addrs = update ip.addrs k r })) m
          ≡ some ((a, ip'), m1) =
        (rw (eq→== (ip.addrs k) 0 z) at e) in
      let (r, m2, eb, k2) =
        >>=-eq-some (balloc fs) (λ r. pure (r, record ip { addrs = update ip.addrs k r })) m e' in
      let (f, zero, bits, others, s1) = balloc_lem fs m s eb in
      Rooted-cong ip k is r a (record ip { addrs = update ip.addrs k r }) ip' m2 m1 k2
        (record {
          sound = s1;
          boot = bits 0 pos ∙ stays (0 == r) boot;
          chain =
              fresh-Chain fs m2.cache r
                (record {
                  inside = f.inside;
                  used = bits r f.inside ∙ rw (eq→== r r refl);
                  no_bitmap = λ b hb e. free-ne-bblock fs m.cache r b s f.inside f.free hb (sym e);
                })
                zero is;
          nonzero = λ e. used_or_free fs m.cache 0 r boot f.free (sym e);
          entry = update_self ip.addrs k r;
        })
    where
      stays : (b : Bool) {u : Bool} → u ≡ true → (if b then true else u) ≡ true
      stays true h = refl
      stays false h = h

  root-there :
      (ip : Inode) (k a : ℕ) (m : Machine)
      → a ≢ 0
      → ip.addrs k ≡ a
      → root fs ip k m ≡ some ((a, ip), m)
  unfolding root
  root-there ip k a m ne e = rw (e, ne→== a 0 ne)

  -- Where the way is there, `bmap` only reads it.
  pub bmap_again :
      (ip : Inode) (bn k : ℕ) (is : List ℕ) (m : Machine) (a addr : ℕ)
      → place bn ≡ some (k, is)
      → a ≢ 0
      → ip.addrs k ≡ a
      → resolve m.cache a is ≡ addr
      → addr ≢ 0
      → bmap fs ip bn m ≡ some ((addr, ip), m)
  unfolding at_place
  bmap_again ip bn k is m a addr p na ea er nr =
      bmap-at_place fs ip bn m
      ∙ rw p (
          >>=-some (root fs ip k) (λ (x : ℕ × Inode). follow fs x.0 is >>= λ addr. pure (addr, x.1))
            m m (a, ip) (root-there ip k a m na ea)
          ∙ >>=-some (follow fs a is) (λ addr. pure (addr, ip)) m m addr walk)
    where
      walk : follow fs a is m ≡ some (addr, m)
      walk = subst (λ x. follow fs a is m ≡ some (x, m)) er (follow-resolve fs is m a (rw er nr))

  -- On a sound bitmap of at most 2 ^ 32 blocks with block 0 in use, and for an inode whose tables are
  -- blocks in use outside the bitmap, no two on one way the same, if a call of `bmap` returns, its address is not 0, the bitmap stays sound, and the same call on the inode and the disk
  -- that it left returns the same address with no further change.
  pub bmap_twice :
      (ip : Inode) (bn : ℕ) (m : Machine) {addr : ℕ} {ip' : Inode} {m' : Machine}
      → fs.size ≤ 2 ^ 32
      → 0 < fs.size
      → Sound fs m.cache
      → block_used fs m.cache 0 ≡ true
      → WellMapped m.cache ip
      → bmap fs ip bn m ≡ some ((addr, ip'), m')
      → (addr ≢ 0) × (bmap fs ip' bn m' ≡ some ((addr, ip'), m')) × Sound fs m'.cache
  unfolding at_place
  bmap_twice ip bn m {addr} {ip'} {m'} words pos s boot w e = elim (Option-cases (place bn)) [
    | inl n ↦ absurd (out n (sym (bmap-at_place fs ip bn m) ∙ e))
    | inr ((k, is), p) ↦ inside k is p (sym (bmap-at_place fs ip bn m) ∙ e)
  ]
    where
      out : place bn ≡ none → at_place fs ip (place bn) m ≡ some ((addr, ip'), m') → ⊥
      out n h = ground arith

      inside :
          (k : ℕ) (is : List ℕ)
          → place bn ≡ some (k, is)
          → at_place fs ip (place bn) m ≡ some ((addr, ip'), m')
          → (addr ≢ 0) × (bmap fs ip' bn m' ≡ some ((addr, ip'), m')) × Sound fs m'.cache
      inside k is p h =
          let h' : at_place fs ip (some (k, is)) m ≡ some ((addr, ip'), m') = (rw p at h) in
          let ((a, ip1), m1, e1, r1) =
            >>=-eq-some (root fs ip k)
              (λ (x : ℕ × Inode). follow fs x.0 is >>= λ addr. pure (addr, x.1)) m h' in
          let (addr2, m2, e2, r2) = >>=-eq-some (follow fs a is) (λ addr. pure (addr, ip1)) m1 r1 in
          let (ea, ei, em) = returned r2 in
          let h1 = root-Rooted ip k is m pos s boot (w bn k is p) e1 in
          let w1 = follow-Walked fs is m1 a words pos h1.sound h1.boot h1.chain e2 in
          let ne : addr2 ≢ 0 = w1.mapped h1.nonzero in
          let again = bmap_again ip1 bn k is m2 a addr2 p h1.nonzero h1.entry w1.resolves ne in
          (
            subst (λ (x : ℕ). x ≢ 0) ea ne,
            subst (λ x. bmap fs ip' bn m' ≡ some ((x, ip'), m')) ea
                (subst (λ x. bmap fs x bn m' ≡ some ((addr2, x), m')) ei
                  (subst (λ x. bmap fs ip1 bn x ≡ some ((addr2, ip1), x)) em again)),
            subst (λ (x : Machine). Sound fs x.cache) em w1.sound,
          )

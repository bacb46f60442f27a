-- ===== src/Fs/Bmap/Stable.antt =====
-- `bmap` maps a block once: the next call finds the same address and changes nothing.
use hyu_2020_operating_syste.Base.{
  ℕ, ◌^◌, ◌≤◌, ◌<◌, ◌≡◌, ◌≢◌, inl, inr, ◌∙◌, refl, ap, true, some, List, [], ◌∷◌, arith, Absent,
  eq→==, ne→==, eq_cases,
}
use hyu_2020_operating_syste.Block.{Block, get_word}
use hyu_2020_operating_syste.Log.{Machine}
use hyu_2020_operating_syste.Fs.{Mount, ◌>>=◌, >>=-eq-some}
use hyu_2020_operating_syste.Fs.Bitmap.{block_used}
use hyu_2020_operating_syste.Fs.Bitmap.Alloc.{Sound}
use hyu_2020_operating_syste.Fs.Bmap.{slot}
use hyu_2020_operating_syste.Fs.Bmap.Position.{follow}
use hyu_2020_operating_syste.Fs.Bmap.Walk.{resolve, tables, Plain, Chain, Walked, slot-there}
use hyu_2020_operating_syste.Fs.Bmap.Fresh.{Filled, slot-Filled}

module _ (fs : Mount) where
  Plain-kept :
      (m m2 : Machine) (x : ℕ)
      → ((x : ℕ) → x < fs.size → block_used fs m.cache x ≡ true → block_used fs m2.cache x ≡ true)
      → Plain fs m.cache x
      → Plain fs m2.cache x
  Plain-kept m m2 x k p = record {
    inside = p.inside;
    used = k x p.inside p.used;
    no_bitmap = p.no_bitmap;
  }

  -- An entry that is followed: the rest of the walk leaves it alone.
  there :
      (m : Machine) (a i : ℕ) (is : List ℕ) (addr : ℕ) (m' : Machine)
      → get_word (m.cache a) i ≢ 0
      → Plain fs m.cache a
      → Absent a (tables m.cache (get_word (m.cache a) i) is)
      → Walked fs m (get_word (m.cache a) i) is addr m'
      → Walked fs m a (i ∷ is) addr m'
  unfolding resolve tables
  there m a i is addr m' ne p ab w =
      let e = w.same a p ab in
      let t = ne→== (get_word (m.cache a) i) 0 ne in
      record {
        sound = w.sound;
        resolves = rw (e, t) w.resolves;
        mapped = λ _. w.mapped ne;
        same = λ x px. rw t (λ ax. w.same x px ax.1);
        kept = w.kept;
      }

  missing :
      (m m2 : Machine) (a i r : ℕ) (is : List ℕ) (addr : ℕ) (m' : Machine)
      → get_word (m.cache a) i ≡ 0
      → Plain fs m.cache a
      → Filled fs m a i r m2
      → Walked fs m2 r is addr m'
      → Walked fs m a (i ∷ is) addr m'
  unfolding resolve tables
  missing m m2 a i r is addr m' z p f w =
      let stays = (λ (x : ℕ) (px : Plain fs m.cache x).
        w.same x (Plain-kept m m2 x f.kept px) (f.apart x is px)) in
      let e : get_word (m'.cache a) i ≡ r =
        ap (λ (b : Block). get_word b i) (stays a p) ∙ f.entry in
      record {
        sound = w.sound;
        resolves = rw (e, ne→== r 0 f.nonzero) w.resolves;
        mapped = λ _. w.mapped f.nonzero;
        same = λ x px ax. stays x px ∙ f.same x px ax.0;
        kept = λ x hx u. w.kept x hx (f.kept x hx u);
      }

  pub follow-Walked :
      (is : List ℕ) (m : Machine) (a : ℕ) {addr : ℕ} {m' : Machine}
      → fs.size ≤ 2 ^ 32
      → 0 < fs.size
      → Sound fs m.cache
      → block_used fs m.cache 0 ≡ true
      → Chain fs m.cache a is
      → follow fs a is m ≡ some (addr, m')
      → Walked fs m a is addr m'
  unfolding follow resolve
  follow-Walked [] m a {addr} {m'} words pos s boot c e =
      let ea : a ≡ addr = ground arith in
      let em : m ≡ m' = ground arith in
      rw (← ea, ← em)
        (record {
          sound = s;
          resolves = refl;
          mapped = λ n. n;
          same = λ x px ax. refl;
          kept = λ x hx u. u;
        })
  follow-Walked (i ∷ is) m a {addr} {m'} words pos s boot c e =
      let (b, m2, e1, e2) = >>=-eq-some (slot fs a i) (λ b. follow fs b is) m e in
      elim (eq_cases (get_word (m.cache a) i) 0) [
        | inl z ↦
            let f = slot-Filled fs m a i words pos s boot c.0 z e1 in
            missing m m2 a i b is addr m' z c.0 f
              (follow-Walked is m2 b words pos f.sound (f.kept 0 pos boot) (f.chain is) e2)
        | inr ne ↦ elim c.1 [
          | inl z ↦ absurd (ne z)
          | inr (_, ch, ab) ↦
              let t = slot-there fs a i m ne in
              let eb : b ≡ get_word (m.cache a) i = ground arith in
              let em : m2 ≡ m = ground arith in
              there m a i is addr m' ne c.0 ab (
                follow-Walked is m (get_word (m.cache a) i) words pos s boot ch (rw (eb, em) at e2))
        ]
      ]

  -- Where nothing is missing, the walk only reads.
  pub follow-resolve :
      (is : List ℕ) (m : Machine) (a : ℕ)
      → resolve m.cache a is ≢ 0
      → follow fs a is m ≡ some (resolve m.cache a is, m)
  unfolding follow resolve
  follow-resolve [] m a h = refl
  follow-resolve (i ∷ is) m a h = elim (eq_cases (get_word (m.cache a) i) 0) [
    | inl z ↦ absurd (h (rw (eq→== (get_word (m.cache a) i) 0 z)))
    | inr ne ↦
        let t = ne→== (get_word (m.cache a) i) 0 ne in
        let rest : resolve m.cache (get_word (m.cache a) i) is ≢ 0 = (rw t at h) in
        rw (t, slot-there fs a i m ne, ◌>>=◌) (follow-resolve is m (get_word (m.cache a) i) rest)
  ]

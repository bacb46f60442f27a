-- ===== src/Fs/Data/Overwrite.antt =====
-- Writing in the part of a file whose blocks are there.
use hyu_2020_operating_syste.Base.{
  ℕ, zero, suc, ◌+◌, ◌-◌, ◌*◌, ◌/◌, ◌%◌, ◌^◌, ◌<◌, ◌≤◌, ◌≡◌, ◌≢◌, ◌∙◌, ◌⊎◌, inl, inr, sym, ap, refl,
  List, arith, length, get_or, ltb, some, eq_cases, eq→==, ne→==, update, update_self, update_ne,
  Bool-cases,
}
use hyu_2020_operating_syste.Block.{Disk}
use hyu_2020_operating_syste.Log.{Machine}
use hyu_2020_operating_syste.Fs.{Mount, >>=-some, write_block}
use hyu_2020_operating_syste.Fs.Room.{Room, write_block-Room, Room-mono}
use hyu_2020_operating_syste.Fs.Bmap.{Inode, bmap}
use hyu_2020_operating_syste.Fs.Data.{bsize, chunk, splice, drop, write_from}
use hyu_2020_operating_syste.Fs.Data.Extent.{Laid, content, Around, bmap-Laid}
use hyu_2020_operating_syste.Fs.Data.Slices.{
  length-drop, get_or-drop, splice-inside, splice-outside,
}

before_or_after : (p q : ℕ) → (p < q) ⊎ (q ≤ p)
before_or_after p q = elim (Bool-cases (ltb p q)) [
  | inl h ↦ inl (ground arith)
  | inr h ↦ inr (ground arith)
]

module _ (fs : Mount) (c : Disk) (ip : Inode) (at : ℕ → ℕ) (blocks : ℕ)
    (laid : Laid c ip at blocks) where
  -- What a write of `src` at `off` leaves: the run is `src`, the rest of the file is as before, and so
  -- are the blocks that are none of the file's.
  pub record Wrote (off : ℕ) (src : List ℕ) (k : ℕ) (m m' : Machine) : Type 0 where
    pub inside :
        (p : ℕ) → off ≤ p → p < off + length src → content at m'.cache p ≡ get_or src (p - off) 0
    pub outside :
        (p : ℕ)
        → p < blocks * bsize
        → ((p < off) ⊎ (off + length src ≤ p))
        → content at m'.cache p ≡ content at m.cache p
    pub around : Around fs c ip at blocks laid m'
    pub room : Room fs k m'

  Wrote-nothing :
      (off : ℕ) (src : List ℕ) (k : ℕ) (m : Machine)
      → length src ≡ 0
      → Around fs c ip at blocks laid m
      → Room fs k m
      → Wrote off src k m m
  Wrote-nothing off src k m z around room = record {
    inside = λ p l r. absurd (omega arith);
    outside = λ p l s. refl;
    around = around;
    room = room;
  }

  -- One round of the loop, on the bytes of the block.
  module _ (off : ℕ) (src : List ℕ) (cut : ℕ) (m m1 : Machine) where
    pub record Round : Type 0 where
      pub c_is : cut ≡ chunk off (length src)
      pub h : off + length src ≤ blocks * bsize
      pub q : off / bsize < blocks
      pub u :
          m1.cache
          ≡ update m.cache
              (at (off / bsize))
              (splice (m.cache (at (off / bsize))) (off % bsize) cut src)

    module _ (g : Round) where
      round-inside :
          (p : ℕ) → off ≤ p → p < off + cut → content at m1.cache p ≡ get_or src (p - off) 0
      round-inside p l r =
          let e : p / bsize ≡ off / bsize = omega arith in
          let d : p % bsize - off % bsize ≡ p - off = omega arith in
          ap (λ a. m1.cache (at a) (p % bsize)) e
          ∙ ap (λ a. a (at (off / bsize)) (p % bsize)) g.u
          ∙ ap (λ a. a (p % bsize)) (update_self m.cache (at (off / bsize)) _)
          ∙ splice-inside (m.cache (at (off / bsize))) (off % bsize) cut src (p % bsize)
              (omega arith) (omega arith)
          ∙ ap (λ i. get_or src i 0) d

      round-outside :
          (p : ℕ)
          → p < blocks * bsize
          → ((p < off) ⊎ (off + cut ≤ p))
          → content at m1.cache p ≡ content at m.cache p
      round-outside p l s = elim (eq_cases (p / bsize) (off / bsize)) [
        | inl e ↦
            ap (λ a. m1.cache (at a) (p % bsize)) e
            ∙ ap (λ a. a (at (off / bsize)) (p % bsize)) g.u
            ∙ ap (λ a. a (p % bsize)) (update_self m.cache (at (off / bsize)) _)
            ∙ splice-outside (m.cache (at (off / bsize))) (off % bsize) cut src (p % bsize)
                (elim s [ inl b ↦ inl (omega arith) | inr b ↦ inr (omega arith) ])
            ∙ ap (λ a. m.cache (at a) (p % bsize)) (sym e)
        | inr ne ↦
            ap (λ a. a (at (p / bsize)) (p % bsize)) g.u
            ∙ ap (λ a. a (p % bsize))
                (update_ne m.cache (at (off / bsize)) (at (p / bsize)) _
                  (λ e. ne (laid.apart (p / bsize) (off / bsize) (omega arith) g.q e)))
      ]

      round-Around : Around fs c ip at blocks laid m → Around fs c ip at blocks laid m1
      round-Around around x f =
          ap (λ a. a x) g.u
          ∙ update_ne m.cache (at (off / bsize)) x _ (f (off / bsize) g.q)
          ∙ around x f

      put_chunk :
          {k : ℕ} {m' : Machine} → Wrote (off + cut) (drop cut src) k m1 m' → Wrote off src k m m'
      put_chunk {m' = m'} w =
          let e = length-drop cut src in
          record {
            inside = λ p l r. elim (before_or_after p (off + cut)) [
              | inl b ↦
                  w.outside p (omega arith) (inl (omega arith)) ∙ round-inside p l (omega arith)
              | inr b ↦
                  let d : cut + (p - (off + cut)) ≡ p - off = omega arith in
                  w.inside p (omega arith) (omega arith)
                  ∙ get_or-drop cut (p - (off + cut)) src
                  ∙ ap (λ i. get_or src i 0) d
            ];
            outside = λ p l s.
                w.outside p l (elim s [ inl b ↦ inl (omega arith) | inr b ↦ inr (omega arith) ])
                ∙ round-outside p l (elim s [ inl b ↦ inl b | inr b ↦ inr (omega arith) ]);
            around = w.around;
            room = w.room;
          }

  write_step :
      (f off : ℕ) (src : List ℕ) (m m1 : Machine)
      → Around fs c ip at blocks laid m
      → length src ≢ 0
      → Round off src (chunk off (length src)) m m1
      → off + chunk off (length src) < 2 ^ 32
      → write_block fs
          (at (off / bsize))
          (splice (m.cache (at (off / bsize))) (off % bsize) (chunk off (length src)) src)
          m
        ≡ some (tt, m1)
      → write_from fs (suc f) ip off src m
        ≡ write_from fs f ip (off + chunk off (length src)) (drop (chunk off (length src)) src) m1
  unfolding write_from
  write_step f off src m m1 around nz g w e1 =
      let o = ne→== (length src) 0 nz in
      let step : (off + chunk off (length src)) % 2 ^ 32 ≡ off + chunk off (length src) =
        omega arith in
      rw (o, step)
        (>>=-some (bmap fs ip (off / bsize)) _ m m (at (off / bsize), ip)
            (bmap-Laid fs c ip at blocks laid m (off / bsize) around g.q)
          ∙ >>=-some (write_block fs (at (off / bsize)) _) _ m m1 tt e1)

  pub write_from-Laid :
      (f off : ℕ) (src : List ℕ) (t k : ℕ) (m : Machine)
      → Around fs c ip at blocks laid m
      → Room fs (t + k) m
      → ((length src ≡ 0) ⊎ (off % bsize + length src ≤ t * bsize))
      → length src ≤ f
      → off + length src ≤ blocks * bsize
      → off + length src < 2 ^ 32
      → (m' : Machine) × (write_from fs f ip off src m ≡ some ((off + length src, ip), m'))
        × Wrote off src k m m'
  unfolding write_from
  write_from-Laid zero off src t k m around room fits e h w =
      let z : length src ≡ 0 = omega arith in
      let s : off + length src ≡ off = omega arith in
      (
        m,
        ap (λ t. some ((t, ip), m)) (sym s),
        Wrote-nothing off src k m z around (Room-mono fs _ _ m (omega arith) room),
      )
  write_from-Laid (suc f) off src t k m around room fits e h w = elim (eq_cases (length src) 0) [
    | inl z ↦
        let s : off + length src ≡ off = omega arith in
        (
          m,
          rw (eq→== (length src) 0 z) (ap (λ t. some ((t, ip), m)) (sym s)),
          Wrote-nothing off src k m z around (Room-mono fs _ _ m (omega arith) room),
        )
    | inr nz ↦
        let cut = chunk off (length src) in
        let (m1, e1, u, room1) =
          write_block-Room fs (t + k - 1) (at (off / bsize))
            (splice (m.cache (at (off / bsize))) (off % bsize) cut src) m
            (Room-mono fs _ _ m (omega arith) room) in
        let g : Round off src cut m m1 = record { c_is = refl; h = h; q = omega arith; u = u } in
        let l = length-drop cut src in
        let some_room : 1 ≤ t = elim fits [ inl z ↦ absurd (nz z) | inr b ↦ omega arith ] in
        let more : (length (drop cut src) ≡ 0)
            ⊎ ((off + cut) % bsize + length (drop cut src) ≤ (t - 1) * bsize) =
          elim (eq_cases (length (drop cut src)) 0) [
            | inl z ↦ inl z
            | inr more ↦ inr (elim fits [ inl z ↦ absurd (nz z) | inr b ↦ omega arith ])
          ] in
        let (m', e2, wrote) =
          write_from-Laid f (off + cut) (drop cut src) (t - 1) k m1
            (round-Around off src cut m m1 g around) (Room-mono fs _ _ m1 (omega arith) room1) more
            (omega arith) (omega arith) (omega arith) in
        let end : off + cut + length (drop cut src) ≡ off + length src = omega arith in
        (
          m',
          write_step f off src m m1 around nz g (omega arith) e1
              ∙ e2
              ∙ ap (λ z. some ((z, ip), m')) end,
          put_chunk off src cut m m1 g wrote,
        )
  ]

-- ===== src/Fs/Data/Calls.antt =====
-- `readi` and `writei` on a file whose blocks are there.
use hyu_2020_operating_syste.Base.{
  ℕ, ◌+◌, ◌-◌, ◌*◌, ◌%◌, ◌^◌, ◌<◌, ◌≤◌, ◌≡◌, ◌≢◌, ◌∙◌, ◌⊎◌, inl, inr, ap, refl, List, arith, length,
  get_or, true, false, ltb, ◌&&◌, ◌||◌, not, if◌then◌else◌, none, some, ◌==◌, ne→==, min, Bool,
}
use hyu_2020_operating_syste.Block.{Disk}
use hyu_2020_operating_syste.Log.{Machine}
use hyu_2020_operating_syste.Fs.{Mount, >>=-some}
use hyu_2020_operating_syste.Fs.Room.{Room}
use hyu_2020_operating_syste.Fs.Bmap.{Inode}
use hyu_2020_operating_syste.Fs.Data.{
  bsize, maxfile, t_dev, Device, slice, read_from, write_from, readi, writei,
}
use hyu_2020_operating_syste.Fs.Data.Slices.{slice-cong, slice_of_list}
use hyu_2020_operating_syste.Fs.Data.Extent.{Laid, content, Around, read_from-Laid}
use hyu_2020_operating_syste.Fs.Data.Overwrite.{write_from-Laid}

past :
    (size off n : ℕ)
    → off < 2 ^ 32
    → n < 2 ^ 32
    → ((size < off) ⊎ (2 ^ 32 ≤ off + n))
    → (ltb size off || ltb ((off + n) % 2 ^ 32) off) ≡ true
past size off n h w (inl b) = ground arith
past size off n h w (inr b) = let e : (off + n) % 2 ^ 32 < off = omega arith in ground (arith, e)

module _ (fs : Mount) (devsw : ℕ → Device) where
  -- `off > ip->size || off + n < off`, with the sum of 32 bits
  abbrev pub out_of_range : Inode → ℕ → ℕ → Bool
  out_of_range ip off n = ltb ip.size off || ltb ((off + n) % 2 ^ 32) off

  range_ok :
      (ip : Inode) (off n : ℕ) → off ≤ ip.size → off + n < 2 ^ 32 → out_of_range ip off n ≡ false
  range_ok ip off n h w = let e : (off + n) % 2 ^ 32 ≡ off + n = omega arith in rw e (ground arith)

  range_bad :
      (ip : Inode) (off n : ℕ)
      → off < 2 ^ 32
      → n < 2 ^ 32
      → ((ip.size < off) ⊎ (2 ^ 32 ≤ off + n))
      → out_of_range ip off n ≡ true
  range_bad ip off n h w b = past ip.size off n h w b

  clipped :
      (size off n : ℕ)
      → off ≤ size
      → (if ltb size (off + n) then size - off else n) ≡ min n (size - off)
  clipped size off n h = ground arith

  module _ (c : Disk) (ip : Inode) (at : ℕ → ℕ) (blocks : ℕ) (laid : Laid c ip at blocks) where
    -- With the data blocks changed only since `c`.
    read_within :
        (off n : ℕ) (m : Machine)
        → ip.type ≢ t_dev
        → Around fs c ip at blocks laid m
        → ip.size ≤ blocks * bsize
        → off ≤ ip.size
        → off + n < 2 ^ 32
        → readi fs devsw ip off n m
          ≡ some ((some (slice (content at m.cache) off (min n (ip.size - off))), ip), m)
    unfolding readi
    read_within off n m file around size h w =
        let d = ne→== ip.type t_dev file in
        rw (d, range_ok ip off n h w, clipped ip.size off n h)
          (>>=-some (read_from fs (min n (ip.size - off)) ip off (min n (ip.size - off))) _ m m _ (
            read_from-Laid fs c ip at blocks laid (min n (ip.size - off)) off
              (min n (ip.size - off)) m around (omega arith) (omega arith) (omega arith)))

    read_all :
        (off n : ℕ) (m : Machine) (bs : List ℕ)
        → ip.type ≢ t_dev
        → Around fs c ip at blocks laid m
        → ip.size ≤ blocks * bsize
        → off + n ≤ ip.size
        → ip.size < 2 ^ 32
        → slice (content at m.cache) off n ≡ bs
        → readi fs devsw ip off n m ≡ some ((some bs, ip), m)
    read_all off n m bs file around size h w e =
        let whole : min n (ip.size - off) ≡ n = omega arith in
        read_within off n m file around size (omega arith) (omega arith)
        ∙ ap (λ l. some ((some (slice (content at m.cache) off l), ip), m)) whole
        ∙ ap (λ bs'. some ((some bs', ip), m)) e

  write_within :
      (ip : Inode) (off : ℕ) (src : List ℕ) (m m' : Machine)
      → ip.type ≢ t_dev
      → ip.size ≤ maxfile * bsize
      → off + length src ≤ ip.size
      → write_from fs (length src) ip off src m ≡ some ((off + length src, ip), m')
      → writei fs devsw ip off src m ≡ some ((some (length src), ip), m')
  unfolding writei
  write_within ip off src m m' file big h e =
      let d = ne→== ip.type t_dev file in
      let fits : ltb (maxfile * bsize) (off + length src) ≡ false = ground arith in
      let same : (not (length src == 0) && ltb ip.size (off + length src)) ≡ false = ground arith in
      rw (d, range_ok ip off (length src) (omega arith) (omega arith), fits)
        (>>=-some (write_from fs (length src) ip off src) _ m m' _ e ∙ rw same refl)

  -- With the blocks below the size of a file there, and numbers of 32 bits, a read that starts past
  -- the end, or whose end does not fit in 32 bits, is -1; any other one returns the bytes of the file from
  -- `off` on, `n` of them or as many as there are before the end, and changes nothing.
  pub readi_lem :
      (ip : Inode) (at : ℕ → ℕ) (blocks off n : ℕ) (m : Machine)
      → ip.type ≢ t_dev
      → Laid m.cache ip at blocks
      → ip.size ≤ blocks * bsize
      → off < 2 ^ 32
      → n < 2 ^ 32
      → (((ip.size < off) ⊎ (2 ^ 32 ≤ off + n)) → readi fs devsw ip off n m ≡ some ((none, ip), m))
        × (off ≤ ip.size
            → off + n < 2 ^ 32
            → readi fs devsw ip off n m
              ≡ some ((some (slice (content at m.cache) off (min n (ip.size - off))), ip), m))
  unfolding readi
  readi_lem ip at blocks off n m file laid size wo wn =
      let d = ne→== ip.type t_dev file in
      (
        λ b. rw (d, range_bad ip off n wo wn b) refl,
        λ h w. read_within m.cache ip at blocks laid off n m file (λ x f. refl) size h w,
      )

  -- With the blocks below the size there and room in the log for the blocks that the bytes touch, a
  -- write of `src` within the size of the file takes all of it and leaves the inode as it is. A read of
  -- that range then returns `src`, and a read of a range that does not meet it returns what it did.
  pub readi-writei :
      (ip : Inode) (at : ℕ → ℕ) (blocks off : ℕ) (src : List ℕ) (t k : ℕ) (m : Machine)
      → ip.type ≢ t_dev
      → Laid m.cache ip at blocks
      → ip.size ≤ blocks * bsize
      → ip.size ≤ maxfile * bsize
      → off + length src ≤ ip.size
      → Room fs (t + k) m
      → off % bsize + length src ≤ t * bsize
      → (m' : Machine) × (writei fs devsw ip off src m ≡ some ((some (length src), ip), m'))
        × (readi fs devsw ip off (length src) m' ≡ some ((some src, ip), m'))
        × ((o n : ℕ)
            → o + n ≤ ip.size
            → ((o + n ≤ off) ⊎ (off + length src ≤ o))
            → (bs : List ℕ) × (readi fs devsw ip o n m ≡ some ((some bs, ip), m))
              × (readi fs devsw ip o n m' ≡ some ((some bs, ip), m')))
        × Room fs k m'
  readi-writei ip at blocks off src t k m file laid size big h room fits =
      let (m', e, w) =
        write_from-Laid fs m.cache ip at blocks laid (length src) off src t k m (λ x f. refl) room
          (inr fits) (omega arith) (omega arith) (omega arith) in
      (
        m',
        write_within ip off src m m' file big h e,
        read_all m.cache ip at blocks laid off (length src) m' src file w.around size h
            (omega arith)
            (slice_of_list (content at m'.cache) off src (λ i l.
              let d : off + i - off ≡ i = omega arith in
              w.inside (off + i) (omega arith) (omega arith) ∙ ap (λ z. get_or src z 0) d)),
        λ o n r apart. (
          slice (content at m.cache) o n,
          read_all m.cache ip at blocks laid o n m _ file (λ x f. refl) size r (omega arith) refl,
          read_all m.cache ip at blocks laid o n m' _ file w.around size r (omega arith) (
              slice-cong (content at m'.cache) (content at m.cache) o o n (λ i l.
                w.outside (o + i) (omega arith)
                  (elim apart [ inl b ↦ inl (omega arith) | inr b ↦ inr (omega arith) ]))),
        ),
        w.room,
      )

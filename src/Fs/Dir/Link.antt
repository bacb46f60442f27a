-- ===== src/Fs/Dir/Link.antt =====
-- `dirlink` into an empty entry, and `dirlookup` after it.
use hyu_2020_operating_syste.Base.{
  ℕ, ◌+◌, ◌-◌, ◌*◌, ◌/◌, ◌^◌, ◌<◌, ◌≤◌, ◌≡◌, ◌≢◌, ◌∙◌, ◌⊎◌, refl, sym, ap, false, List, length,
  arith, inl, inr, Option, none, some, update, update-cases, min,
}
use hyu_2020_operating_syste.Block.{Disk}
use hyu_2020_operating_syste.Log.{Machine}
use hyu_2020_operating_syste.Fs.{Mount, >>=-some}
use hyu_2020_operating_syste.Fs.Room.{Room}
use hyu_2020_operating_syste.Fs.Bmap.{Inode}
use hyu_2020_operating_syste.Fs.Path.{dirsiz}
use hyu_2020_operating_syste.Fs.Data.{Device, bsize, maxfile, slice, readi, writei}
use hyu_2020_operating_syste.Fs.Data.Extent.{Laid, content}
use hyu_2020_operating_syste.Fs.Data.Calls.{readi_lem, readi-writei}
use hyu_2020_operating_syste.Fs.Dir.{
  Dirent, linked, decode_dirent, encode_dirent, dirent_size, namecmp, strncpy, t_dir, dirlookup,
  dirlink, empty_from,
}
use hyu_2020_operating_syste.Fs.Dir.Names.{
  strncmp_self, strncmp-strncpy, length-strncpy, decode-encode_dirent,
}
use hyu_2020_operating_syste.Fs.Dir.Lookup.{
  Entries, search_name, search_empty, dirlookup-Entries, empty_from-Entries,
}
use hyu_2020_operating_syste.Fs.Dir.Search.{search_empty-found, search_other, search_new}

-- the bytes of entry `i`
abbrev pub dir_entries : (ℕ → ℕ) → Disk → ℕ → List ℕ
dir_entries at c i = slice (content at c) (16 * i) 16

-- the entry that `dirlink` writes
abbrev new_entry : List ℕ → ℕ → List ℕ
new_entry name inum = encode_dirent (record { inum = inum; name = strncpy dirsiz name })

module _ (fs : Mount) (devsw : ℕ → Device) (dp : Inode) (n : ℕ) where
  Laid-Entries :
      (at : ℕ → ℕ) (blocks : ℕ) (m : Machine)
      → dp.type ≡ t_dir
      → Laid m.cache dp at blocks
      → dp.size ≡ 16 * n
      → dp.size ≤ blocks * bsize
      → dp.size + 16 < 2 ^ 32
      → Entries fs devsw dp n (dir_entries at m.cache) m
  unfolding slice
  Laid-Entries at blocks m d laid size fits small = record {
    size = size;
    small = small;
    read = λ i h.
        let whole : min 16 (dp.size - 16 * i) ≡ 16 = omega arith in
        (readi_lem fs devsw dp at blocks (16 * i) 16 m (λ e. absurd (omega arith)) laid fits
            (omega arith) (omega arith)).1
          (omega arith) (omega arith)
        ∙ ap (λ l. some ((some (slice (content at m.cache) (16 * i) l), dp), m)) whole;
    long = λ i h. refl;
  }

  -- The entries after a write of entry `j`.
  written-Entries :
      (es : ℕ → List ℕ) (j : ℕ) (bs : List ℕ) (m m' : Machine)
      → Entries fs devsw dp n es m
      → length bs ≡ 16
      → readi fs devsw dp (16 * j) 16 m' ≡ some ((some bs, dp), m')
      → ((i : ℕ) → i < n → i ≢ j → readi fs devsw dp (16 * i) 16 m' ≡ some ((some (es i), dp), m'))
      → Entries fs devsw dp n (update es j bs) m'
  written-Entries es j bs m m' e l here others = record {
    size = e.size;
    small = e.small;
    read = λ i h. elim (update-cases es j bs i) [
      | inl (same, u) ↦
          ap (λ k. readi fs devsw dp (16 * k) 16 m') same
          ∙ here
          ∙ ap (λ b. some ((some b, dp), m')) (sym u)
      | inr (ne, u) ↦ others i h ne ∙ ap (λ b. some ((some b, dp), m')) (sym u)
    ];
    long = λ i h. elim (update-cases es j bs i) [
      | inl (same, u) ↦ ap length u ∙ l
      | inr (ne, u) ↦ ap length u ∙ e.long i h
    ];
  }

  same_bytes :
      (xs ys : List ℕ) (m : Machine)
      → ◌≡◌ {A = Option ((Option (List ℕ) × Inode) × Machine)}
          (some ((some xs, dp), m))
          (some ((some ys, dp), m))
      → xs ≡ ys
  same_bytes xs ys m e = cc

  dirlink-parts :
      (es : ℕ → List ℕ) (name : List ℕ) (inum : ℕ) (m m' : Machine)
      → Entries fs devsw dp n es m
      → dp.type ≡ t_dir
      → search_name es n 0 name ≡ none
      → writei fs devsw dp (16 * search_empty es n 0) (new_entry name inum) m
        ≡ some ((some 16, dp), m')
      → dirlink fs devsw dp name inum m ≡ some ((linked, dp), m')
  unfolding dirlink
  dirlink-parts es name inum m m' e d absent w =
      let s = e.size in
      >>=-some (dirlookup fs devsw dp name) _ m m (none, dp)
        (dirlookup-Entries fs devsw dp n es m e name d ∙ ap (λ r. some ((r, dp), m)) absent)
      ∙ >>=-some (empty_from fs devsw (dp.size / dirent_size + 1) dp 0) _ m m
          (16 * search_empty es n 0, dp)
          (empty_from-Entries fs devsw dp n es m e (dp.size / dirent_size + 1) n 0 (omega arith)
            (omega arith))
      ∙ >>=-some (writei fs devsw dp (16 * search_empty es n 0) (new_entry name inum)) _ m m'
          (some 16, dp) w

  -- Let the blocks of the directory be there, with `n` entries of which one is empty, and the log have
  -- room for the block that it is in. `dirlink` of a name that is not there to an inode number from 1 to
  -- 2 ^ 16 - 1 succeeds. A `dirlookup` of
  -- that name then finds the inode number, in the entry that was the first empty one, and a `dirlookup`
  -- of any other name returns what it did before.
  pub dirlookup-dirlink :
      (at : ℕ → ℕ) (blocks k : ℕ) (name : List ℕ) (inum : ℕ) (m : Machine)
      → dp.type ≡ t_dir
      → Laid m.cache dp at blocks
      → dp.size ≡ 16 * n
      → dp.size ≤ blocks * bsize
      → dp.size ≤ maxfile * bsize
      → Room fs (1 + k) m
      → 1 ≤ inum
      → inum < 2 ^ 16
      → search_name (dir_entries at m.cache) n 0 name ≡ none
      → search_empty (dir_entries at m.cache) n 0 < n
      → (m' : Machine) × (dirlink fs devsw dp name inum m ≡ some ((linked, dp), m'))
        × (dirlookup fs devsw dp name m'
            ≡ some ((some (inum, 16 * search_empty (dir_entries at m.cache) n 0), dp), m'))
        × ((other : List ℕ)
            → namecmp other name ≡ false
            → (r : Option (ℕ × ℕ)) × (dirlookup fs devsw dp other m ≡ some ((r, dp), m))
              × (dirlookup fs devsw dp other m' ≡ some ((r, dp), m')))
        × Room fs k m'
  dirlookup-dirlink at blocks k name inum m d laid size fits big room low high absent free =
      let es = dir_entries at m.cache in
      let j = search_empty es n 0 in
      let bs = new_entry name inum in
      let long : length bs ≡ 16 = let e = length-strncpy dirsiz name in omega arith in
      let e = Laid-Entries at blocks m d laid size fits (omega arith) in
      let (m', w, here, others, room') =
        readi-writei fs devsw dp at blocks (16 * j) bs 1 k m (λ t. absurd (omega arith)) laid fits
          big (omega arith) room (omega arith) in
      let e' : Entries fs devsw dp n (update es j bs) m' =
        written-Entries es j bs m m' e long
          (ap (λ l. readi fs devsw dp (16 * j) l m') (sym long) ∙ here)
          (λ i h ne.
            let (b, before, after) =
              others (16 * i) 16 (omega arith) (apart i j (length bs) ne long) in
            after
            ∙ ap (λ z. some ((some z, dp), m'))
                (same_bytes b (es i) m (sym before ∙ e.read i h))) in
      let stored = decode-encode_dirent (record { inum = inum; name = strncpy dirsiz name }) high in
      let num : (decode_dirent bs).inum ≡ inum = ap (λ (z : Dirent). z.inum) stored in
      let empty : (decode_dirent (es j)).inum ≡ 0 = search_empty-found es n 0 (omega arith) in
      (
        m',
        dirlink-parts es name inum m m' e d absent (w ∙ ap (λ l. some ((some l, dp), m')) long),
        dirlookup-Entries fs devsw dp n (update es j bs) m' e' name d
            ∙ ap (λ r. some ((r, dp), m'))
                (search_new es j bs n 0 name (omega arith) (omega arith) absent (omega arith)
                    (strncmp-strncpy dirsiz name name ∙ strncmp_self dirsiz name)
                  ∙ ap (λ i. some (i, 16 * j)) num),
        λ other ne. (
          search_name es n 0 other,
          dirlookup-Entries fs devsw dp n es m e other d,
          dirlookup-Entries fs devsw dp n (update es j bs) m' e' other d
              ∙ ap (λ r. some ((r, dp), m'))
                  (search_other es j bs n 0 other empty (strncmp-strncpy dirsiz other name ∙ ne)),
        ),
        room',
      )
    where
      apart : (i j l : ℕ) → i ≢ j → l ≡ 16 → ((16 * i + 16 ≤ 16 * j) ⊎ (16 * j + l ≤ 16 * i))
      apart i j l ne e = ground arith

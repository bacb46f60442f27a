-- ===== src/Fs/Dir/Lookup.antt =====
-- `dirlookup` reads the entries in order.
use hyu_2020_operating_syste.Base.{
  ℕ, zero, suc, ◌+◌, ◌*◌, ◌/◌, ◌%◌, ◌^◌, ◌<◌, ◌≤◌, ◌≡◌, ◌∙◌, refl, true, false, List, ◌==◌, ltb,
  if◌then◌else◌, length, arith, eq→==, inl, inr, Option, none, some, Bool-cases,
}
use hyu_2020_operating_syste.Log.{Machine}
use hyu_2020_operating_syste.Fs.{Mount, >>=-some}
use hyu_2020_operating_syste.Fs.Bmap.{Inode}
use hyu_2020_operating_syste.Fs.Data.{Device, readi}
use hyu_2020_operating_syste.Fs.Dir.{
  decode_dirent, dirent_size, namecmp, t_dir, read_dirent, lookup_from, dirlookup, empty_from,
}

-- the first of the `n` entries from `i` on that is not empty and has this name
abbrev pub search_name : (ℕ → List ℕ) → ℕ → ℕ → List ℕ → Option (ℕ × ℕ)
search_name es zero i name = none
search_name es (suc n) i name =
    let more = search_name es n (i + 1) name in
    let de = decode_dirent (es i) in
    if de.inum == 0 then more else (if namecmp name de.name then some (de.inum, 16 * i) else more)

-- the first empty one, or the place after the last
abbrev pub search_empty : (ℕ → List ℕ) → ℕ → ℕ → ℕ
search_empty es zero i = i
search_empty es (suc n) i =
    let more = search_empty es n (i + 1) in if (decode_dirent (es i)).inum == 0 then i else more

module _ (fs : Mount) (devsw : ℕ → Device) (dp : Inode) where
  -- The directory has `n` entries, the bytes of entry `i` are `es i`, and reading changes nothing.
  pub record Entries (n : ℕ) (es : ℕ → List ℕ) (m : Machine) : Type 0 where
    pub size : dp.size ≡ 16 * n
    pub small : dp.size + 16 < 2 ^ 32
    pub read : (i : ℕ) → i < n → readi fs devsw dp (16 * i) 16 m ≡ some ((some (es i), dp), m)
    pub long : (i : ℕ) → i < n → length (es i) ≡ 16

  module _ (n : ℕ) (es : ℕ → List ℕ) (m : Machine) (entries : Entries n es m) where
    read_dirent-Entries :
        (i : ℕ) → i < n → read_dirent fs devsw dp (16 * i) m ≡ some ((decode_dirent (es i), dp), m)
    unfolding read_dirent
    read_dirent-Entries i h =
        >>=-some (readi fs devsw dp (16 * i) 16) _ m m (some (es i), dp) (entries.read i h)
        ∙ rw (eq→== _ _ (entries.long i h)) refl

    lookup_from-Entries :
        (f k i : ℕ) (name : List ℕ)
        → i + k ≡ n
        → k ≤ f
        → lookup_from fs devsw f dp name (16 * i) m ≡ some ((search_name es k i name, dp), m)
    unfolding lookup_from
    lookup_from-Entries zero k i name e l = let z : k ≡ 0 = omega arith in rw z refl
    lookup_from-Entries (suc f) zero i name e l =
        let s = entries.size in
        let past : ltb (16 * i) dp.size ≡ false = ground arith in rw past refl
    lookup_from-Entries (suc f) (suc k) i name e l =
        let s = entries.size in
        let here : ltb (16 * i) dp.size ≡ true = ground arith in
        let step : (16 * i + 16) % 2 ^ 32 ≡ 16 * (i + 1) = let w = entries.small in omega arith in
        let more = lookup_from-Entries f k (i + 1) name (omega arith) (omega arith) in
        rw (here, step)
          (>>=-some (read_dirent fs devsw dp (16 * i)) _ m m (decode_dirent (es i), dp)
              (read_dirent-Entries i (omega arith))
            ∙ elim (Bool-cases ((decode_dirent (es i)).inum == 0)) [
              | inl z ↦ rw z more
              | inr nz ↦ elim (Bool-cases (namecmp name (decode_dirent (es i)).name)) [
                | inl y ↦ rw (nz, y) refl
                | inr n' ↦ rw (nz, n') more
              ]
            ])

    pub dirlookup-Entries :
        (name : List ℕ)
        → dp.type ≡ t_dir
        → dirlookup fs devsw dp name m ≡ some ((search_name es n 0 name, dp), m)
    unfolding dirlookup
    dirlookup-Entries name d =
        let s = entries.size in
        rw (eq→== _ _ d)
          (lookup_from-Entries (dp.size / dirent_size + 1) n 0 name (omega arith) (omega arith))

    pub empty_from-Entries :
        (f k i : ℕ)
        → i + k ≡ n
        → k ≤ f
        → empty_from fs devsw f dp (16 * i) m ≡ some ((16 * search_empty es k i, dp), m)
    unfolding empty_from
    empty_from-Entries zero k i e l = let z : k ≡ 0 = omega arith in rw z refl
    empty_from-Entries (suc f) zero i e l =
        let s = entries.size in
        let past : ltb (16 * i) dp.size ≡ false = ground arith in rw past refl
    empty_from-Entries (suc f) (suc k) i e l =
        let s = entries.size in
        let here : ltb (16 * i) dp.size ≡ true = ground arith in
        let step : (16 * i + 16) % 2 ^ 32 ≡ 16 * (i + 1) = let w = entries.small in omega arith in
        let more = empty_from-Entries f k (i + 1) (omega arith) (omega arith) in
        rw (here, step)
          (>>=-some (read_dirent fs devsw dp (16 * i)) _ m m (decode_dirent (es i), dp)
              (read_dirent-Entries i (omega arith))
            ∙ elim (Bool-cases ((decode_dirent (es i)).inum == 0)) [
              | inl z ↦ rw z refl
              | inr nz ↦ rw nz more
            ])

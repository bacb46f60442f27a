-- ===== src/Fs/Dinode/Update.antt =====
-- `iupdate` and `ilock`.
use hyu_2020_operating_syste.Base.{
  ℕ, suc, ◌%◌, ◌≡◌, ◌≢◌, inl, inr, ◌∙◌, sym, refl, arith, eq_cases, update, update_self, update_ne,
  none, some, false, ◌==◌, int_lt, if◌then◌else◌, ne→==, eq→==,
}
use hyu_2020_operating_syste.Block.{Block, Disk}
use hyu_2020_operating_syste.Log.{Machine}
use hyu_2020_operating_syste.Fs.{Mount}
use hyu_2020_operating_syste.Fs.Room.{Room, write_block-Room}
use hyu_2020_operating_syste.Fs.Bmap.{Inode}
use hyu_2020_operating_syste.Fs.Dinode.{ipb, encode_dinode, decode_dinode, iblock, iupdate, ilock}
use hyu_2020_operating_syste.Fs.Dinode.Coding.{
  SameFields, IsStored, decode-encode, decode-encode_ne,
}

module _ (fs : Mount) where
  -- Inode `inum` as the cached blocks have it.
  abbrev pub on_disk : Disk → ℕ → Inode → Inode
  on_disk c inum q = decode_dinode (inum % ipb) (c (iblock fs inum)) q

  pub on_disk-update :
      (m : Machine) (ip : Inode) (inum : ℕ) (q : Inode)
      → IsStored ip
      → let c =
          update m.cache
            (iblock fs ip.inum)
            (encode_dinode (ip.inum % ipb) ip (m.cache (iblock fs ip.inum))) in
        (inum ≡ ip.inum → SameFields (on_disk c inum q) ip)
        × (inum ≢ ip.inum → SameFields (on_disk c inum q) (on_disk m.cache inum q))
  on_disk-update m ip inum q v = (
    (λ e.
        rw (e, update_self m.cache (iblock fs ip.inum) new)
          (decode-encode (ip.inum % ipb) ip (m.cache (iblock fs ip.inum)) q v)),
    λ ne. elim (eq_cases (iblock fs inum) (iblock fs ip.inum)) [
      | inl same ↦
          rw (same, update_self m.cache (iblock fs ip.inum) new)
            (decode-encode_ne (ip.inum % ipb) ip (m.cache (iblock fs ip.inum)) (inum % ipb)
              (omega arith) q)
      | inr other ↦
          rw (update_ne m.cache (iblock fs ip.inum) (iblock fs inum) new other) (SameFields_refl _)
    ],
  )
    where
      new : Block
      new = encode_dinode (ip.inum % ipb) ip (m.cache (iblock fs ip.inum))

      SameFields_refl : (p : Inode) → SameFields p p
      SameFields_refl p = record {
        type = refl;
        major = refl;
        minor = refl;
        nlink = refl;
        size = refl;
        addrs = λ k h. refl;
      }

  -- what `ilock` makes of an inode that it has to read
  abbrev read_in : Inode → Machine → Inode
  read_in q m = record (on_disk m.cache q.inum q) { valid = 1 }

  ilock-unread :
      (q : Inode) (m : Machine)
      → int_lt q.ref 1 ≡ false
      → q.valid ≡ 0
      → ilock fs q m ≡ (if (read_in q m).type == 0 then none else some (read_in q m, m))
  unfolding ilock
  ilock-unread q m held unread = rw (held, unread) refl

  -- With an entry left in the log, `iupdate` of an inode whose fields are of their C types succeeds: an
  -- `ilock` of that number that has to read the disk then finds those fields, unless the type is 0,
  -- where it panics. Every other inode on disk is as it was.
  pub ilock-iupdate :
      (k : ℕ) (m : Machine) (ip q : Inode)
      → Room fs (suc k) m
      → IsStored ip
      → (q.inum ≡ ip.inum) × (int_lt q.ref 1 ≡ false) × (q.valid ≡ 0)
      → (m' : Machine) × (iupdate fs ip m ≡ some (tt, m'))
        × (ip.type ≡ 0 → ilock fs q m' ≡ none)
        × (ip.type ≢ 0
            → (q' : Inode) × (ilock fs q m' ≡ some (q', m')) × SameFields q' ip × (q'.valid ≡ 1))
        × ((inum : ℕ)
            → inum ≢ ip.inum
            → SameFields (on_disk m'.cache inum q) (on_disk m.cache inum q))
  unfolding iupdate
  ilock-iupdate k m ip q room v (same, held, unread) =
      let (m', e, c, r) =
        write_block-Room fs k (iblock fs ip.inum)
          (encode_dinode (ip.inum % ipb) ip (m.cache (iblock fs ip.inum))) m room in
      let here : SameFields (on_disk m'.cache q.inum q) ip =
        rw c ((on_disk-update m ip q.inum q v).0 same) in
      (
        m',
        e,
        λ z. locks_none m' (here.type ∙ z),
        λ nz. locks_some m' here (λ z. nz (sym here.type ∙ z)),
        λ inum ne. rw c ((on_disk-update m ip inum q v).1 ne),
      )
    where
      locks_none : (m' : Machine) → (read_in q m').type ≡ 0 → ilock fs q m' ≡ none
      locks_none m' z = ilock-unread q m' held unread ∙ rw (eq→== _ _ z) refl

      locks_some :
          (m' : Machine)
          → SameFields (on_disk m'.cache q.inum q) ip
          → (read_in q m').type ≢ 0
          → (q' : Inode) × (ilock fs q m' ≡ some (q', m')) × SameFields q' ip × (q'.valid ≡ 1)
      locks_some m' h nz = (
        read_in q m',
        ilock-unread q m' held unread ∙ rw (ne→== _ _ nz) refl,
        record {
          type = h.type;
          major = h.major;
          minor = h.minor;
          nlink = h.nlink;
          size = h.size;
          addrs = h.addrs;
        },
        refl,
      )

-- ===== src/Log/Power.antt =====
-- How many disk writes `commit` and `recover_from_log` need: with that much power they finish.
use hyu_2020_operating_syste.Base.{
  ℕ, zero, suc, ◌+◌, ◌*◌, ◌≤◌, ◌≡◌, ◌∙◌, refl, ap, true, false, Bool, List, [], ◌∷◌, arith, length,
  ◌==◌, if◌then◌else◌,
}
use hyu_2020_operating_syste.Log.{
  Machine, Run, running, ◌>>=◌, fill, bwrite, write_log_from, install_from, write_log, write_head,
  install_trans, encode_head, read_head, clear, commit, recover_from_log,
}
use hyu_2020_operating_syste.Log.Loops.{written}

-- The run goes on, `n` writes later, with the log's blocks as they were.
abbrev pub Finishes : ℕ → Machine → Run → Type 0
Finishes n m r = (m' : Machine) × (r ≡ running m') × (m'.power + n ≡ m.power) × (m'.block ≡ m.block)

bwrite-Finishes : (b : ℕ) (m : Machine) → 1 ≤ m.power → Finishes 1 m (bwrite b m)
unfolding bwrite
bwrite-Finishes b m h = go m.power refl
  where
    go : (n : ℕ) → m.power ≡ n → Finishes 1 m (bwrite b m)
    go zero e = absurd (omega arith)
    go (suc k) e = (written b m k, rw (e, bwrite), omega arith, refl)

-- One more write before a run that finishes.
Finishes-bwrite :
    (b : ℕ) (m : Machine) (n : ℕ) (f : Machine → Run)
    → suc n ≤ m.power
    → ((m1 : Machine) → n ≤ m1.power → m1.block ≡ m.block → Finishes n m1 (f m1))
    → Finishes (suc n) m (bwrite b m >>= f)
Finishes-bwrite b m n f h k =
    let (m1, e, p, q) = bwrite-Finishes b m (omega arith) in
    let (m2, e2, p2, q2) = k m1 (omega arith) q in (m2, rw (e, ◌>>=◌) e2, omega arith, q2 ∙ q)

Finishes-bind :
    (n k : ℕ) (m : Machine) (r : Run) (f : Machine → Run)
    → Finishes n m r
    → ((m1 : Machine) → m1.power + n ≡ m.power → m1.block ≡ m.block → Finishes k m1 (f m1))
    → Finishes (n + k) m (r >>= f)
Finishes-bind n k m r f (m1, e, p, q) g =
    let (m2, e2, p2, q2) = g m1 p q in (m2, rw (e, ◌>>=◌) e2, omega arith, q2 ∙ q)

module _ (start : ℕ) where
  write_log_from-Finishes :
      (tail : ℕ) (bs : List ℕ) (m : Machine)
      → length bs ≤ m.power
      → Finishes (length bs) m (write_log_from start tail bs m)
  unfolding write_log_from
  write_log_from-Finishes tail [] m h = (m, refl, omega arith, refl)
  write_log_from-Finishes tail (x ∷ bs) m h =
      Finishes-bwrite (start + tail + 1) (fill (start + tail + 1) (m.cache x) m) (length bs)
        (write_log_from start (tail + 1) bs) h
        (λ m1 p q. write_log_from-Finishes (tail + 1) bs m1 p)

  install_from-Finishes :
      (tail : ℕ) (bs : List ℕ) (m : Machine)
      → length bs ≤ m.power
      → Finishes (length bs) m (install_from start tail bs m)
  unfolding install_from
  install_from-Finishes tail [] m h = (m, refl, omega arith, refl)
  install_from-Finishes tail (x ∷ bs) m h =
      Finishes-bwrite x (fill x (m.cache (start + tail + 1)) m) (length bs)
        (install_from start (tail + 1) bs) h (λ m1 p q. install_from-Finishes (tail + 1) bs m1 p)

  write_head-Finishes : (m : Machine) → 1 ≤ m.power → Finishes 1 m (write_head start m)
  unfolding write_head
  write_head-Finishes m h =
      bwrite-Finishes start (fill start (encode_head m.block (m.cache start)) m) h

  -- `write_log` and `install_trans` write each logged block once.
  write_log-Finishes :
      (m : Machine) → length m.block ≤ m.power → Finishes (length m.block) m (write_log start m)
  unfolding write_log
  write_log-Finishes m h = write_log_from-Finishes 0 m.block m h

  install_trans-Finishes :
      (m : Machine) → length m.block ≤ m.power → Finishes (length m.block) m (install_trans start m)
  unfolding install_trans
  install_trans-Finishes m h = install_from-Finishes 0 m.block m h

  -- Recovery installs each block of the header that it read, and erases the header.
  pub recover_from_log-running :
      (m : Machine)
      → length (read_head start m).block + 1 ≤ m.power
      → (m' : Machine) × (recover_from_log start m ≡ running m')
  unfolding recover_from_log read_head
  recover_from_log-running m h =
      let (m1, e, p, q) = install_trans-Finishes (read_head start m) (omega arith) in
      let (m2, e2, p2, q2) = write_head-Finishes (clear start m1) (omega arith) in
      (m2, rw (e, ◌>>=◌) e2)

  -- A commit of n blocks writes the log, the header, the n blocks again and the empty header.
  pub commit-running :
      (m : Machine)
      → 2 * length m.block + 2 ≤ m.power
      → (m' : Machine) × (commit start m ≡ running m')
  unfolding commit
  commit-running m h = go (length m.block == 0)
    where
      whole :
          (m' : Machine) × ((write_log start m
              >>= write_head start
              >>= install_trans start
              >>= λ m'. write_head start (clear start m'))
            ≡ running m')
      whole =
          let (m1, e, p, q) = write_log-Finishes m (omega arith) in
          let (m2, e2, p2, q2) = write_head-Finishes m1 (omega arith) in
          let (m3, e3, p3, q3) = install_trans-Finishes m2 (rw (q2 ∙ q) (omega arith)) in
          let (m4, e4, p4, q4) =
            write_head-Finishes (clear start m3) (omega (arith, ap length (q2 ∙ q))) in
          (m4, rw (e, ◌>>=◌) (rw (e2, ◌>>=◌) (rw (e3, ◌>>=◌) e4)))

      go :
          (b : Bool)
          → (m' : Machine) × ((if b
                then running m
                else (write_log start m >>= write_head start >>= install_trans start >>= λ m'.
                    write_head start (clear start m')))
              ≡ running m')
      go true = (m, refl)
      go false = whole

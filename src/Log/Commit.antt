-- ===== src/Log/Commit.antt =====
-- `commit`: whenever the power fails, the platter stands for the disk before the transaction or for
-- the disk after it.
use hyu_2020_operating_syste.Base.{
  ℕ, ◌+◌, ◌^◌, ◌≤◌, ◌<◌, ◌≡◌, ◌⊎◌, inl, ◌∙◌, refl, sym, ap, subst, false, List, [], arith, length,
  update, update_self, update_ne, All, Absent,
}
use hyu_2020_operating_syste.Block.{Block, Disk}
use hyu_2020_operating_syste.Log.{
  Machine, ◌>>=◌, fill, decode_head, encode_head, write_log, write_head, install_trans,
  install_from, clear,
}
use hyu_2020_operating_syste.Log.Represents.{Home, Stored-update, Represents}
use hyu_2020_operating_syste.Log.Header.{decode_head-encode_head}
use hyu_2020_operating_syste.Log.Loops.{
  Safe, Safe-bind, Safe-mono, bwrite-last, written, WroteLog, write_log_from-Safe,
}
use hyu_2020_operating_syste.Log.Install.{Installable, Installing, install_from-Safe}

module _ (start size : ℕ) where
  -- No transaction: the log is empty, and cache and platter agree on `v`.
  pub record Idle (v : Disk) (m : Machine) : Type 0 where
    pub room : 1 ≤ size
    pub empty : m.block ≡ []
    pub header : decode_head (m.disk start) ≡ []
    pub home :
        (b : ℕ) → Home start size b → (m.disk b ≡ v b) × (m.cache b ≡ v b) × (m.dirty b ≡ false)

  -- A transaction over the platter `old`: what it has not logged is not modified.
  pub record Open (old : Disk) (m : Machine) : Type 0 where
    pub fits : length m.block + 1 ≤ size
    pub small : length m.block < 2 ^ 31
    pub homes : All (Home start size) m.block
    pub words : All (λ b. b < 2 ^ 32) m.block
    pub header : decode_head (m.disk start) ≡ []
    pub home : (b : ℕ) → Home start size b → m.disk b ≡ old b
    pub clean :
        (b : ℕ)
        → Home start size b
        → Absent b m.block
        → (m.cache b ≡ m.disk b) × (m.dirty b ≡ false)

  -- A platter with an empty header stands for itself.
  pub empty-Represents :
      (d v : Disk)
      → 1 ≤ size
      → decode_head (d start) ≡ []
      → ((b : ℕ) → Home start size b → d b ≡ v b)
      → Represents start size d v
  empty-Represents d v r e h =
      ([], e, record { fits = r; homes = tt; stored = tt; rest = λ b hb a. h b hb })

  Installable-Represents :
      (lh : List ℕ) (hdr : Block) (v d : Disk)
      → decode_head hdr ≡ lh
      → Installable start size lh hdr v d
      → Represents start size d v
  Installable-Represents lh hdr v d e i = (lh, ap decode_head i.0 ∙ e, i.1)

  -- The end of `commit` and of `recover_from_log`: install the log, then erase it.
  module _ (lh : List ℕ) (hdr : Block) (v : Disk) (e : decode_head hdr ≡ lh) where
    erase-Safe :
        (tail : ℕ) (m : Machine)
        → Installing start size lh hdr v tail [] m
        → Safe (λ d. Represents start size d v) (Idle v) (write_head start (clear start m))
    unfolding write_head
    erase-Safe tail m i =
        bwrite-last (λ d. Represents start size d v) (Idle v) start
          (fill start head (clear start m))
          (Installable-Represents lh hdr v m.disk e (i.header, i.logged))
          (λ k. record {
            room = let f = i.logged.fits in omega arith;
            empty = refl;
            header =
                rw
                  (
                    update_self m.disk start (update m.cache start head start),
                    update_self m.cache start head,
                  )
                  (decode_head-encode_head [] (m.cache start) (omega arith) tt);
            home = λ b hb.
                let f = i.logged.fits in
                (
                  update_ne m.disk start b (update m.cache start head start) (omega arith)
                      ∙ (i.home b hb tt).0,
                  update_ne m.cache start b head (omega arith) ∙ (i.home b hb tt).1,
                  update_ne m.dirty start b false (omega arith) ∙ (i.home b hb tt).2,
                );
          })
      where
        head : Block
        head = encode_head [] (m.cache start)

    pub finish-Safe :
        (m : Machine)
        → Installing start size lh hdr v 0 lh m
        → Safe
            (λ d. Represents start size d v)
            (Idle v)
            (install_trans start m >>= λ m'. write_head start (clear start m'))
    unfolding install_trans
    finish-Safe m i =
        Safe-bind (λ d. Represents start size d v)
          (Installing start size lh hdr v (0 + length lh) []) (Idle v) (install_trans start m)
          (λ m'. write_head start (clear start m'))
          (subst (λ bs. Safe P Q (install_from start 0 bs m)) (sym i.block)
            (Safe-mono (Installable start size lh hdr v) P Q Q (install_from start 0 lh m)
              (λ d. Installable-Represents lh hdr v d e) (λ m' i'. i')
              (install_from-Safe start size lh hdr v 0 lh m (let f = i.logged.fits in omega arith)
                i.logged.homes i)))
          (erase-Safe (0 + length lh))
      where
        P : Disk → Type 0
        P d = Represents start size d v

        Q : Machine → Type 0
        Q = Installing start size lh hdr v (0 + length lh) []

  -- The header on the platter is what switches it from the old disk to the new one.
  module _ (old : Disk) (m : Machine) (o : Open old m) where
    -- What the platter may stand for.
    abbrev pub OldOrNew : Disk → Type 0
    OldOrNew d = Represents start size d old ⊎ Represents start size d m.cache

    pub still_old :
        (d : Disk)
        → ((b : ℕ) → ((b < start + 0 + 1) ⊎ (start + 0 + length m.block < b)) → d b ≡ m.disk b)
        → Represents start size d old
    still_old d same =
        let f = o.fits in
        empty-Represents d old (omega arith) (ap decode_head (same start (omega arith)) ∙ o.header)
          (λ b hb. same b (omega arith) ∙ o.home b hb)

    pub write_log-Safe : Safe OldOrNew (WroteLog start size m 0 m.block) (write_log start m)
    unfolding write_log
    write_log-Safe =
        Safe-mono _ OldOrNew (WroteLog start size m 0 m.block) _ (write_log start m)
          (λ d same. inl (still_old d same)) (λ m' w. w)
          (write_log_from-Safe start size 0 m.block m (let f = o.fits in omega arith) o.homes)

    abbrev pub head : Machine → Block
    head m1 = encode_head m.block (m1.cache start)

    pub headed :
        (m1 : Machine) (k : ℕ)
        → WroteLog start size m 0 m.block m1
        → Installing start size m.block
            (head m1)
            m.cache
            0
            m.block
            (written start (fill start (head m1) m1) k)
    headed m1 k w =
        let f = o.fits in
        let hd = update m1.cache start (head m1) start in
        record {
          header = update_self m1.disk start hd ∙ update_self m1.cache start (head m1);
          logged = record {
            fits = f;
            homes = o.homes;
            stored =
                Stored-update start size m1.disk m.cache start hd 0 m.block (omega arith)
                  w.stored_disk;
            rest = λ b hb a.
                update_ne m1.disk start b hd (omega arith)
                ∙ w.disk b (omega arith)
                ∙ sym (o.clean b hb a).0;
          };
          source =
              Stored-update start size m1.cache m.cache start (head m1) 0 m.block (omega arith)
                w.stored_cache;
          home = λ b hb a. (
            update_ne m1.disk start b hd (omega arith)
                ∙ w.disk b (omega arith)
                ∙ sym (o.clean b hb a).0,
            update_ne m1.cache start b (head m1) (omega arith) ∙ w.cache b (omega arith),
            update_ne m1.dirty start b false (omega arith)
                ∙ w.dirty b (omega arith)
                ∙ (o.clean b hb a).1,
          );
          block = w.block;
        }

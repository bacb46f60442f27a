-- ===== src/Log/Atomic.antt =====
-- `commit` as a whole: a crash leaves the old disk or the new one, and a finished commit the new one.
use hyu_2020_operating_syste.Base.{
  ℕ, ◌≡◌, inl, inr, refl, sym, subst, Bool, true, false, List, [], ◌∷◌, arith, length, ◌==◌, ==→eq,
  if◌then◌else◌,
}
use hyu_2020_operating_syste.Block.{Disk}
use hyu_2020_operating_syste.Log.{
  Machine, Run, running, bwrite, encode_head, ◌>>=◌, fill, write_log, write_head, install_trans,
  clear, commit,
}
use hyu_2020_operating_syste.Log.Header.{decode_head-encode_head}
use hyu_2020_operating_syste.Log.Loops.{
  Safe, Safe-bind, Safe-assoc, Safe-mono, bwrite-Safe, written, WroteLog,
}
use hyu_2020_operating_syste.Log.Represents.{Represents}
use hyu_2020_operating_syste.Log.Commit.{
  Idle, Open, OldOrNew, still_old, write_log-Safe, head, headed, finish-Safe,
}

module _ (start size : ℕ) (old : Disk) (m : Machine) (o : Open start size old m) where
  abbrev P : Disk → Type 0
  P = OldOrNew start size old m o

  abbrev finish : Machine → Run
  finish m2 = install_trans start m2 >>= λ m'. write_head start (clear start m')

  -- From the header write on. The write itself is the commit point.
  write_head-Safe :
      (m1 : Machine)
      → WroteLog start size m 0 m.block m1
      → Safe P (Idle start size m.cache) (write_head start m1 >>= finish)
  unfolding write_head
  write_head-Safe m1 w =
      subst
        (λ bs.
          Safe P (Idle start size m.cache)
            (bwrite start (fill start (encode_head bs (m1.cache start)) m1) >>= finish))
        (sym w.block)
        (bwrite-Safe P (Idle start size m.cache) start (fill start (head start size old m o m1) m1)
          finish (inl (still_old start size old m o m1.disk w.disk))
          (λ k.
            Safe-mono (λ d. Represents start size d m.cache) P (Idle start size m.cache)
              (Idle start size m.cache) _ (λ d r. inr r) (λ m' i. i)
              (finish-Safe start size m.block (head start size old m o m1) m.cache
                (decode_head-encode_head m.block (m1.cache start) o.small o.words)
                (written start (fill start (head start size old m o m1) m1) k)
                (headed start size old m o m1 k w))))

  pub commit-Safe : Safe P (Idle start size m.cache) (commit start m)
  unfolding commit
  commit-Safe = go (length m.block == 0) refl
    where
      go :
          (b : Bool)
          → (length m.block == 0) ≡ b
          → Safe P (Idle start size m.cache) (
              if b
              then running m
              else (write_log start m >>= write_head start >>= install_trans start >>= λ m'.
                  write_head start (clear start m')))
      go true e = nothing m.block refl (==→eq (length m.block) 0 e)
        where
          nothing : (bs : List ℕ) → m.block ≡ bs → length bs ≡ 0 → Idle start size m.cache m
          nothing [] e n = record {
            room = let f = o.fits in omega arith;
            empty = e;
            header = o.header;
            home = λ b hb. let c = o.clean b hb (rw e tt) in (sym c.0, refl, c.1);
          }
          nothing (x ∷ bs) e n = absurd (omega arith)
      go false e =
          Safe-assoc P (Idle start size m.cache) (write_log start m >>= write_head start)
            (install_trans start) (λ m'. write_head start (clear start m'))
            (Safe-assoc P (Idle start size m.cache) (write_log start m) (write_head start) finish (
              Safe-bind P (WroteLog start size m 0 m.block) (Idle start size m.cache)
                (write_log start m) (λ m1. write_head start m1 >>= finish)
                (write_log-Safe start size old m o) write_head-Safe))

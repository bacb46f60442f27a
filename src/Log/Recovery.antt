-- ===== src/Log/Recovery.antt =====
-- Recovery after a crash, which may itself be cut off any number of times.
use hyu_2020_operating_syste.Base.{ℕ, ◌≤◌, ◌≡◌, ◌⊎◌, inl, inr, refl, subst, List, [], ◌∷◌, arith}
use hyu_2020_operating_syste.Block.{Disk}
use hyu_2020_operating_syste.Log.{
  Machine, Run, running, crashed, decode_head, read_head, commit, recover_from_log, reboot,
}
use hyu_2020_operating_syste.Log.Represents.{Home, Represents}
use hyu_2020_operating_syste.Log.Loops.{Safe}
use hyu_2020_operating_syste.Log.Commit.{Idle, Open, OldOrNew, finish-Safe}
use hyu_2020_operating_syste.Log.Atomic.{commit-Safe}
use hyu_2020_operating_syste.Log.Power.{recover_from_log-running}

-- What is left on the platter when a run ends or the power fails.
pub platter : Run → Disk
platter (running m) = m.disk
platter (crashed d) = d

-- One boot after another, each with so many disk writes before the power fails.
pub reboots : ℕ → List ℕ → Disk → Disk
unfolding platter
reboots start [] d = d
reboots start (p ∷ ps) d = reboots start ps (platter (recover_from_log start (reboot p d)))

-- Two disks agree outside the log area.
abbrev pub SameHome : ℕ → ℕ → Disk → Disk → Type 0
SameHome start size d v = (b : ℕ) → Home start size b → d b ≡ v b

module _ (start size : ℕ) where
  recover_from_log-Safe :
      (power : ℕ) (d v : Disk)
      → Represents start size d v
      → Safe
          (λ d'. Represents start size d' v)
          (Idle start size v)
          (recover_from_log start (reboot power d))
  unfolding recover_from_log read_head
  recover_from_log-Safe power d v (lh, e, l) =
      finish-Safe start size lh (d start) v e (read_head start (reboot power d)) (record {
        header = refl;
        logged = l;
        source = l.stored;
        home = λ b hb a. (l.rest b hb a, l.rest b hb a, refl);
        block = e;
      })

  Idle-Represents : (v : Disk) (m : Machine) → Idle start size v m → Represents start size m.disk v
  Idle-Represents v m i = (
    [],
    i.header,
    record { fits = i.room; homes = tt; stored = tt; rest = λ b hb a. (i.home b hb).0 },
  )

  Safe-platter :
      (v : Disk) (r : Run)
      → Safe (λ d. Represents start size d v) (Idle start size v) r
      → Represents start size (platter r) v
  unfolding platter
  Safe-platter v (running m) i = Idle-Represents v m i
  Safe-platter v (crashed d) h = h

  -- A boot that is cut off leaves a platter that stands for the same disk.
  pub reboots-Represents :
      (ps : List ℕ) (d v : Disk)
      → Represents start size d v
      → Represents start size (reboots start ps d) v
  unfolding reboots
  reboots-Represents [] d v h = h
  reboots-Represents (p ∷ ps) d v h =
      reboots-Represents ps (platter (recover_from_log start (reboot p d))) v
        (Safe-platter v (recover_from_log start (reboot p d)) (recover_from_log-Safe p d v h))

  -- A boot with `size` writes of power recovers what the platter stands for.
  pub recovered :
      (power : ℕ) (d v : Disk)
      → Represents start size d v
      → size ≤ power
      → (m : Machine) × (recover_from_log start (reboot power d) ≡ running m)
        × SameHome start size m.disk v
        × (decode_head (m.disk start) ≡ [])
        × (m.block ≡ [])
  unfolding read_head
  recovered power d v (lh, e, l) h =
      let (m, r) =
        recover_from_log-running start (reboot power d) (rw e (let f = l.fits in omega arith)) in
      let i : Idle start size v m =
        subst (Safe (λ d'. Represents start size d' v) (Idle start size v)) r
          (recover_from_log-Safe power d v (lh, e, l)) in
      (m, r, λ b hb. (i.home b hb).0, i.header, i.empty)

  module _ (old : Disk) (m : Machine) (o : Open start size old m) where
    commit-platter :
        (r : Run)
        → Safe (OldOrNew start size old m o) (Idle start size m.cache) r
        → OldOrNew start size old m o (platter r)
    unfolding platter
    commit-platter (running m') i = inr (Idle-Represents m.cache m' i)
    commit-platter (crashed d) h = h

    -- With a transaction open, wherever the power fails in its commit, and in any number of recoveries
    -- after it, a recovery with power for `size` disk writes ends with an empty log and, outside the log area, with the disk as it was
    -- before the transaction or with all of the cached data, nothing in between.
    pub crash_recovery :
        (ps : List ℕ) (power : ℕ)
        → size ≤ power
        → (m' : Machine) × (recover_from_log start
              (reboot power (reboots start ps (platter (commit start m))))
            ≡ running m')
          × (SameHome start size m'.disk old ⊎ SameHome start size m'.disk m.cache)
          × (decode_head (m'.disk start) ≡ [])
    crash_recovery ps power h =
        elim (commit-platter (commit start m) (commit-Safe start size old m o)) [
          | inl r ↦
              let (m', e, s, hd, bl) =
                recovered power _ old (reboots-Represents ps (platter (commit start m)) old r) h in
              (m', e, inl s, hd)
          | inr r ↦
              let (m', e, s, hd, bl) =
                recovered power _ m.cache
                  (reboots-Represents ps (platter (commit start m)) m.cache r) h in
              (m', e, inr s, hd)
        ]

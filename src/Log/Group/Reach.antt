-- ===== src/Log/Group/Reach.antt =====
-- What holds in every state that the system calls can bring about.
use hyu_2020_operating_syste.Base.{
  ℕ, suc, ◌≤◌, ◌<◌, ◌≡◌, ◌≢◌, ◌∙◌, ap, none, List, [], ◌∷◌, ◌++◌, length, length-append, arith,
}
use hyu_2020_operating_syste.Log.{Machine, running, recover_from_log, reboot, decode_head}
use hyu_2020_operating_syste.Log.Commit.{empty-Represents}
use hyu_2020_operating_syste.Log.Recovery.{reboots, recovered, reboots-Represents, SameHome}
use hyu_2020_operating_syste.Log.Group.{log_write, log_size}
use hyu_2020_operating_syste.Log.Group.System.{Sys, Reach, here, next, Inv, sum, sum-append}
use hyu_2020_operating_syste.Log.Group.Steps.{Step-Inv}

module _ (start size : ℕ) where
  -- From a state that satisfies the invariant on, in every interleaving of begin_op, log_write, end_op and commits, the logged blocks are distinct
  -- and lie outside the log area, the entries and the outstanding allowances fit in LOGSIZE,
  -- `outstanding` counts the open calls, no call is open during a commit, and an unlogged block is
  -- clean and equal to the platter, which holds the last committed data.
  pub Reach-Inv : {s t : Sys} → Inv start size s → Reach start size s t → Inv start size t
  Reach-Inv i here = i
  Reach-Inv i (next r st) = Step-Inv start size st (Reach-Inv i r)

  -- If the power fails between two steps of reachable system calls, then after any number of cut-off
  -- recoveries a full recovery with power for `size` writes restores exactly the disk of the last commit outside the log area.
  pub uncommitted_lost :
      {s t : Sys} (ps : List ℕ) (power : ℕ)
      → Inv start size s
      → Reach start size s t
      → size ≤ power
      → (m : Machine) × (recover_from_log start (reboot power (reboots start ps t.machine.disk))
          ≡ running m)
        × SameHome start size m.disk t.committed
        × (decode_head (m.disk start) ≡ [])
        × (m.block ≡ [])
  uncommitted_lost {s} {t} ps power i r h =
      let o = (Reach-Inv i r).opened in
      let f = o.fits in
      recovered start size power (reboots start ps t.machine.disk) t.committed
        (reboots-Represents start size ps t.machine.disk t.committed
          (empty-Represents start size t.machine.disk t.committed (omega arith) o.header o.home))
        h

  -- If the log area has more than LOGSIZE blocks, `log_write` panics for no call that has an entry
  -- of its allowance left, whatever the other calls have done.
  pub log_write-ne-none :
      {s t : Sys} (b : ℕ) (pre post : List ℕ) (q : ℕ)
      → Inv start size s
      → Reach start size s t
      → log_size < size
      → t.quota ≡ pre ++ (suc q ∷ post)
      → log_write size t.ops b t.machine ≢ none
  unfolding log_write
  log_write-ne-none {s} {t} b pre post q i r h e =
      let inv = Reach-Inv i r in
      let room = inv.room in
      let c = inv.counted in
      let f = inv.few in
      let n = ap length e ∙ length-append pre (suc q ∷ post) in
      let s = ap sum e ∙ sum-append pre (suc q ∷ post) in ground arith

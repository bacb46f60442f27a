-- ===== src/Log/Durable.antt =====
-- A commit that is not cut off.
use hyu_2020_operating_syste.Base.{ℕ, ◌+◌, ◌*◌, ◌≤◌, ◌≡◌, subst, [], length, false}
use hyu_2020_operating_syste.Block.{Disk}
use hyu_2020_operating_syste.Log.{Machine, running, commit, decode_head}
use hyu_2020_operating_syste.Log.Represents.{Home}
use hyu_2020_operating_syste.Log.Loops.{Safe}
use hyu_2020_operating_syste.Log.Commit.{Idle, Open, OldOrNew}
use hyu_2020_operating_syste.Log.Atomic.{commit-Safe}
use hyu_2020_operating_syste.Log.Power.{commit-running}

module _ (start size : ℕ) (old : Disk) (m : Machine) (o : Open start size old m) where
  -- With power for two writes of each logged block and two of the header, the commit of an open
  -- transaction ends. Then the
  -- log is empty in memory and on disk, and every block outside the log area holds the cached data
  -- on the platter and in the cache, with its B_DIRTY cleared.
  pub commit_durable :
      2 * length m.block + 2 ≤ m.power
      → (m' : Machine) × (commit start m ≡ running m')
        × (m'.block ≡ [])
        × (decode_head (m'.disk start) ≡ [])
        × ((b : ℕ)
            → Home start size b
            → (m'.disk b ≡ m.cache b) × (m'.cache b ≡ m.cache b) × (m'.dirty b ≡ false))
  commit_durable h =
      let (m', e) = commit-running start m h in
      let i : Idle start size m.cache m' =
        subst (Safe (OldOrNew start size old m o) (Idle start size m.cache)) e
          (commit-Safe start size old m o) in
      (m', e, i.empty, i.header, i.home)

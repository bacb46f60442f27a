-- ===== src/Fs/Room.antt =====
-- What is left of the log for a system call, and what one `log_write` does to the cache.
use hyu_2020_operating_syste.Base.{
  ℕ, suc, ◌+◌, ◌≤◌, ◌<◌, ◌≡◌, refl, true, some, length, update, arith, List, mem,
}
use hyu_2020_operating_syste.Block.{Block}
use hyu_2020_operating_syste.Log.{Machine, fill}
use hyu_2020_operating_syste.Log.Group.{log_write, log_size, absorb}
use hyu_2020_operating_syste.Log.Group.Absorb.{length-absorb, unlogged, absorb-unlogged}
use hyu_2020_operating_syste.Fs.{Mount, write_block}

module _ (fs : Mount) where
  -- The log has `k` entries left for a system call that is under way.
  pub record Room (k : ℕ) (m : Machine) : Type 0 where
    pub open_call : (1 ≤ fs.ops.outstanding) × (fs.ops.outstanding ≤ 3)
    pub entries : length m.block + k ≤ log_size
    pub blocks : length m.block + k < fs.nlog

  pub Room-mono : (k j : ℕ) (m : Machine) → j ≤ k → Room k m → Room j m
  Room-mono k j m h r = record {
    open_call = r.open_call;
    entries = let e = r.entries in omega arith;
    blocks = let b = r.blocks in omega arith;
  }

  -- With room in the log the write succeeds: it changes that one block, and takes one entry at most.
  pub write_block-Room :
      (k b : ℕ) (v : Block) (m : Machine)
      → Room (suc k) m
      → (m' : Machine) × (write_block fs b v m ≡ some (tt, m'))
        × (m'.cache ≡ update m.cache b v)
        × Room k m'
  unfolding write_block log_write
  write_block-Room k b v m r =
      let e = r.entries in
      let f = r.blocks in
      let o = r.open_call in
      let l = length-absorb b m.block in
      (
        record (fill b v m) { block = absorb b m.block; dirty = update m.dirty b true },
        ground arith,
        refl,
        record { open_call = o; entries = omega arith; blocks = omega arith },
      )

  -- A write that does not panic changes that one block of the cache.
  pub write_block-some :
      (b : ℕ) (v : Block) (m : Machine) {u : Unit {0}} {m' : Machine}
      → write_block fs b v m ≡ some (u, m')
      → m'.cache ≡ update m.cache b v
  unfolding write_block log_write
  write_block-some b v m e = ground arith

  -- The log has room for those of the blocks `bs` that are not in it yet, and for `k` more.
  pub record Reserve (bs : List ℕ) (k : ℕ) (m : Machine) : Type 0 where
    pub open_call : (1 ≤ fs.ops.outstanding) × (fs.ops.outstanding ≤ 3)
    pub entries : length m.block + unlogged bs m.block + k ≤ log_size
    pub blocks : length m.block + unlogged bs m.block + k < fs.nlog

  pub Reserve-Room : (bs : List ℕ) (k : ℕ) (m : Machine) → Reserve bs k m → Room k m
  Reserve-Room bs k m r = record {
    open_call = r.open_call;
    entries = let e = r.entries in omega arith;
    blocks = let b = r.blocks in omega arith;
  }

  write_block-absorb :
      (b : ℕ) (v : Block) (m : Machine) {u : Unit {0}} {m' : Machine}
      → write_block fs b v m ≡ some (u, m')
      → m'.block ≡ absorb b m.block
  unfolding write_block log_write
  write_block-absorb b v m e = ground arith

  -- Writing one of the blocks `bs`, however often, takes none of the `k` entries.
  pub write_block-Reserve :
      (bs : List ℕ) (k b : ℕ) (v : Block) (m : Machine) {u : Unit {0}} {m' : Machine}
      → mem b bs ≡ true
      → write_block fs b v m ≡ some (u, m')
      → Reserve bs k m
      → Reserve bs k m'
  write_block-Reserve bs k b v m {m' = m'} h e r =
      let l = write_block-absorb b v m e in
      let a : length m'.block + unlogged bs m'.block ≤ length m.block + unlogged bs m.block =
        rw l (absorb-unlogged b bs m.block h) in
      record { open_call = r.open_call; entries = omega arith; blocks = omega arith }

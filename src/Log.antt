-- ===== src/Log.antt =====
-- The redo log of project3/xv6-public/log.c: commit and recovery, with the disk writes that a power
-- failure can cut off.
pub mod Group
pub mod Header
pub mod Represents
pub mod Loops
pub mod Install
pub mod Commit
pub mod Atomic
pub mod Power
pub mod Recovery
pub mod Durable
mod Tests
use hyu_2020_operating_syste.Base.{
  ℕ, ◌^◌, zero, suc, ◌+◌, ◌≡◌, Bool, true, false, List, [], ◌∷◌, ◌==◌, if◌then◌else◌, length,
  update, ltb,
}
use hyu_2020_operating_syste.Block.{Block, Disk, get_word, set_word}

-- `cache b` is the data of the buffer that `bread(dev, b)` returns, `disk b` what the platter holds,
-- `dirty b` the buffer's B_DIRTY. `block` is `log.lh`: its length is `lh.n`. `power` counts the disk
-- writes that complete before the power fails.
pub record Machine : Type 0 where
  pub cache : Disk
  pub disk : Disk
  pub dirty : ℕ → Bool
  pub block : List ℕ
  pub power : ℕ

-- A run goes on, or the power has failed and the platter is all that is left.
pub data Run : Type 0 where
  running : Machine → Run
  crashed : Disk → Run

infixl 5 ◌>>=◌
abbrev pub ◌>>=◌ : Run → (Machine → Run) → Run
running m >>= f = f m
crashed d >>= f = crashed d

-- The buffer of block `b` is given the data `v` (`memmove(buf->data, v, BSIZE)`).
abbrev pub fill : ℕ → Block → Machine → Machine
fill b v m = record m { cache = update m.cache b v }

-- `bwrite`, which sets B_DIRTY, and `iderw`, which writes the block and clears it.
pub bwrite : ℕ → Machine → Run
bwrite b m = elim m.power [
  | zero ↦ crashed m.disk
  | suc k ↦
      running
        (record m { disk = update m.disk b (m.cache b); dirty = update m.dirty b false; power = k })
]

-- `log.start` is the section's parameter.
module _ (start : ℕ) where
  -- the loops over `tail`: the list is `lh.block[tail..n)`
  pub write_log_from : ℕ → List ℕ → Machine → Run
  write_log_from tail [] m = running m
  write_log_from tail (b ∷ bs) m =
      bwrite (start + tail + 1) (fill (start + tail + 1) (m.cache b) m)
      >>= write_log_from (tail + 1) bs

  pub install_from : ℕ → List ℕ → Machine → Run
  install_from tail [] m = running m
  install_from tail (b ∷ bs) m =
      bwrite b (fill b (m.cache (start + tail + 1)) m) >>= install_from (tail + 1) bs

  pub write_log : Machine → Run
  unfolding write_log_from
  write_log m = write_log_from 0 m.block m

  pub install_trans : Machine → Run
  unfolding install_from
  install_trans m = install_from 0 m.block m

-- `hb->block[i] = log.lh.block[i]` from `i` on
pub put_blocks : ℕ → List ℕ → Block → Block
put_blocks i [] a = a
put_blocks i (b ∷ bs) a = put_blocks (i + 1) bs (set_word a (i + 1) b)

-- the header block: word 0 is `n`, word i + 1 is `block[i]`
pub encode_head : List ℕ → Block → Block
unfolding put_blocks
encode_head lh a = put_blocks 0 lh (set_word a 0 (length lh))

-- `log.lh.block[i] = lh->block[i]` for the `n` entries from `i` on
pub get_blocks : ℕ → ℕ → Block → List ℕ
get_blocks zero i a = []
get_blocks (suc n) i a = get_word a (i + 1) ∷ get_blocks n (i + 1) a

-- `n` is an `int`: from 2 ^ 31 on it is negative and the loop makes no round.
pub decode_head : Block → List ℕ
unfolding get_blocks
decode_head a =
    let n = get_word a 0 in let entries = get_blocks n 0 a in if ltb n (2 ^ 31) then entries else []

module _ (start : ℕ) where
  pub write_head : Machine → Run
  unfolding bwrite encode_head
  write_head m = bwrite start (fill start (encode_head m.block (m.cache start)) m)

  pub read_head : Machine → Machine
  unfolding decode_head
  read_head m = record m { block = decode_head (m.cache start) }

  -- `log.lh.n = 0`
  abbrev pub clear : Machine → Machine
  clear m = record m { block = [] }

  pub commit : Machine → Run
  commit m =
      if length m.block == 0
      then running m
      else (write_log start m >>= write_head >>= install_trans start >>= λ m'.
          write_head (clear m'))

  pub recover_from_log : Machine → Run
  recover_from_log m = install_trans start (read_head m) >>= λ m'. write_head (clear m')

-- What a reboot finds: `binit`'s buffers hold no block, so that every `bread` reads the disk, and
-- `log.lh.n` is 0.
abbrev pub reboot : ℕ → Disk → Machine
reboot power d = record { cache = d; disk = d; dirty = λ _. false; block = []; power = power }

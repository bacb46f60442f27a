-- ===== src/Log/Group.antt =====
-- `begin_op`, `end_op` and `log_write` of project3/xv6-public/log.c: the system calls that share a
-- transaction.
pub mod Absorb
pub mod System
pub mod Steps
pub mod Reach
use hyu_2020_operating_syste.Base.{
  ℕ, ◌+◌, ◌*◌, ◌-◌, ◌%◌, ◌^◌, Bool, true, false, ◌||◌, Option, none, some, List, [], ◌∷◌, ◌==◌, leb,
  ltb, if◌then◌else◌, length, update, int_lt,
}
use hyu_2020_operating_syste.Log.{Machine}

-- `MAXOPBLOCKS` and `LOGSIZE` of param.h
abbrev pub max_op_blocks : ℕ
max_op_blocks = 40

abbrev pub log_size : ℕ
log_size = max_op_blocks * 3

-- `log.outstanding`, an `int` as its bit pattern, and `log.committing`
pub record Ops : Type 0 where
  pub outstanding : ℕ
  pub committing : Bool

-- One round of the loop of `begin_op`: `none` is a sleep, after which it goes round again.
unfoldable pub begin_op : Machine → Ops → Option Ops
begin_op m o =
    if o.committing
    then none
    else (if int_lt log_size ((length m.block + (o.outstanding + 1) * max_op_blocks) % 2 ^ 32)
        then none
        else some (record o { outstanding = (o.outstanding + 1) % 2 ^ 32 }))

-- `end_op` up to its first `release`: `none` is a panic, the Boolean is `do_commit`.
pub end_op : Ops → Option (Ops × Bool)
end_op o =
    let left = (o.outstanding + 2 ^ 32 - 1) % 2 ^ 32 in
    if o.committing
    then none
    else (if left == 0
        then some (record o { outstanding = left; committing = true }, true)
        else some (record o { outstanding = left }, false))

-- the rest of `end_op`, after `commit()`
pub end_commit : Ops → Ops
end_commit o = record o { committing = false }

-- the search of `log_write` for the block, and the write that appends it if it is not there
pub absorb : ℕ → List ℕ → List ℕ
absorb b [] = b ∷ []
absorb b (x ∷ xs) = if x == b then b ∷ xs else x ∷ absorb b xs

-- `log_write` with `log.size`; `none` is a panic.
unfoldable pub log_write : ℕ → Ops → ℕ → Machine → Option Machine
unfolding absorb
log_write size o b m =
    if leb log_size (length m.block) || leb size (length m.block + 1)
    then none
    else (if int_lt o.outstanding 1
        then none
        else some (record m { block = absorb b m.block; dirty = update m.dirty b true }))

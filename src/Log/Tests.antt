-- ===== src/Log/Tests.antt =====
-- The log at a small disk: the log area is blocks 2 to 6, block 20 is logged, and the power fails
-- while the log is being installed.
use hyu_2020_operating_syste.Base.{
  ℕ, ◌≤◌, ◌≡◌, ◌≢◌, ◌⊎◌, inr, refl, true, false, none, [], ◌∷◌, arith, update, update_ne,
}
use hyu_2020_operating_syste.Block.{Block, Disk, get_word, zero_block}
use hyu_2020_operating_syste.Log.{
  Machine, running, commit, recover_from_log, reboot, decode_head, encode_head,
}
use hyu_2020_operating_syste.Log.Header.{head_lem}
use hyu_2020_operating_syste.Log.Represents.{Home}
use hyu_2020_operating_syste.Log.Commit.{Open}
use hyu_2020_operating_syste.Log.Recovery.{platter, reboots, SameHome, crash_recovery}
use hyu_2020_operating_syste.Log.Durable.{commit_durable}
use hyu_2020_operating_syste.Log.Group.{begin_op, log_write, max_op_blocks}
use hyu_2020_operating_syste.Log.Group.System.{Sys, begin, Reach, here, next, Inv}
use hyu_2020_operating_syste.Log.Group.Reach.{Reach-Inv, uncommitted_lost, log_write-ne-none}

abbrev blank : Disk
blank _ = zero_block

abbrev sevens : Block
sevens _ = 7

abbrev one_logged : ℕ → Machine
one_logged power = record {
  cache = update blank 20 sevens;
  disk = blank;
  dirty = update (λ _. false) 20 true;
  block = 20 ∷ [];
  power = power;
}

one_logged-Open : (power : ℕ) → Open 2 5 blank (one_logged power)
unfolding decode_head get_word
one_logged-Open power = record {
  fits = omega arith;
  small = omega arith;
  homes = (inr (omega arith), tt);
  words = (omega arith, tt);
  header = refl;
  home = λ b h. refl;
  clean = λ b h a. (update_ne blank 20 b sevens a.0, update_ne (λ _. false) 20 b true a.0);
}

-- Two of four writes are done, the first recovery gets none.
crash_recovery_example :
    (m' : Machine) × (recover_from_log 2
        (reboot 5 (reboots 2 (0 ∷ []) (platter (commit 2 (one_logged 2)))))
      ≡ running m')
    × (SameHome 2 5 m'.disk blank ⊎ SameHome 2 5 m'.disk (update blank 20 sevens))
    × (decode_head (m'.disk 2) ≡ [])
crash_recovery_example =
    crash_recovery 2 5 blank (one_logged 2) (one_logged-Open 2) (0 ∷ []) 5 (omega arith)

commit_durable_example :
    (m' : Machine) × (commit 2 (one_logged 4) ≡ running m')
    × (m'.block ≡ [])
    × (decode_head (m'.disk 2) ≡ [])
    × ((b : ℕ)
        → Home 2 5 b
        → (m'.disk b ≡ update blank 20 sevens b)
          × (m'.cache b ≡ update blank 20 sevens b)
          × (m'.dirty b ≡ false))
commit_durable_example = commit_durable 2 5 blank (one_logged 4) (one_logged-Open 4) (omega arith)

head_lem_example :
    (decode_head (encode_head (20 ∷ 70000 ∷ []) sevens) ≡ 20 ∷ 70000 ∷ [])
    × (12 ≤ 512)
    × ((k : ℕ) → 12 ≤ k → encode_head (20 ∷ 70000 ∷ []) sevens k ≡ 7)
head_lem_example =
    head_lem (20 ∷ 70000 ∷ []) sevens (encode_head (20 ∷ 70000 ∷ []) sevens) (omega arith)
      (omega arith) (λ k h. refl)

abbrev start_sys : Sys
start_sys = record {
  ops = record { outstanding = 0; committing = false };
  machine = reboot 100 blank;
  quota = [];
  committed = blank;
}

start_sys-Inv : (size : ℕ) → 1 ≤ size → Inv 2 size start_sys
unfolding decode_head get_word
start_sys-Inv size h = record {
  opened = record {
    fits = h;
    small = omega arith;
    homes = tt;
    words = tt;
    header = refl;
    home = λ b h. refl;
    clean = λ b h a. (refl, refl);
  };
  distinct = tt;
  counted = refl;
  few = omega arith;
  room = omega arith;
  allowance = tt;
  quiet = λ e. cc;
}

abbrev one_call : Sys
one_call = record start_sys {
  ops = record { outstanding = 1; committing = false };
  quota = max_op_blocks ∷ [];
}

one_call-Reach : (size : ℕ) → Reach 2 size start_sys one_call
unfolding begin_op
one_call-Reach size =
    next here (begin start_sys (record { outstanding = 1; committing = false }) refl)

Reach-Inv_example : Inv 2 121 one_call
Reach-Inv_example = Reach-Inv 2 121 (start_sys-Inv 121 (omega arith)) (one_call-Reach 121)

uncommitted_lost_example :
    (m : Machine) × (recover_from_log 2 (reboot 121 (reboots 2 (3 ∷ []) blank)) ≡ running m)
    × SameHome 2 121 m.disk blank
    × (decode_head (m.disk 2) ≡ [])
    × (m.block ≡ [])
uncommitted_lost_example =
    uncommitted_lost 2 121 (3 ∷ []) 121 (start_sys-Inv 121 (omega arith)) (one_call-Reach 121)
      (omega arith)

log_write-ne-none_example : log_write 121 one_call.ops 20 one_call.machine ≢ none
log_write-ne-none_example =
    log_write-ne-none 2 121 20 [] [] 39 (start_sys-Inv 121 (omega arith)) (one_call-Reach 121)
      (omega arith) refl

-- ===== src/Log/Group/Steps.antt =====
-- Each step of the shared log keeps its invariant.
use hyu_2020_operating_syste.Base.{
  ℕ, suc, ◌+◌, ◌*◌, ◌≤◌, ◌<◌, ◌^◌, ◌≡◌, ◌∙◌, refl, sym, ap, subst, Bool, true, false, some, List,
  [], ◌∷◌, ◌++◌, length, length-append, arith, All, update, update_ne,
}
use hyu_2020_operating_syste.Block.{Block, Disk}
use hyu_2020_operating_syste.Log.{Machine, running, fill, commit}
use hyu_2020_operating_syste.Log.Represents.{Home}
use hyu_2020_operating_syste.Log.Loops.{Safe}
use hyu_2020_operating_syste.Log.Commit.{Idle, Open, OldOrNew}
use hyu_2020_operating_syste.Log.Atomic.{commit-Safe}
use hyu_2020_operating_syste.Log.Group.{
  Ops, begin_op, end_op, end_commit, log_write, absorb, max_op_blocks, log_size,
}
use hyu_2020_operating_syste.Log.Group.Absorb.{
  absorb-Absent, All-absorb, Distinct-absorb, length-absorb,
}
use hyu_2020_operating_syste.Log.Group.System.{
  Sys, Step, begin, update as updates, finish, commits, Inv, sum, sum-append, sum_bound, All-middle,
  All-drop,
}

-- `begin_op` admits a call only outside a commit, and only if all calls fit in the log.
begin_op-some :
    (m : Machine) (o o' : Ops)
    → o.outstanding ≤ 3
    → length m.block ≤ log_size
    → begin_op m o ≡ some o'
    → (o.committing ≡ false)
      × (o'.committing ≡ false)
      × (o'.outstanding ≡ o.outstanding + 1)
      × (length m.block + (o.outstanding + 1) * max_op_blocks ≤ log_size)
unfolding begin_op
begin_op-some m o o' h l e = ground arith

end_op-some :
    (o o' : Ops) (last : Bool)
    → 1 ≤ o.outstanding
    → o.outstanding ≤ 3
    → end_op o ≡ some (o', last)
    → (o.committing ≡ false)
      × (o'.outstanding + 1 ≡ o.outstanding)
      × (o'.committing ≡ true → o'.outstanding ≡ 0)
unfolding end_op
end_op-some o o' last h l e = ground arith

-- What `log_write` does when it does not panic.
pub log_write-some :
    (size : ℕ) (o : Ops) (b : ℕ) (m m' : Machine)
    → log_write size o b m ≡ some m'
    → (length m.block < log_size)
      × (length m.block + 1 < size)
      × (m' ≡ record m { block = absorb b m.block; dirty = update m.dirty b true })
unfolding log_write
log_write-some size o b m m' e = ground arith

module _ (start size : ℕ) where
  log_write-Open :
      (old : Disk) (b : ℕ) (v : Block) (m : Machine)
      → Home start size b
      → b < 2 ^ 32
      → length m.block < log_size
      → length m.block + 1 < size
      → Open start size old m
      → Open start size old
          (record (fill b v m) { block = absorb b m.block; dirty = update m.dirty b true })
  log_write-Open old b v m h w l k o = record {
    fits = let p = length-absorb b m.block in omega arith;
    small = let p = length-absorb b m.block in omega arith;
    homes = All-absorb (Home start size) b m.block h o.homes;
    words = All-absorb (λ x. x < 2 ^ 32) b m.block w o.words;
    header = o.header;
    home = o.home;
    clean = λ x hx a.
        let (ne, a') = absorb-Absent x b m.block a in
        (
          update_ne m.cache b x v ne ∙ (o.clean x hx a').0,
          update_ne m.dirty b x true ne ∙ (o.clean x hx a').1,
        );
  }

  Idle-Open : (v : Disk) (m : Machine) → Idle start size v m → Open start size v m
  Idle-Open v m i = record {
    fits = rw i.empty i.room;
    small = rw i.empty (omega arith);
    homes = rw i.empty tt;
    words = rw i.empty tt;
    header = i.header;
    home = λ b hb. (i.home b hb).0;
    clean = λ b hb a. ((i.home b hb).1 ∙ sym (i.home b hb).0, (i.home b hb).2);
  }

  pub begin-Inv :
      (s : Sys) (o : Ops)
      → begin_op s.machine s.ops ≡ some o
      → Inv start size s
      → Inv start size (record s { ops = o; quota = max_op_blocks ∷ s.quota })
  begin-Inv s o e i =
      let room = i.room in
      let c = i.counted in
      let f = i.few in
      let p = begin_op-some s.machine s.ops o (omega arith) (omega arith) e in
      record {
        opened = i.opened;
        distinct = i.distinct;
        counted = omega arith;
        few = omega arith;
        room = let b = sum_bound max_op_blocks s.quota i.allowance in omega arith;
        allowance = (omega arith, i.allowance);
        quiet = λ q. cc (p.1);
      }

  pub finish-Inv :
      (s : Sys) (o : Ops) (last : Bool) (pre post : List ℕ) (q : ℕ)
      → s.quota ≡ pre ++ (q ∷ post)
      → end_op s.ops ≡ some (o, last)
      → Inv start size s
      → Inv start size (record s { ops = o; quota = pre ++ post })
  finish-Inv s o last pre post q e d i =
      let room = i.room in
      let c = i.counted in
      let f = i.few in
      let n : length s.quota ≡ length pre + suc (length post) =
        ap length e ∙ length-append pre (q ∷ post) in
      let n' = length-append pre post in
      let t : sum s.quota ≡ sum pre + (q + sum post) = ap sum e ∙ sum-append pre (q ∷ post) in
      let t' = sum-append pre post in
      let p = end_op-some s.ops o last (omega arith) (omega arith) d in
      record {
        opened = i.opened;
        distinct = i.distinct;
        counted = omega arith;
        few = omega arith;
        room = omega arith;
        allowance =
            All-drop max_op_blocks q pre post (subst (All (λ a. a ≤ max_op_blocks)) e i.allowance);
        quiet = λ x. no_quota (pre ++ post) (omega (arith, p.2 x));
      }
    where
      no_quota : (xs : List ℕ) → length xs ≡ 0 → xs ≡ []
      no_quota [] h = refl
      no_quota (x ∷ xs) h = absurd (omega arith)

  update-Inv :
      (s : Sys) (b : ℕ) (v : Block) (m : Machine) (pre post : List ℕ) (q q' : ℕ)
      → Home start size b
      → b < 2 ^ 32
      → s.quota ≡ pre ++ (q ∷ post)
      → log_write size s.ops b (fill b v s.machine) ≡ some m
      → q' + length m.block ≡ q + length s.machine.block
      → Inv start size s
      → Inv start size (record s { machine = m; quota = pre ++ (q' ∷ post) })
  update-Inv s b v m pre post q q' h w e d x i =
      let room = i.room in
      let (l, k, em) = log_write-some size s.ops b (fill b v s.machine) m d in
      let eb : m.block ≡ absorb b s.machine.block = ap (λ (m : Machine). m.block) em in
      let grows = length-absorb b s.machine.block in
      let lb = ap length eb in
      let n = ap length e ∙ length-append pre (q ∷ post) in
      let n' = length-append pre (q' ∷ post) in
      let t = ap sum e ∙ sum-append pre (q ∷ post) in
      let t' = sum-append pre (q' ∷ post) in
      let c = i.counted in
      let f = i.few in
      record {
        opened = rw em (log_write-Open s.committed b v s.machine h w l k i.opened);
        distinct = rw eb (Distinct-absorb b s.machine.block i.distinct);
        counted = omega arith;
        few = omega arith;
        room = omega arith;
        allowance =
            All-middle max_op_blocks q q' pre post (omega arith)
              (subst (All (λ a. a ≤ max_op_blocks)) e i.allowance);
        quiet = λ z. absurd (let y = ap length (i.quiet z) in omega arith);
      }

  commits-Inv :
      (s : Sys) (m : Machine)
      → s.ops.committing ≡ true
      → commit start s.machine ≡ running m
      → Inv start size s
      → Inv start size
          (record s { ops = end_commit s.ops; machine = m; committed = s.machine.cache })
  unfolding end_commit
  commits-Inv s m c e i =
      let idle : Idle start size s.machine.cache m =
        subst
          (Safe (OldOrNew start size s.committed s.machine i.opened)
            (Idle start size s.machine.cache))
          e (commit-Safe start size s.committed s.machine i.opened) in
      let room = i.room in
      record {
        opened = Idle-Open s.machine.cache m idle;
        distinct = rw (idle.empty) tt;
        counted = i.counted;
        few = i.few;
        room = rw (idle.empty) (omega arith);
        allowance = i.allowance;
        quiet = λ z. i.quiet c;
      }

  pub Step-Inv : {s t : Sys} → Step start size s t → Inv start size s → Inv start size t
  Step-Inv (begin s o e) i = begin-Inv s o e i
  Step-Inv (updates s b v m pre post q q' h w e d x) i =
      update-Inv s b v m pre post q q' h w e d x i
  Step-Inv (finish s o last pre post q e d) i = finish-Inv s o last pre post q e d i
  Step-Inv (commits s m c e) i = commits-Inv s m c e i

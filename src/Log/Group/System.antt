-- ===== src/Log/Group/System.antt =====
-- The file system calls of all processes as steps on one log, in any order.
use hyu_2020_operating_syste.Base.{
  ℕ, ◌+◌, ◌*◌, ◌≤◌, ◌<◌, ◌^◌, ◌≡◌, Bool, true, some, List, [], ◌∷◌, ◌++◌, length, arith, All,
  Distinct,
}
use hyu_2020_operating_syste.Block.{Block, Disk}
use hyu_2020_operating_syste.Log.{Machine, running, fill, commit}
use hyu_2020_operating_syste.Log.Represents.{Home}
use hyu_2020_operating_syste.Log.Commit.{Open}
use hyu_2020_operating_syste.Log.Group.{
  Ops, begin_op, end_op, end_commit, log_write, max_op_blocks, log_size,
}

-- `quota` has, for each system call between `begin_op` and `end_op`, how many more log entries it
-- may take; `committed` is the disk of the last commit.
pub record Sys : Type 0 where
  pub ops : Ops
  pub machine : Machine
  pub quota : List ℕ
  pub committed : Disk

abbrev pub sum : List ℕ → ℕ
sum [] = 0
sum (x ∷ xs) = x + sum xs

module _ (start size : ℕ) where
  -- A system call writes at most MAXOPBLOCKS blocks, between its `begin_op` and its `end_op`, all
  -- outside the log area. The last `end_op` runs `commit` and then clears `committing`.
  pub data Step : Sys → Sys → Type 0 where
    begin :
        (s : Sys) (o : Ops)
        → begin_op s.machine s.ops ≡ some o
        → Step s (record s { ops = o; quota = max_op_blocks ∷ s.quota })
    update :
        (s : Sys) (b : ℕ) (v : Block) (m : Machine) (pre post : List ℕ) (q q' : ℕ)
        → Home start size b
        → b < 2 ^ 32
        → s.quota ≡ pre ++ (q ∷ post)
        → log_write size s.ops b (fill b v s.machine) ≡ some m
        → q' + length m.block ≡ q + length s.machine.block
        → Step s (record s { machine = m; quota = pre ++ (q' ∷ post) })
    finish :
        (s : Sys) (o : Ops) (last : Bool) (pre post : List ℕ) (q : ℕ)
        → s.quota ≡ pre ++ (q ∷ post)
        → end_op s.ops ≡ some (o, last)
        → Step s (record s { ops = o; quota = pre ++ post })
    commits :
        (s : Sys) (m : Machine)
        → s.ops.committing ≡ true
        → commit start s.machine ≡ running m
        → Step s (record s { ops = end_commit s.ops; machine = m; committed = s.machine.cache })

  pub data Reach (s : Sys) : Sys → Type 0 where
    here : Reach s s
    next : {t u : Sys} → Reach s t → Step t u → Reach s u

  pub record Inv (s : Sys) : Type 0 where
    pub opened : Open start size s.committed s.machine
    pub distinct : Distinct s.machine.block
    pub counted : s.ops.outstanding ≡ length s.quota
    pub few : length s.quota ≤ 3
    pub room : length s.machine.block + sum s.quota ≤ log_size
    pub allowance : All (λ q. q ≤ max_op_blocks) s.quota
    pub quiet : s.ops.committing ≡ true → s.quota ≡ []

pub sum-append : (xs ys : List ℕ) → sum (xs ++ ys) ≡ sum xs + sum ys
sum-append [] ys = omega arith
sum-append (x ∷ xs) ys = omega (arith, sum-append xs ys)

pub sum_bound : (n : ℕ) (xs : List ℕ) → All (λ q. q ≤ n) xs → sum xs ≤ n * length xs
sum_bound n [] h = omega arith
sum_bound n (x ∷ xs) h = grind (arith, sum_bound n xs h.1)

-- Changing or dropping one entry of a list of bounded numbers keeps the bound.
pub All-middle :
    (n q q' : ℕ) (xs ys : List ℕ)
    → q' ≤ q
    → All (λ a. a ≤ n) (xs ++ (q ∷ ys))
    → All (λ a. a ≤ n) (xs ++ (q' ∷ ys))
All-middle n q q' [] ys h a = (omega arith, a.1)
All-middle n q q' (x ∷ xs) ys h a = (a.0, All-middle n q q' xs ys h a.1)

pub All-drop :
    (n q : ℕ) (xs ys : List ℕ) → All (λ a. a ≤ n) (xs ++ (q ∷ ys)) → All (λ a. a ≤ n) (xs ++ ys)
All-drop n q [] ys a = a.1
All-drop n q (x ∷ xs) ys a = (a.0, All-drop n q xs ys a.1)

-- ===== src/Pipe/Runs.antt =====
-- A pipe between processes: runs of any number of readers and writers, in any order.
use hyu_2020_operating_syste.Base.{
  ℕ, zero, suc, ◌-◌, Bool, true, false, ◌||◌, List, [], ◌∷◌, ◌++◌, map, length, ◌==◌, if◌then◌else◌,
  update,
}
use hyu_2020_operating_syste.Pipe.{
  Pipe, pipewrite, piperead, pipeclose, Stop, returns, fails, sleeps,
}

-- `rest i` is what call `i` of `pipewrite` has still to write, `sent` the bytes put into the pipe with
-- the calls that wrote them, `received` what all calls of `piperead` have returned, and `cut` says
-- whether a call of `pipewrite` has returned -1.
pub record Conn : Type 0 where
  pub pipe : Pipe
  pub rest : ℕ → List ℕ
  pub sent : List (ℕ × ℕ)
  pub received : List ℕ
  pub cut : Bool

abbrev pub take : ℕ → List ℕ → List ℕ
take zero l = []
take (suc n) [] = []
take (suc n) (x ∷ l) = x ∷ take n l

-- the bytes at the front of `bs` that leave `rest`
abbrev pub written : List ℕ → List ℕ → List ℕ
written bs rest = take (length bs - length rest) bs

abbrev pub tagged : ℕ → List ℕ → List (ℕ × ℕ)
tagged i bs = map (λ (b : ℕ). (i, b)) bs

abbrev pub all_bytes : List (ℕ × ℕ) → List ℕ
all_bytes l = map (λ (x : ℕ × ℕ). x.1) l

-- the bytes of call `i`
abbrev pub bytes_of : ℕ → List (ℕ × ℕ) → List ℕ
bytes_of i [] = []
bytes_of i ((j, b) ∷ l) = let rest = bytes_of i l in if i == j then b ∷ rest else rest

abbrev pub has_failed : Stop → Bool
has_failed returns = false
has_failed fails = true
has_failed sleeps = false

-- what `kill` does to the sleepers
abbrev pub without : ℕ → List ℕ → List ℕ
without me [] = []
without me (i ∷ l) = let rest = without me l in if me == i then rest else i ∷ rest

-- Process `me` runs call `i` of `pipewrite` under the lock, from its start or from a wakeup.
abbrev pub write_run : Conn → ℕ → Bool → ℕ → Conn
write_run c me killed i =
    let out : Stop × List ℕ × Pipe = pipewrite me killed c.pipe (c.rest i) in
    record {
      pipe = out.2;
      rest = update c.rest i (out.1);
      sent = c.sent ++ tagged i (written (c.rest i) out.1);
      received = c.received;
      cut = c.cut || has_failed out.0;
    }

abbrev pub read_run : Conn → ℕ → Bool → ℕ → Conn
read_run c me killed n =
    let out : Stop × List ℕ × Pipe = piperead me killed c.pipe n in
    record c { pipe = out.2; received = c.received ++ out.1 }

-- One run under the lock, whatever its outcome, or a kill, which wakes its process.
pub data Step : Conn → Conn → Type 0 where
  write : (c : Conn) (me : ℕ) (killed : Bool) (i : ℕ) → Step c (write_run c me killed i)
  read : (c : Conn) (me : ℕ) (killed : Bool) (n : ℕ) → Step c (read_run c me killed n)
  close : (c : Conn) (writable : Bool) → Step c (record c { pipe = (pipeclose c.pipe writable).0 })
  kill :
      (c : Conn) (me : ℕ)
      → Step c (record c {
        pipe = record (c.pipe) {
          readers = without me c.pipe.readers;
          writers = without me c.pipe.writers;
        };
      })

pub data Reach (c : Conn) : Conn → Type 0 where
  here : Reach c c
  next : {d e : Conn} → Reach c d → Step d e → Reach c e

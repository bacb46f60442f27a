-- ===== src/Pipe.antt =====
-- Pipes of project3/xv6-public/pipe.c. A call runs under the pipe's lock until it returns or sleeps;
-- one such run is a function here, and a call that slept goes on with another run. The sleepers on
-- the two channels, which the code keeps in the process table, are part of the pipe's state.
pub mod Fifo
pub mod Write
pub mod Read
pub mod Runs
pub mod Stream
pub mod Wakeups
mod Tests
use hyu_2020_operating_syste.Base.{
  ℕ, zero, suc, ◌+◌, ◌%◌, ◌^◌, Bool, true, false, not, ◌&&◌, ◌||◌, List, [], ◌∷◌, ◌==◌,
  if◌then◌else◌, update,
}

abbrev pub pipe_size : ℕ
pipe_size = 512

-- `struct pipe`; `store k` is `data[k]`, read and written below `pipe_size` only. `readers` are the
-- processes asleep on `&nread`, `writers` those asleep on `&nwrite`.
pub record Pipe : Type 0 where
  pub store : ℕ → ℕ
  pub nread : ℕ
  pub nwrite : ℕ
  pub readopen : Bool
  pub writeopen : Bool
  pub readers : List ℕ
  pub writers : List ℕ

-- the fields that `pipealloc` sets
pub pipealloc : (ℕ → ℕ) → Pipe
pipealloc page = record {
  store = page;
  nread = 0;
  nwrite = 0;
  readopen = true;
  writeopen = true;
  readers = [];
  writers = [];
}

-- `nwrite == nread + PIPESIZE`, in `uint`s
abbrev pub is_full : Pipe → Bool
is_full p = p.nwrite == (p.nread + pipe_size) % 2 ^ 32

-- `nread == nwrite`
abbrev pub is_empty : Pipe → Bool
is_empty p = p.nread == p.nwrite

-- `wakeup(&p->nread)`
abbrev pub wake_readers : Pipe → Pipe
wake_readers p = record p { readers = [] }

-- `wakeup(&p->nwrite)`
abbrev pub wake_writers : Pipe → Pipe
wake_writers p = record p { writers = [] }

-- `data[nwrite++ % PIPESIZE] = b`
pub put : Pipe → ℕ → Pipe
put p b = record p {
  store = update p.store (p.nwrite % pipe_size) b;
  nwrite = (p.nwrite + 1) % 2 ^ 32;
}

-- How a run ends: by a return, by a return of -1, or in `sleep`.
pub data Stop : Type 0 where
  returns fails sleeps : Stop

-- `pipewrite` of process `me` from `addr[i]` on. What it has not written comes back with the reason.
pub pipewrite : ℕ → Bool → Pipe → List ℕ → Stop × List ℕ × Pipe
unfolding put
pipewrite me killed p [] = (returns, [], wake_readers p)
pipewrite me killed p (b ∷ bs) =
    let rest = pipewrite me killed (put p b) bs in
    if is_full p
    then (if not p.readopen || killed
        then (fails, b ∷ bs, p)
        else (sleeps, b ∷ bs, record (wake_readers p) { writers = me ∷ p.writers }))
    else rest

-- the copy loop of `piperead`, for at most `n` more bytes
pub copy_out : ℕ → Pipe → List ℕ × Pipe
copy_out zero p = ([], p)
copy_out (suc n) p =
    let rest = copy_out n (record p { nread = (p.nread + 1) % 2 ^ 32 }) in
    if is_empty p then ([], p) else (p.store (p.nread % pipe_size) ∷ rest.0, rest.1)

-- a run of `piperead` of process `me`
pub piperead : ℕ → Bool → Pipe → ℕ → Stop × List ℕ × Pipe
unfolding copy_out
piperead me killed p n =
    if is_empty p && p.writeopen
    then (if killed then (fails, [], p) else (sleeps, [], record p { readers = me ∷ p.readers }))
    else (let (bs, p') = copy_out n p in (returns, bs, wake_writers p'))

-- The Boolean says whether the page is freed.
pub pipeclose : Pipe → Bool → Pipe × Bool
pipeclose p writable =
    let q =
      if writable
      then wake_readers (record p { writeopen = false })
      else wake_writers (record p { readopen = false }) in
    (q, not q.readopen && not q.writeopen)

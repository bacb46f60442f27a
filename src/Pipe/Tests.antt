-- ===== src/Pipe/Tests.antt =====
-- A pipe whose counters are about to wrap around, and a new one.
use hyu_2020_operating_syste.Base.{
  ℕ, zero, suc, ◌-◌, ◌^◌, ◌≡◌, refl, true, false, List, [], ◌∷◌, arith,
}
use hyu_2020_operating_syste.Pipe.{Pipe, pipealloc, pipewrite, piperead, returns}
use hyu_2020_operating_syste.Pipe.Fifo.{IsValid}
use hyu_2020_operating_syste.Pipe.Write.{Wrote, pipewrite-Wrote}
use hyu_2020_operating_syste.Pipe.Read.{Read, piperead-Read}
use hyu_2020_operating_syste.Pipe.Runs.{Conn, Reach, here, next, read, write, read_run, write_run}
use hyu_2020_operating_syste.Pipe.Stream.{InOrder, Reach-InOrder}
use hyu_2020_operating_syste.Pipe.Wakeups.{Awake, Reach-Awake}

abbrev turning : Pipe
turning = record {
  store = λ k. k;
  nread = 2 ^ 32 - 1;
  nwrite = 1;
  readopen = true;
  writeopen = true;
  readers = [];
  writers = 6 ∷ [];
}

turning-IsValid : IsValid turning
turning-IsValid = record {
  read_word = omega arith;
  write_word = omega arith;
  bounded = omega arith;
}

-- Process 5 reads all and wakes writer 6.
piperead-turning :
    piperead 5 false turning 9 ≡ (returns, 511 ∷ 0 ∷ [], record turning { nread = 1; writers = [] })
unfolding piperead
piperead-turning = refl

pipewrite-Wrote_example :
    Wrote 5 false turning (7 ∷ 8 ∷ []) (pipewrite 5 false turning (7 ∷ 8 ∷ []))
pipewrite-Wrote_example = pipewrite-Wrote 5 false (7 ∷ 8 ∷ []) turning turning-IsValid

piperead-Read_example : Read 5 false turning 1 (piperead 5 false turning 1)
piperead-Read_example = piperead-Read 5 false 1 turning turning-IsValid

-- Call 0 of `pipewrite` is given two bytes, call 1 is given one.
abbrev two_calls : ℕ → List ℕ
two_calls zero = 7 ∷ 8 ∷ []
two_calls (suc zero) = 9 ∷ []
two_calls (suc (suc i)) = []

abbrev opened : Conn
opened = record {
  pipe = pipealloc (λ k. 0);
  rest = two_calls;
  sent = [];
  received = [];
  cut = false;
}

opened-InOrder : InOrder two_calls opened
unfolding pipealloc
opened-InOrder = record {
  valid = record { read_word = omega arith; write_word = omega arith; bounded = omega arith };
  bytes = refl;
  calls = λ i. refl;
}

opened-Awake : Awake opened.pipe opened.cut
unfolding pipealloc
opened-Awake = record { writers = λ ne. absurd (ne refl); readers = λ h ne. absurd (ne refl) }

-- Reader 4 sleeps, process 5 writes and wakes it, process 6 writes, reader 4 goes on.
abbrev slept : Conn
slept = read_run opened 4 false 2

abbrev two_written : Conn
two_written = write_run (write_run slept 5 false 0) 6 false 1

abbrev run_on : Conn
run_on = read_run two_written 4 false 2

slept-readers : slept.pipe.readers ≡ 4 ∷ []
unfolding pipealloc piperead
slept-readers = refl

two_written-readers : two_written.pipe.readers ≡ []
unfolding pipealloc piperead pipewrite
two_written-readers = refl

run_on-received : run_on.received ≡ 7 ∷ 8 ∷ []
unfolding pipealloc piperead pipewrite
run_on-received = refl

runs : Reach opened run_on
runs =
    next
      (next (next (next here (read opened 4 false 2)) (write slept 5 false 0))
        (write (write_run slept 5 false 0) 6 false 1))
      (read two_written 4 false 2)

Reach-InOrder_example : InOrder two_calls run_on
Reach-InOrder_example = Reach-InOrder {c = opened} opened-InOrder runs

Reach-Awake_example : Awake run_on.pipe run_on.cut
Reach-Awake_example = Reach-Awake {c = opened} opened-InOrder opened-Awake runs

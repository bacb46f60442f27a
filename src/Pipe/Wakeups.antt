-- ===== src/Pipe/Wakeups.antt =====
-- The wakeups of a pipe: who sleeps on its two channels, and when.
use hyu_2020_operating_syste.Base.{
  ℕ, ◌+◌, ◌≤◌, ◌≡◌, ◌≢◌, ◌⊎◌, inl, inr, ◌∙◌, refl, ap, Bool, true, false, ◌||◌, List, [], arith,
  length, length-append,
}
use hyu_2020_operating_syste.Pipe.{
  Pipe, pipe_size, pipewrite, piperead, pipeclose, Stop, returns, fails, sleeps,
}
use hyu_2020_operating_syste.Pipe.Fifo.{IsValid, used, contents, length-window}
use hyu_2020_operating_syste.Pipe.Write.{Wrote, pipewrite-Wrote}
use hyu_2020_operating_syste.Pipe.Read.{Read, piperead-Read}
use hyu_2020_operating_syste.Pipe.Runs.{
  Conn, Step, Reach, write, read, close, kill, here, next, without, has_failed,
}
use hyu_2020_operating_syste.Pipe.Stream.{InOrder, Reach-InOrder}

-- Nobody sleeps without a reason.
pub record Awake (p : Pipe) (cut : Bool) : Type 0 where
  pub writers : p.writers ≢ [] → (used p ≡ pipe_size) × (p.readopen ≡ true)
  pub readers : cut ≡ false → p.readers ≢ [] → (used p ≡ 0) × (p.writeopen ≡ true)

-- how a run ends, with the others excluded
Stop-cases :
    (s : Stop)
    → ((s ≡ returns) × (s ≢ fails) × (s ≢ sleeps))
      ⊎ (((s ≡ fails) × (s ≢ returns) × (s ≢ sleeps))
          ⊎ ((s ≡ sleeps) × (s ≢ returns) × (s ≢ fails)))
Stop-cases returns = inl (refl, λ e. cc, λ e. cc)
Stop-cases fails = inr (inl (refl, λ e. cc, λ e. cc))
Stop-cases sleeps = inr (inr (refl, λ e. cc, λ e. cc))

length-contents : (p : Pipe) → length (contents p) ≡ used p
length-contents p = length-window p.store p.nread (used p)

failed_or_cut : (cut : Bool) (s : Stop) → s ≡ fails → (cut || has_failed s) ≢ false
failed_or_cut true s e h = cc
failed_or_cut false returns e h = cc
failed_or_cut false fails e h = cc
failed_or_cut false sleeps e h = cc

pipewrite-used :
    (me : ℕ) (killed : Bool) (bs : List ℕ) (p : Pipe)
    → IsValid p
    → used (pipewrite me killed p bs).2 + length (pipewrite me killed p bs).1 ≡ used p + length bs
pipewrite-used me killed bs p v =
    let w = pipewrite-Wrote me killed bs p v in
    let n = ap length w.bytes in
    let l = length-append (contents (pipewrite me killed p bs).2) (pipewrite me killed p bs).1 in
    let r = length-append (contents p) bs in
    let c = length-contents (pipewrite me killed p bs).2 in let d = length-contents p in omega arith

piperead-used :
    (me : ℕ) (killed : Bool) (n : ℕ) (p : Pipe)
    → IsValid p
    → used (piperead me killed p n).2 ≤ used p
piperead-used me killed n p v =
    let r = piperead-Read me killed n p v in
    let e = ap length r.bytes in
    let l = length-append (piperead me killed p n).1 (contents (piperead me killed p n).2) in
    let c = length-contents (piperead me killed p n).2 in let d = length-contents p in omega arith

pipewrite-Awake :
    (me : ℕ) (killed : Bool) (bs : List ℕ) (p : Pipe) (cut : Bool)
    → IsValid p
    → Awake p cut
    → Awake (pipewrite me killed p bs).2 (cut || has_failed (pipewrite me killed p bs).0)
pipewrite-Awake me killed bs p cut v a = elim (Stop-cases out.0) [
  | inl (e, nf, ns) ↦ record {
    writers = λ ne.
        let (full, open_end) = a.writers (λ z. ne (w.stays ns ∙ z)) in
        let l = ap length (w.all e) in
        let g = pipewrite-used me killed bs p v in
        let b = w.valid.bounded in (omega arith, w.ends.0 ∙ open_end);
    readers = λ h ne. absurd (ne (w.wakes nf));
  }
  | inr (inl (e, nr, ns)) ↦ record {
    writers = λ ne. ((w.full nr).0, w.ends.0 ∙ (a.writers (λ z. ne (w.stays ns ∙ z))).1);
    readers = λ h ne. absurd (failed_or_cut cut out.0 e h);
  }
  | inr (inr (e, nr, nf)) ↦ record {
    writers = λ ne. ((w.full nr).0, w.ends.0 ∙ (w.open_end e).0);
    readers = λ h ne. absurd (ne (w.wakes nf));
  }
]
  where
    out : Stop × List ℕ × Pipe
    out = pipewrite me killed p bs

    w : Wrote me killed p bs out
    w = pipewrite-Wrote me killed bs p v

piperead-Awake :
    (me : ℕ) (killed : Bool) (n : ℕ) (p : Pipe) (cut : Bool)
    → IsValid p
    → Awake p cut
    → Awake (piperead me killed p n).2 cut
piperead-Awake me killed n p cut v a = elim (Stop-cases out.0) [
  | inl (e, nf, ns) ↦ record {
    writers = λ ne. absurd (ne (r.wakes e));
    readers = λ h ne.
        let (empty, open_end) = a.readers h (λ z. ne (r.stays ns ∙ z)) in
        (let u = piperead-used me killed n p v in omega arith, r.ends.1 ∙ open_end);
  }
  | inr (inl (e, nr, ns)) ↦ stopped nr
  | inr (inr (e, nr, nf)) ↦ stopped nr
]
  where
    out : Stop × List ℕ × Pipe
    out = piperead me killed p n

    r : Read me killed p n out
    r = piperead-Read me killed n p v

    stopped : out.0 ≢ returns → Awake out.2 cut
    stopped nr =
        let (empty, open_end, same) = r.waits nr in
        record {
          writers = λ ne.
              let z = (a.writers (λ z. ne (ap (λ q. q.writers) same ∙ z))).0 in
              absurd (omega arith);
          readers =
              λ h ne. (let u = piperead-used me killed n p v in omega arith, r.ends.1 ∙ open_end);
        }

pipeclose-Awake : (p : Pipe) (w cut : Bool) → Awake p cut → Awake (pipeclose p w).0 cut
unfolding pipeclose
pipeclose-Awake p true cut a = record { writers = a.writers; readers = λ h ne. absurd (ne refl) }
pipeclose-Awake p false cut a = record { writers = λ ne. absurd (ne refl); readers = a.readers }

Step-Awake :
    {given : ℕ → List ℕ} {c d : Conn}
    → InOrder given c
    → Step c d
    → Awake c.pipe c.cut
    → Awake d.pipe d.cut
Step-Awake o (write c me killed i) a = pipewrite-Awake me killed (c.rest i) c.pipe c.cut o.valid a
Step-Awake o (read c me killed n) a = piperead-Awake me killed n c.pipe c.cut o.valid a
Step-Awake o (close c w) a = pipeclose-Awake c.pipe w c.cut a
Step-Awake o (kill c me) a = record {
  writers = λ ne. a.writers (λ z. ne (ap (λ l. without me l) z));
  readers = λ h ne. a.readers h (λ z. ne (ap (λ l. without me l) z));
}

-- No wakeup is lost: after any runs of `pipewrite`, `piperead` and `pipeclose` calls and kills, in any
-- order, from a pipe where this and the order of the bytes hold, a writer sleeps only while the pipe
-- is full and its read end open, and, as long as no call of `pipewrite` has returned -1, a reader
-- sleeps only while the pipe is empty and its write end open.
pub Reach-Awake :
    {given : ℕ → List ℕ} {c d : Conn}
    → InOrder given c
    → Awake c.pipe c.cut
    → Reach c d
    → Awake d.pipe d.cut
Reach-Awake o a here = a
Reach-Awake o a (next r s) = Step-Awake (Reach-InOrder o r) s (Reach-Awake o a r)

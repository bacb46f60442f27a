-- ===== src/Pipe/Stream.antt =====
-- The bytes of a pipe through all runs: what arrives is what was written, in order.
use hyu_2020_operating_syste.Base.{
  ℕ, ◌-◌, ◌≡◌, ◌≢◌, ◌∙◌, refl, sym, ap, inl, inr, Bool, true, false, ◌||◌, List, [], ◌∷◌, ◌++◌,
  arith, length, length-append, ◌==◌, eq→==, ne→==, update, update_self, update_ne, eq_cases,
  Bool-cases, not,
}
use mathlib.Core.List.{append-nil, append_assoc, append_cancel_right}
use hyu_2020_operating_syste.Pipe.{Pipe, is_full, put, pipewrite, pipeclose}
use hyu_2020_operating_syste.Pipe.Fifo.{IsValid, IsValid-ring, contents}
use hyu_2020_operating_syste.Pipe.Write.{pipewrite-Wrote}
use hyu_2020_operating_syste.Pipe.Read.{piperead-Read}
use hyu_2020_operating_syste.Pipe.Runs.{
  Conn, take, written, tagged, all_bytes, bytes_of, without, write_run, Step, write, read, close,
  kill, Reach, here, next,
}

-- `given i` is what call `i` was given.
pub record InOrder (given : ℕ → List ℕ) (c : Conn) : Type 0 where
  pub valid : IsValid c.pipe
  pub bytes : all_bytes c.sent ≡ c.received ++ contents c.pipe
  pub calls : (i : ℕ) → given i ≡ bytes_of i c.sent ++ c.rest i

take-append : (d r : List ℕ) → take (length d) (d ++ r) ≡ d
take-append [] [] = refl
take-append [] (x ∷ r) = refl
take-append (x ∷ d) r = ap (λ l. x ∷ l) (take-append d r)

written-append : (bs d r : List ℕ) → bs ≡ d ++ r → written bs r ≡ d
written-append bs d r e =
    let n : length bs - length r ≡ length d =
      (let l = ap length e in let k = length-append d r in omega arith) in
    rw (n, e) (take-append d r)

pipewrite-suffix :
    (me : ℕ) (killed : Bool) (bs : List ℕ) (p : Pipe)
    → (d : List ℕ) × (bs ≡ d ++ (pipewrite me killed p bs).1)
unfolding pipewrite
pipewrite-suffix me killed [] p = ([], refl)
pipewrite-suffix me killed (b ∷ bs) p = elim (Bool-cases (is_full p)) [
  | inl full ↦ elim (Bool-cases (not p.readopen || killed)) [
    | inl gone ↦ rw (full, gone) ([], refl)
    | inr waits ↦ rw (full, waits) ([], refl)
  ]
  | inr room ↦
      let (d, e) = pipewrite-suffix me killed bs (put p b) in rw room (b ∷ d, ap (λ l. b ∷ l) e)
]

all_bytes-append : (l m : List (ℕ × ℕ)) → all_bytes (l ++ m) ≡ all_bytes l ++ all_bytes m
all_bytes-append [] m = refl
all_bytes-append (x ∷ l) m = ap (λ k. x.1 ∷ k) (all_bytes-append l m)

all_bytes-tagged : (i : ℕ) (bs : List ℕ) → all_bytes (tagged i bs) ≡ bs
all_bytes-tagged i [] = refl
all_bytes-tagged i (b ∷ bs) = ap (λ k. b ∷ k) (all_bytes-tagged i bs)

bytes_of-append : (i : ℕ) (l m : List (ℕ × ℕ)) → bytes_of i (l ++ m) ≡ bytes_of i l ++ bytes_of i m
bytes_of-append i [] m = refl
bytes_of-append i ((j, b) ∷ l) m = elim (Bool-cases (i == j)) [
  | inl e ↦ rw e (ap (λ k. b ∷ k) (bytes_of-append i l m))
  | inr e ↦ rw e (bytes_of-append i l m)
]

bytes_of-tagged : (i : ℕ) (bs : List ℕ) → bytes_of i (tagged i bs) ≡ bs
bytes_of-tagged i [] = refl
bytes_of-tagged i (b ∷ bs) = rw (eq→== i i refl) (ap (λ k. b ∷ k) (bytes_of-tagged i bs))

bytes_of-tagged_ne : (i j : ℕ) (bs : List ℕ) → j ≢ i → bytes_of j (tagged i bs) ≡ []
bytes_of-tagged_ne i j [] h = refl
bytes_of-tagged_ne i j (b ∷ bs) h = rw (ne→== j i h) (bytes_of-tagged_ne i j bs h)

-- A run of call `i` that wrote `d` and has `r` left.
write-calls :
    (given rest : ℕ → List ℕ) (l : List (ℕ × ℕ)) (i : ℕ) (d r : List ℕ)
    → ((j : ℕ) → given j ≡ bytes_of j l ++ rest j)
    → rest i ≡ d ++ r
    → (j : ℕ) → given j ≡ bytes_of j (l ++ tagged i d) ++ update rest i r j
write-calls given rest l i d r h e j = elim (eq_cases j i) [
  | inl same ↦
      rw
        (
          same,
          update_self rest i r,
          bytes_of-append i l (tagged i d),
          bytes_of-tagged i d,
          append_assoc (bytes_of i l) d r,
          sym e,
        )
        (h i)
  | inr ne ↦
      rw
        (
          update_ne rest i j r ne,
          bytes_of-append j l (tagged i d),
          bytes_of-tagged_ne i j d ne,
          append-nil (bytes_of j l),
        )
        (h j)
]

pipeclose-keeps :
    (p : Pipe) (w : Bool)
    → IsValid p
    → (contents (pipeclose p w).0 ≡ contents p) × IsValid (pipeclose p w).0
unfolding pipeclose
pipeclose-keeps p true v = (refl, IsValid-ring (pipeclose p true).0 v (refl, refl))
pipeclose-keeps p false v = (refl, IsValid-ring (pipeclose p false).0 v (refl, refl))

write_run-InOrder :
    {given : ℕ → List ℕ} (c : Conn) (me : ℕ) (killed : Bool) (i : ℕ)
    → InOrder given c
    → InOrder given (write_run c me killed i)
write_run-InOrder {given} c me killed i o =
    let out = pipewrite me killed c.pipe (c.rest i) in
    let w = pipewrite-Wrote me killed (c.rest i) c.pipe o.valid in
    let (d, e) = pipewrite-suffix me killed (c.rest i) c.pipe in
    let grown =
      append_cancel_right (contents out.2) (contents c.pipe ++ d) out.1 (
        w.bytes
        ∙ ap (λ l. contents c.pipe ++ l) e
        ∙ sym (append_assoc (contents c.pipe) d out.1)) in
    record {
      valid = w.valid;
      bytes =
          rw
            (
              written-append (c.rest i) d out.1 e,
              all_bytes-append c.sent (tagged i d),
              all_bytes-tagged i d,
              grown,
              o.bytes,
            )
            (append_assoc c.received (contents c.pipe) d);
      calls =
          rw (written-append (c.rest i) d out.1 e)
            (write-calls given c.rest c.sent i d out.1 o.calls e);
    }

Step-InOrder : {given : ℕ → List ℕ} {c d : Conn} → Step c d → InOrder given c → InOrder given d
Step-InOrder (write c me killed i) o = write_run-InOrder c me killed i o
Step-InOrder (read c me killed n) o =
    let r = piperead-Read me killed n c.pipe o.valid in
    record {
      valid = r.valid;
      bytes = o.bytes ∙ ap (λ l. c.received ++ l) (sym r.bytes) ∙ simp append_assoc;
      calls = o.calls;
    }
Step-InOrder (close c w) o =
    let (e, v) = pipeclose-keeps c.pipe w o.valid in
    record { valid = v; bytes = o.bytes ∙ ap (λ l. c.received ++ l) (sym e); calls = o.calls }
Step-InOrder (kill c me) o = record {
  valid =
      IsValid-ring
        (record (c.pipe) {
          readers = without me c.pipe.readers;
          writers = without me c.pipe.writers;
        })
        o.valid (refl, refl);
  bytes = o.bytes;
  calls = o.calls;
}

-- From a pipe of which this holds, such as a new one, in every order of runs of any number of
-- `pipewrite`, `piperead` and `pipeclose` calls and of kills, whatever their outcomes: what the readers
-- have received, then the bytes in the pipe, are exactly the bytes that the writers put in, in that
-- order; those of each call of `pipewrite`, then the ones that it has not written, are exactly what it
-- was given; and the pipe stays within its bounds.
pub Reach-InOrder :
    {given : ℕ → List ℕ} {c d : Conn} → InOrder given c → Reach c d → InOrder given d
Reach-InOrder o here = o
Reach-InOrder o (next r s) = Step-InOrder s (Reach-InOrder o r)

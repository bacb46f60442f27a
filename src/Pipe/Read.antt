-- ===== src/Pipe/Read.antt =====
-- What a run of `piperead` does to the queue.
use hyu_2020_operating_syste.Base.{
  ℕ, zero, suc, ◌+◌, ◌%◌, ◌^◌, ◌≡◌, ◌≢◌, ◌∙◌, refl, sym, ap, inl, inr, min, Bool, true, false, ◌&&◌,
  List, [], ◌∷◌, ◌++◌, arith, length, Bool-cases, ==→eq, ==→ne, if◌then◌else◌,
}
use hyu_2020_operating_syste.Pipe.{
  Pipe, pipe_size, is_empty, wake_writers, copy_out, piperead, Stop, returns, fails, sleeps,
}
use hyu_2020_operating_syste.Pipe.Fifo.{
  IsValid, IsValid-ring, used, contents, window_of_pos, at_empty,
}

-- What a run of `piperead` that stops with `out` may have done.
pub record Read (me : ℕ) (killed : Bool) (p : Pipe) (n : ℕ) (out : Stop × List ℕ × Pipe)
    : Type 0 where
  pub bytes : out.1 ++ contents out.2 ≡ contents p
  pub valid : IsValid out.2
  pub ends : (out.2.readopen ≡ p.readopen) × (out.2.writeopen ≡ p.writeopen)
  pub count : out.0 ≡ returns → length out.1 ≡ min n (used p)
  pub waits :
      out.0 ≢ returns
      → (used p ≡ 0) × (p.writeopen ≡ true) × (record (out.2) { readers = p.readers } ≡ p)
  pub alive : out.0 ≡ sleeps → killed ≡ false
  pub wakes : out.0 ≡ returns → out.2.writers ≡ []
  pub joins : out.0 ≡ sleeps → out.2.readers ≡ me ∷ p.readers
  pub stays : out.0 ≢ sleeps → out.2.readers ≡ p.readers

-- What the copy loop may have done.
record Copied (p : Pipe) (n : ℕ) (out : List ℕ × Pipe) : Type 0 where
  bytes : out.0 ++ contents out.1 ≡ contents p
  valid : IsValid out.1
  ends : (out.1.readopen ≡ p.readopen) × (out.1.writeopen ≡ p.writeopen)
  count : length out.0 ≡ min n (used p)
  readers : out.1.readers ≡ p.readers

copy_out-Copied : (n : ℕ) (p : Pipe) → IsValid p → Copied p n (copy_out n p)
unfolding copy_out
copy_out-Copied zero p v = record {
  bytes = refl;
  valid = v;
  ends = (refl, refl);
  count = omega arith;
  readers = refl;
}
copy_out-Copied (suc n) p v = elim (Bool-cases (is_empty p)) [
  | inl none_left ↦
      let same = ==→eq p.nread p.nwrite none_left in
      rw none_left (record {
        bytes = refl;
        valid = v;
        ends = (refl, refl);
        count = let r = v.read_word in omega arith;
        readers = refl;
      })
  | inr some_left ↦
      let ne = ==→ne p.nread p.nwrite some_left in
      let r = v.read_word in
      let w = v.write_word in
      let u = v.bounded in
      let q : Pipe = record p { nread = (p.nread + 1) % 2 ^ 32 } in
      let less : used p ≡ suc (used q) = omega arith in
      let i =
        copy_out-Copied n q
          (record { read_word = omega arith; write_word = w; bounded = omega arith }) in
      rw some_left (record {
        bytes =
            ap (λ l. p.store (p.nread % pipe_size) ∷ l) i.bytes
            ∙ sym (window_of_pos p.store p.nread (used p) (used q) less);
        valid = i.valid;
        ends = i.ends;
        count = let c = i.count in omega arith;
        readers = i.readers;
      })
]

-- When a run of `piperead` on a valid pipe stops, the bytes that it has are the oldest of the pipe,
-- which keeps the others and stays valid. If it returns they are min(n, used) bytes and the sleeping
-- writers are woken; it fails or sleeps only on an empty pipe with its write end open, of which it
-- changes nothing but the sleeping readers, and it sleeps only when not killed. It joins the sleeping
-- readers exactly if it sleeps.
pub piperead-Read :
    (me : ℕ) (killed : Bool) (n : ℕ) (p : Pipe)
    → IsValid p
    → Read me killed p n (piperead me killed p n)
unfolding piperead
piperead-Read me killed n p v = elim (Bool-cases (is_empty p && p.writeopen)) [
  | inl blocked ↦ rw blocked (stops killed (at_empty p v blocked))
  | inr goes ↦
      let i = copy_out-Copied n p v in
      rw goes (record {
        bytes = i.bytes;
        valid = IsValid-ring (wake_writers (copy_out n p).1) i.valid (refl, refl);
        ends = i.ends;
        count = λ e. i.count;
        waits = λ ne. absurd (ne refl);
        alive = λ e. cc;
        wakes = λ e. refl;
        joins = λ e. cc;
        stays = λ ne. i.readers;
      })
]
  where
    stops :
        (k : Bool)
        → (used p ≡ 0) × (p.writeopen ≡ true)
        → Read me k p n
            (if k then (fails, [], p) else (sleeps, [], record p { readers = me ∷ p.readers }))
    stops true z = record {
      bytes = refl;
      valid = v;
      ends = (refl, refl);
      count = λ e. cc;
      waits = λ ne. (z.0, z.1, refl);
      alive = λ e. cc;
      wakes = λ e. cc;
      joins = λ e. cc;
      stays = λ ne. refl;
    }
    stops false z = record {
      bytes = refl;
      valid = IsValid-ring (record p { readers = me ∷ p.readers }) v (refl, refl);
      ends = (refl, refl);
      count = λ e. cc;
      waits = λ ne. (z.0, z.1, refl);
      alive = λ e. refl;
      wakes = λ e. cc;
      joins = λ e. refl;
      stays = λ ne. absurd (ne refl);
    }

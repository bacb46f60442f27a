-- ===== src/Pipe/Write.antt =====
-- What a run of `pipewrite` does to the queue.
use hyu_2020_operating_syste.Base.{
  ℕ, ◌≡◌, ◌≢◌, ◌∙◌, refl, ap, inl, inr, Bool, true, false, not, ◌||◌, List, [], ◌∷◌, ◌++◌, arith,
  Bool-cases,
}
use mathlib.Core.List.{append_assoc}
use hyu_2020_operating_syste.Pipe.{
  Pipe, pipe_size, is_full, put, wake_readers, pipewrite, Stop, returns, fails, sleeps,
}
use hyu_2020_operating_syste.Pipe.Fifo.{
  IsValid, IsValid-ring, used, contents, contents-put, at_full,
}

-- What a run of `pipewrite` that stops with `out` may have done.
pub record Wrote (me : ℕ) (killed : Bool) (p : Pipe) (bs : List ℕ) (out : Stop × List ℕ × Pipe)
    : Type 0 where
  pub bytes : contents out.2 ++ out.1 ≡ contents p ++ bs
  pub valid : IsValid out.2
  pub ends : (out.2.readopen ≡ p.readopen) × (out.2.writeopen ≡ p.writeopen)
  pub all : out.0 ≡ returns → out.1 ≡ []
  pub full : out.0 ≢ returns → (used out.2 ≡ pipe_size) × (out.1 ≢ [])
  pub open_end : out.0 ≡ sleeps → (p.readopen ≡ true) × (killed ≡ false)
  pub wakes : out.0 ≢ fails → out.2.readers ≡ []
  pub silent : out.0 ≡ fails → out.2.readers ≡ p.readers
  pub joins : out.0 ≡ sleeps → out.2.writers ≡ me ∷ p.writers
  pub stays : out.0 ≢ sleeps → out.2.writers ≡ p.writers

-- When a run of `pipewrite` on a valid pipe stops, the bytes that it took are at the end of a valid
-- pipe, in order, and the others come back; it returns when all are written, it stops before that
-- only on a full pipe, and it sleeps only with the read end open and no kill. It wakes the sleeping
-- readers unless it fails, and it joins the sleeping writers exactly if it sleeps.
pub pipewrite-Wrote :
    (me : ℕ) (killed : Bool) (bs : List ℕ) (p : Pipe)
    → IsValid p
    → Wrote me killed p bs (pipewrite me killed p bs)
unfolding pipewrite
pipewrite-Wrote me killed [] p v = record {
  bytes = refl;
  valid = IsValid-ring (wake_readers p) v (refl, refl);
  ends = (refl, refl);
  all = λ e. refl;
  full = λ n. absurd (n refl);
  open_end = λ e. cc;
  wakes = λ n. refl;
  silent = λ e. cc;
  joins = λ e. cc;
  stays = λ n. refl;
}
pipewrite-Wrote me killed (b ∷ bs) p v = elim (Bool-cases (is_full p)) [
  | inl full ↦ rw full (elim (Bool-cases (not p.readopen || killed)) [
    | inl gone ↦ rw gone (record {
      bytes = refl;
      valid = v;
      ends = (refl, refl);
      all = λ e. cc;
      full = λ n. (at_full p v full, λ e. cc);
      open_end = λ e. cc;
      wakes = λ n. absurd (n refl);
      silent = λ e. refl;
      joins = λ e. cc;
      stays = λ n. refl;
    })
    | inr waits ↦ rw waits (record {
      bytes = refl;
      valid = IsValid-ring (record (wake_readers p) { writers = me ∷ p.writers }) v (refl, refl);
      ends = (refl, refl);
      all = λ e. cc;
      full = λ n. (at_full p v full, λ e. cc);
      open_end = λ e. ground arith;
      wakes = λ n. refl;
      silent = λ e. cc;
      joins = λ e. refl;
      stays = λ n. absurd (n refl);
    })
  ])
  | inr room ↦
      let (grown, valid, n) = contents-put p b v room in
      let w = pipewrite-Wrote me killed bs (put p b) valid in
      rw room (record {
        bytes = w.bytes ∙ ap (λ l. l ++ bs) grown ∙ append_assoc (contents p) (b ∷ []) bs;
        valid = w.valid;
        ends = w.ends;
        all = w.all;
        full = w.full;
        open_end = w.open_end;
        wakes = w.wakes;
        silent = w.silent;
        joins = w.joins;
        stays = w.stays;
      })
]

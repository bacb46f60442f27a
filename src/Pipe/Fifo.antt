-- ===== src/Pipe/Fifo.antt =====
-- A pipe behaves as a queue of at most PIPESIZE bytes, also when `nread` and `nwrite` wrap around.
use hyu_2020_operating_syste.Base.{
  ℕ, zero, suc, ◌+◌, ◌-◌, ◌%◌, ◌^◌, ◌≤◌, ◌<◌, ◌≡◌, refl, ap, ap₂, Bool, true, false, ◌&&◌, List, [],
  ◌∷◌, ◌++◌, arith, length, update, update_self, update_ne, ==→eq, ==→ne,
}
use hyu_2020_operating_syste.Pipe.{Pipe, pipe_size, is_full, is_empty, put}

-- the bytes in the pipe
abbrev pub used : Pipe → ℕ
used p = (p.nwrite + 2 ^ 32 - p.nread) % 2 ^ 32

-- the `n` bytes from counter `h` on, oldest first
abbrev pub window : (ℕ → ℕ) → ℕ → ℕ → List ℕ
window s h zero = []
window s h (suc n) = s (h % pipe_size) ∷ window s ((h + 1) % 2 ^ 32) n

abbrev pub contents : Pipe → List ℕ
contents p = window p.store p.nread (used p)

-- The counters are `uint`s at most PIPESIZE apart.
pub record IsValid (p : Pipe) : Type 0 where
  pub read_word : p.nread < 2 ^ 32
  pub write_word : p.nwrite < 2 ^ 32
  pub bounded : used p ≤ pipe_size

-- Who sleeps and which ends are open is no matter.
pub IsValid-ring :
    {p : Pipe} (q : Pipe) → IsValid p → ((q.nread ≡ p.nread) × (q.nwrite ≡ p.nwrite)) → IsValid q
IsValid-ring {p} q v (er, ew) = record {
  read_word = rw er (v.read_word);
  write_word = rw ew (v.write_word);
  bounded = rw (er, ew) (v.bounded);
}

pub length-window : (s : ℕ → ℕ) (h n : ℕ) → length (window s h n) ≡ n
length-window s h zero = refl
length-window s h (suc n) = ap suc (length-window s ((h + 1) % 2 ^ 32) n)

window-put :
    (s : ℕ → ℕ) (b h n w : ℕ)
    → h < 2 ^ 32
    → n < pipe_size
    → w ≡ (h + n) % 2 ^ 32
    → window (update s (w % pipe_size) b) h (suc n) ≡ window s h n ++ (b ∷ [])
window-put s b h zero w hh hn e =
    let same : h % pipe_size ≡ w % pipe_size = omega arith in
    ap (λ x. x ∷ []) (rw same (update_self s (w % pipe_size) b))
window-put s b h (suc n) w hh hn e =
    ap₂ ◌∷◌ (update_ne s (w % pipe_size) (h % pipe_size) b (omega arith))
      (window-put s b ((h + 1) % 2 ^ 32) n w (omega arith) (omega arith) (omega arith))

-- `window` matches on `suc`, the code compares the counters.
pub window_of_pos :
    (s : ℕ → ℕ) (h n m : ℕ)
    → n ≡ suc m
    → window s h n ≡ s (h % pipe_size) ∷ window s ((h + 1) % 2 ^ 32) m
window_of_pos s h n m e = rw e

-- A byte goes to the end.
pub contents-put :
    (p : Pipe) (b : ℕ)
    → IsValid p
    → is_full p ≡ false
    → (contents (put p b) ≡ contents p ++ (b ∷ []))
      × IsValid (put p b)
      × (used (put p b) ≡ used p + 1)
unfolding put
contents-put p b v f =
    let r = v.read_word in
    let w = v.write_word in
    let u = v.bounded in
    let nf = ==→ne p.nwrite ((p.nread + pipe_size) % 2 ^ 32) f in
    let grows : ((p.nwrite + 1) % 2 ^ 32 + 2 ^ 32 - p.nread) % 2 ^ 32 ≡ suc (used p) =
      omega arith in
    (
      rw grows (window-put p.store b p.nread (used p) p.nwrite r (omega arith) (omega arith)),
      record { read_word = r; write_word = omega arith; bounded = omega arith },
      omega arith,
    )

pub at_full : (p : Pipe) → IsValid p → is_full p ≡ true → used p ≡ pipe_size
at_full p v f =
    let e = ==→eq p.nwrite ((p.nread + pipe_size) % 2 ^ 32) f in let r = v.read_word in omega arith

pub at_empty :
    (p : Pipe)
    → IsValid p
    → (is_empty p && p.writeopen) ≡ true
    → (used p ≡ 0) × (p.writeopen ≡ true)
at_empty p v f =
    let (e, o) = both (is_empty p) p.writeopen f in
    let z = ==→eq p.nread p.nwrite e in let r = v.read_word in (omega arith, o)
  where
    both : (a b : Bool) → (a && b) ≡ true → (a ≡ true) × (b ≡ true)
    both a b h = ground arith

-- ===== src/Log/Loops.antt =====
-- The loops `write_log` and `install_trans`, cut off by a power failure after any write.
use hyu_2020_operating_syste.Base.{
  ℕ, zero, suc, ◌+◌, ◌≤◌, ◌<◌, ◌≡◌, ◌⊎◌, ◌∙◌, refl, false, List, [], ◌∷◌, arith, length, update,
  update_self, update_ne, All,
}
use hyu_2020_operating_syste.Block.{Block, Disk}
use hyu_2020_operating_syste.Log.{
  Machine, Run, running, crashed, ◌>>=◌, fill, bwrite, write_log_from,
}
use hyu_2020_operating_syste.Log.Represents.{Home, Stored}

-- `P` holds of the platter if the power fails in the run, and `Q` of the machine if it does not.
abbrev pub Safe : (Disk → Type 0) → (Machine → Type 0) → Run → Type 0
Safe P Q (running m) = Q m
Safe P Q (crashed d) = P d

pub Safe-bind :
    (P : Disk → Type 0) (Q R : Machine → Type 0) (r : Run) (f : Machine → Run)
    → Safe P Q r
    → ((m : Machine) → Q m → Safe P R (f m))
    → Safe P R (r >>= f)
Safe-bind P Q R (running m) f h k = k m h
Safe-bind P Q R (crashed d) f h k = h

-- `>>=` is associative, as far as a run's outcomes go.
pub Safe-assoc :
    (P : Disk → Type 0) (Q : Machine → Type 0) (r : Run) (f g : Machine → Run)
    → Safe P Q (r >>= λ m. f m >>= g)
    → Safe P Q (r >>= f >>= g)
Safe-assoc P Q (running m) f g h = h
Safe-assoc P Q (crashed d) f g h = h

pub Safe-mono :
    (P P' : Disk → Type 0) (Q Q' : Machine → Type 0) (r : Run)
    → ((d : Disk) → P d → P' d)
    → ((m : Machine) → Q m → Q' m)
    → Safe P Q r
    → Safe P' Q' r
Safe-mono P P' Q Q' (running m) p q h = q m h
Safe-mono P P' Q Q' (crashed d) p q h = p d h

abbrev pub written : ℕ → Machine → ℕ → Machine
written b m k = record m {
  disk = update m.disk b (m.cache b);
  dirty = update m.dirty b false;
  power = k;
}

-- A write is atomic: the power fails before it, or it is done.
pub bwrite-Safe :
    (P : Disk → Type 0) (Q : Machine → Type 0) (b : ℕ) (m : Machine) (f : Machine → Run)
    → P m.disk
    → ((k : ℕ) → Safe P Q (f (written b m k)))
    → Safe P Q (bwrite b m >>= f)
unfolding bwrite
bwrite-Safe P Q b m f p q = go m.power
  where
    go :
        (n : ℕ)
        → Safe P Q (elim n [ zero ↦ crashed m.disk | suc k ↦ running (written b m k) ] >>= f)
    go zero = p
    go (suc k) = q k

pub bwrite-last :
    (P : Disk → Type 0) (Q : Machine → Type 0) (b : ℕ) (m : Machine)
    → P m.disk
    → ((k : ℕ) → Q (written b m k))
    → Safe P Q (bwrite b m)
unfolding bwrite
bwrite-last P Q b m p q = go m.power
  where
    go : (n : ℕ) → Safe P Q (elim n [ zero ↦ crashed m.disk | suc k ↦ running (written b m k) ])
    go zero = p
    go (suc k) = q k

module _ (start size : ℕ) where
  -- Block `b` is not one of the log blocks that hold the list from `tail` on.
  abbrev pub Outside : ℕ → List ℕ → ℕ → Type 0
  Outside tail bs b = (b < start + tail + 1) ⊎ (start + tail + length bs < b)

  -- What the loop of `write_log` has done when it ends.
  pub record WroteLog (m : Machine) (tail : ℕ) (bs : List ℕ) (m' : Machine) : Type 0 where
    pub block : m'.block ≡ m.block
    pub dirty : (b : ℕ) → Outside tail bs b → m'.dirty b ≡ m.dirty b
    pub cache : (b : ℕ) → Outside tail bs b → m'.cache b ≡ m.cache b
    pub disk : (b : ℕ) → Outside tail bs b → m'.disk b ≡ m.disk b
    pub stored_cache : Stored start size m'.cache m.cache tail bs
    pub stored_disk : Stored start size m'.disk m.cache tail bs

  -- Where the power fails, only those log blocks differ.
  abbrev pub SameOutside : Machine → ℕ → List ℕ → Disk → Type 0
  SameOutside m tail bs d = (b : ℕ) → Outside tail bs b → d b ≡ m.disk b

  -- The abstract contents may be named by an equal disk, on the blocks of the list.
  pub Stored-cong :
      (d v w : Disk) (tail : ℕ) (bs : List ℕ)
      → All (λ b. v b ≡ w b) bs
      → Stored start size d v tail bs
      → Stored start size d w tail bs
  Stored-cong d v w tail [] h s = tt
  Stored-cong d v w tail (b ∷ bs) h s = (s.0 ∙ h.0, Stored-cong d v w (tail + 1) bs h.1 s.1)

  fill-sources :
      (c : Disk) (l : ℕ) (v : Block) (bs : List ℕ)
      → (start ≤ l)
      → (l < start + size)
      → All (Home start size) bs
      → All (λ b. update c l v b ≡ c b) bs
  fill-sources c l v [] p q h = tt
  fill-sources c l v (b ∷ bs) p q h =
      (update_ne c l b v (let x = h.0 in omega arith), fill-sources c l v bs p q h.1)

  pub write_log_from-Safe :
      (tail : ℕ) (bs : List ℕ) (m : Machine)
      → tail + length bs + 1 ≤ size
      → All (Home start size) bs
      → Safe (SameOutside m tail bs) (WroteLog m tail bs) (write_log_from start tail bs m)
  unfolding write_log_from
  write_log_from-Safe tail [] m f h = record {
    block = refl;
    dirty = λ b o. refl;
    cache = λ b o. refl;
    disk = λ b o. refl;
    stored_cache = tt;
    stored_disk = tt;
  }
  write_log_from-Safe tail (x ∷ bs) m f h =
      bwrite-Safe (SameOutside m tail (x ∷ bs)) (WroteLog m tail (x ∷ bs)) l (fill l v m)
        (write_log_from start (tail + 1) bs) (λ b o. refl)
        (λ k.
          Safe-mono _ _ _ _ (write_log_from start (tail + 1) bs (next k))
            (λ d same b o. same b (omega arith) ∙ update_ne m.disk l b _ (omega arith)) (done k)
            (write_log_from-Safe (tail + 1) bs (next k) (omega arith) h.1))
    where
      l : ℕ
      l = start + tail + 1

      v : Block
      v = m.cache x

      next : ℕ → Machine
      next k = written l (fill l v m) k

      done :
          (k : ℕ) (m' : Machine) → WroteLog (next k) (tail + 1) bs m' → WroteLog m tail (x ∷ bs) m'
      done k m' w = record {
        block = w.block;
        dirty = λ b o. w.dirty b (omega arith) ∙ update_ne m.dirty l b false (omega arith);
        cache = λ b o. w.cache b (omega arith) ∙ update_ne m.cache l b v (omega arith);
        disk = λ b o.
            w.disk b (omega arith) ∙ update_ne m.disk l b (update m.cache l v l) (omega arith);
        stored_cache = (
          w.cache l (omega arith) ∙ update_self m.cache l v,
          Stored-cong m'.cache (update m.cache l v) m.cache (tail + 1) bs sources w.stored_cache,
        );
        stored_disk = (
          w.disk l (omega arith)
              ∙ update_self m.disk l (update m.cache l v l)
              ∙ update_self m.cache l v,
          Stored-cong m'.disk (update m.cache l v) m.cache (tail + 1) bs sources w.stored_disk,
        );
      }
        where
          sources : All (λ b. update m.cache l v b ≡ m.cache b) bs
          sources = fill-sources m.cache l v bs (omega arith) (omega arith) h.1

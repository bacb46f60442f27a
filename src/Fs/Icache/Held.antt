-- ===== src/Fs/Icache/Held.antt =====
-- What holds of the inode table and the references to its entries, and what keeps it.
use hyu_2020_operating_syste.Base.{
  ℕ, ◌^◌, ◌<◌, ◌≤◌, ◌≡◌, ◌≢◌, ◌∙◌, inl, inr, sym, ap, List, [], ◌∷◌, eq_cases, All, length,
  count_by, count-update, update, update-cases,
}
use hyu_2020_operating_syste.Fs.Bmap.{Inode}
use hyu_2020_operating_syste.Fs.Icache.{Icache, ninode}

-- A reference: a pointer to entry `slot`, got for this inode.
pub record Handle : Type 0 where
  pub slot : ℕ
  pub dev : ℕ
  pub inum : ℕ

-- The table, and the references that processes, open files and system calls hold.
pub record Sys : Type 0 where
  pub table : Icache
  pub handles : List Handle

-- how many of the references are to entry `i`
abbrev pub count : ℕ → List Handle → ℕ
count i hs = count_by (λ (h : Handle). h.slot) i hs

abbrev pub Names : Icache → Handle → Type 0
Names ic h = ((ic h.slot).dev ≡ h.dev) × ((ic h.slot).inum ≡ h.inum)

pub record Held (s : Sys) : Type 0 where
  pub counts : (i : ℕ) → (s.table i).ref ≡ count i s.handles
  pub few : length s.handles < 2 ^ 31
  pub names : All (Names s.table) s.handles
  pub low : (i : ℕ) → ninode ≤ i → (s.table i).ref ≡ 0
  pub unique :
      (i j : ℕ)
      → (s.table i).ref ≢ 0
      → (s.table j).ref ≢ 0
      → (s.table i).dev ≡ (s.table j).dev
      → (s.table i).inum ≡ (s.table j).inum
      → i ≡ j

-- Entry `i` gets other contents but keeps its inode, and is in use only if it was.
module _ (s : Sys) (v : Held s) (i : ℕ) (p : Inode) (dev : p.dev ≡ (s.table i).dev)
    (inum : p.inum ≡ (s.table i).inum) (used : p.ref ≢ 0 → (s.table i).ref ≢ 0) where
  field_of :
      {X : Type 0} (f : Inode → X)
      → f p ≡ f (s.table i)
      → (j : ℕ) → f (update s.table i p j) ≡ f (s.table j)
  field_of f e j = elim (update-cases s.table i p j) [
    | inl (same, u) ↦ ap f u ∙ e ∙ ap (λ k. f (s.table k)) (sym same)
    | inr (ne, u) ↦ ap f u
  ]

  was_used : (j : ℕ) → (update s.table i p j).ref ≢ 0 → (s.table j).ref ≢ 0
  was_used j nz = elim (update-cases s.table i p j) [
    | inl (same, u) ↦ λ z.
        used (λ w. nz (ap (λ (q : Inode). q.ref) u ∙ w)) (ap (λ k. (s.table k).ref) (sym same) ∙ z)
    | inr (ne, u) ↦ λ z. nz (ap (λ (q : Inode). q.ref) u ∙ z)
  ]

  Names-kept : (hs : List Handle) → All (Names s.table) hs → All (Names (update s.table i p)) hs
  Names-kept [] a = tt
  Names-kept (h ∷ hs) a = (
    (field_of (λ q. q.dev) dev h.slot ∙ a.0.0, field_of (λ q. q.inum) inum h.slot ∙ a.0.1),
    Names-kept hs a.1,
  )

  pub kept-Held :
      (hs : List Handle)
      → p.ref ≡ count i hs
      → ((j : ℕ) → j ≢ i → count j hs ≡ count j s.handles)
      → length hs < 2 ^ 31
      → All (Names s.table) hs
      → Held (record { table = update s.table i p; handles = hs })
  kept-Held hs r others few names = record {
    counts =
        count-update (λ (q : Inode). q.ref) s.table i p (λ j. count j s.handles) (λ j. count j hs)
          v.counts r others;
    few = few;
    names = Names-kept hs names;
    low = λ j h. elim (eq_cases (update s.table i p j).ref 0) [
      | inl z ↦ z
      | inr nz ↦ absurd (was_used j nz (v.low j h))
    ];
    unique = λ j k x y d n.
        v.unique j k (was_used j x) (was_used k y)
          (sym (field_of (λ q. q.dev) dev j) ∙ d ∙ field_of (λ q. q.dev) dev k)
          (sym (field_of (λ q. q.inum) inum j) ∙ n ∙ field_of (λ q. q.inum) inum k);
  }

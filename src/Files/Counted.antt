-- ===== src/Files/Counted.antt =====
-- The reference counts of the table are the numbers of references that the processes hold.
use hyu_2020_operating_syste.Base.{
  ℕ, suc, ◌+◌, ◌^◌, ◌<◌, ◌≡◌, ◌∙◌, sym, ap, refl, ◌⊎◌, inl, inr, Option, none, some, List, ◌∷◌,
  ◌++◌, length, update, eq→==, ne→==, arith, count_by, count_by-middle, count_by_bound,
  length-middle, count-update,
}
use hyu_2020_operating_syste.Files.{Kind, File, Table, filealloc, filedup, fileclose}
use hyu_2020_operating_syste.Files.Calls.{fileclose-cases, filedup-some, filealloc-some}

-- how often `i` occurs
abbrev pub count : ℕ → List ℕ → ℕ
count i xs = count_by (λ x. x) i xs

-- The table, and the references to its entries: those of descriptors, and of system calls that run.
pub record Sys : Type 0 where
  pub table : Table
  pub handles : List ℕ

-- A reference is made by `filealloc` or `filedup`, given up by `fileclose`, and a file that is referred
-- to may change in all but its count. There are never 2 ^ 31 references.
pub data Step : Sys → Sys → Type 0 where
  allocs :
      (s : Sys) (i : ℕ) (t : Table)
      → length s.handles + 1 < 2 ^ 31
      → filealloc s.table ≡ some (i, t)
      → Step s (record { table = t; handles = i ∷ s.handles })
  dups :
      (s : Sys) (i : ℕ) (t : Table)
      → length s.handles + 1 < 2 ^ 31
      → filedup i s.table ≡ some t
      → Step s (record { table = t; handles = i ∷ s.handles })
  closes :
      (s : Sys) (i : ℕ) (pre post : List ℕ) (ff : Option File) (t : Table)
      → s.handles ≡ pre ++ (i ∷ post)
      → fileclose i s.table ≡ some (ff, t)
      → Step s (record { table = t; handles = pre ++ post })
  changes :
      (s : Sys) (i : ℕ) (f : File)
      → f.ref ≡ (s.table i).ref
      → Step s (record s { table = update s.table i f })

pub data Reach (s : Sys) : Sys → Type 0 where
  here : Reach s s
  next : {t u : Sys} → Reach s t → Step t u → Reach s u

pub record Counted (s : Sys) : Type 0 where
  pub counts : (i : ℕ) → (s.table i).ref ≡ count i s.handles
  pub few : length s.handles < 2 ^ 31

module _ (s : Sys) (v : Counted s) (i : ℕ) where
  held :
      (pre post : List ℕ)
      → s.handles ≡ pre ++ (i ∷ post)
      → (s.table i).ref ≡ suc (count i (pre ++ post))
  held pre post e =
      v.counts i
      ∙ ap (count i) e
      ∙ count_by-middle (λ x. x) i i pre post
      ∙ rw (eq→== i i refl) (omega arith)

  bounded :
      (pre post : List ℕ) → s.handles ≡ pre ++ (i ∷ post) → suc (count i (pre ++ post)) < 2 ^ 31
  bounded pre post e =
      let l = ap length e ∙ length-middle i pre post in
      let c = count_by_bound (λ x. x) i (pre ++ post) in let f = v.few in omega arith

  -- A reference that is made: the count of `i` goes up by one.
  one_more :
      (t : Table) (f : File)
      → t ≡ update s.table i f
      → f.ref ≡ (s.table i).ref + 1
      → length s.handles + 1 < 2 ^ 31
      → Counted (record { table = t; handles = i ∷ s.handles })
  one_more t f e r b = record {
    counts = rw e (
        count-update (λ (f : File). f.ref) s.table i f (λ j. count j s.handles)
          (λ j. count j (i ∷ s.handles)) v.counts
          (let c = v.counts i in let o = eq→== i i refl in rw o (omega arith))
          (λ j ne. let o = ne→== j i ne in rw o (omega arith)));
    few = omega arith;
  }

  one_less :
      (pre post : List ℕ) (t : Table) (f : File)
      → s.handles ≡ pre ++ (i ∷ post)
      → t ≡ update s.table i f
      → f.ref ≡ count i (pre ++ post)
      → Counted (record { table = t; handles = pre ++ post })
  one_less pre post t f e u r = record {
    counts = rw u (
        count-update (λ (f : File). f.ref) s.table i f (λ j. count j s.handles)
          (λ j. count j (pre ++ post)) v.counts r
          (λ j ne.
            let o = ne→== j i ne in
            sym (ap (count j) e ∙ count_by-middle (λ x. x) j i pre post ∙ rw o (omega arith))));
    few = let l = ap length e ∙ length-middle i pre post in let b = v.few in omega arith;
  }

Step-Counted : {s t : Sys} → Step s t → Counted s → Counted t
Step-Counted (allocs s i t b e) v =
    let (z, u) = filealloc-some i s.table t e in one_more s v i t _ u (rw z refl) b
Step-Counted (dups s i t b e) v =
    let c = v.counts i in
    let n = count_by_bound (λ x. x) i s.handles in
    one_more s v i t _ (filedup-some i s.table t (omega arith) e) refl b
Step-Counted (closes s i pre post ff t h e) v =
    elim (fileclose-cases i (count i (pre ++ post)) s.table (held s v i pre post h)
      (bounded s v i pre post h)) [
        | inl (m, c) ↦
            one_less s v i pre post t (record (s.table i) { ref = count i (pre ++ post) }) h
              (let same = sym c ∙ e in cc) refl
        | inr (z, c) ↦
            one_less s v i pre post t (record (s.table i) { ref = 0; type = Kind.fd_none }) h
              (let same = sym c ∙ e in cc) (sym z)
      ]
Step-Counted (changes s i f r) v = record {
  counts =
      count-update (λ (f : File). f.ref) s.table i f (λ j. count j s.handles)
        (λ j. count j s.handles) v.counts (r ∙ v.counts i) (λ j ne. refl);
  few = v.few;
}

-- From a state in which the counts of the table are the numbers of references, they stay so in every
-- sequence of filealloc, filedup and fileclose calls and of other changes of files, while there are
-- fewer than 2 ^ 31 references.
pub Reach-Counted : {s t : Sys} → Counted s → Reach s t → Counted t
Reach-Counted v here = v
Reach-Counted v (next r st) = Step-Counted st (Reach-Counted v r)

-- In every state that such a sequence reaches from a state whose counts are right, closing a file that
-- is referred to does not panic; if another reference is left the count is the number of those, and
-- otherwise the slot is free and the file comes back to be given up.
pub fileclose_lem :
    {s t : Sys} (i : ℕ) (pre post : List ℕ)
    → Counted s
    → Reach s t
    → t.handles ≡ pre ++ (i ∷ post)
    → ((0 < count i (pre ++ post))
        × (fileclose i t.table
            ≡ some (none, update t.table i (record (t.table i) { ref = count i (pre ++ post) }))))
      ⊎ ((count i (pre ++ post) ≡ 0)
          × (fileclose i t.table
              ≡ some (
                some (record (t.table i) { ref = 0 }),
                update t.table i (record (t.table i) { ref = 0; type = Kind.fd_none }),
              )))
fileclose_lem {s} {t} i pre post v r h =
    let w = Reach-Counted v r in
    fileclose-cases i (count i (pre ++ post)) t.table (held t w i pre post h)
      (bounded t w i pre post h)

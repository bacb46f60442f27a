-- ===== src/Fs/Truncate/Roots.antt =====
-- What `itrunc` does with the entries of `addrs`, one after the other.
use hyu_2020_operating_syste.Base.{
  ℕ, zero, suc, ◌+◌, ◌<◌, ◌≤◌, ◌≡◌, ◌∙◌, ◌⊎◌, inl, inr, sym, ap, ap₂, refl, [], ◌++◌, ◌==◌, arith,
  All, All-parts, eq_cases, eq→==, ne→==, update, update_self, update_ne, if◌then◌else◌, subst,
}
use mathlib.Core.List.{append_assoc, append-nil}
use hyu_2020_operating_syste.Block.{Disk}
use hyu_2020_operating_syste.Log.{Machine}
use hyu_2020_operating_syste.Fs.{Mount, M, ◌>>=◌, ◌>>◌, pure, >>=-cong, >>=-assoc}
use hyu_2020_operating_syste.Fs.Bmap.{Inode, ndirect}
use hyu_2020_operating_syste.Fs.Truncate.{free_tree, free_addr, free_direct}
use hyu_2020_operating_syste.Fs.Truncate.Blocks.{tree_blocks, depth, roots}
use hyu_2020_operating_syste.Fs.Truncate.FreeAll.{free_all, free_all-append, free_all-Apart, Apart}
use hyu_2020_operating_syste.Fs.Truncate.Walk.{Outside, insides, free_tree-Frees}

-- `addrs[i]` up to `addrs[j - 1]` are 0 in `ip'`, which is otherwise `ip`.
pub record Cleared (i j : ℕ) (ip ip' : Inode) : Type 0 where
  pub rest : ip' ≡ record ip { addrs = ip'.addrs }
  pub zeros : (k : ℕ) → i ≤ k → k < j → ip'.addrs k ≡ 0
  pub same : (k : ℕ) → ((k < i) ⊎ (j ≤ k)) → ip'.addrs k ≡ ip.addrs k

Cleared-trans :
    {i j l : ℕ} {p q r : Inode}
    → i ≤ j
    → j ≤ l
    → Cleared i j p q
    → Cleared j l q r
    → Cleared i l p r
Cleared-trans {i} {j} {l} {p} {q} {r} h g a b = record {
  rest = b.rest ∙ ap (λ (z : Inode). record z { addrs = r.addrs }) a.rest;
  zeros =
      λ k x y. elim (split k) [ inl s ↦ b.same k (inl s) ∙ a.zeros k x s | inr s ↦ b.zeros k s y ];
  same = λ k s. elim s [
    | inl x ↦ b.same k (inl (omega arith)) ∙ a.same k (inl x)
    | inr x ↦ b.same k (inr x) ∙ a.same k (inr (omega arith))
  ];
}
  where
    split : (k : ℕ) → (k < j) ⊎ (j ≤ k)
    split k = ground arith

roots-cong :
    (c : Disk) (a a' : ℕ → ℕ) (n i : ℕ)
    → ((k : ℕ) → i ≤ k → a' k ≡ a k)
    → roots c a' n i ≡ roots c a n i
unfolding roots
roots-cong c a a' zero i h = refl
roots-cong c a a' (suc n) i h =
    ap₂ (λ x ys. (if x == 0 then [] else tree_blocks c (depth i) x) ++ ys) (h i (omega arith))
      (roots-cong c a a' n (i + 1) (λ k l. h k (omega arith)))

roots-append :
    (c : Disk) (a : ℕ → ℕ) (n l i : ℕ) → roots c a (n + l) i ≡ roots c a n i ++ roots c a l (i + n)
unfolding roots
roots-append c a zero l i =
    let z : 0 + l ≡ l = omega arith in let y : i + 0 ≡ i = omega arith in rw (z, y) refl
roots-append c a (suc n) l i =
    let z : suc n + l ≡ suc (n + l) = omega arith in
    let y : i + 1 + n ≡ i + suc n = omega arith in
    rw (z, ← y, roots-append c a n l (i + 1))
      (sym (
        append_assoc (if a i == 0 then [] else tree_blocks c (depth i) (a i)) (roots c a n (i + 1))
          (roots c a l (i + 1 + n))))

-- The four parts of `itrunc`, one after the other.
abbrev pub free_roots : Mount → Inode → M Inode
free_roots fs ip =
    free_direct fs 10 0 ip >>= free_addr fs 1 10 >>= free_addr fs 2 11 >>= free_addr fs 3 12

module _ (fs : Mount) (c : Disk) where
  -- While only the bitmap changes, `q` frees the blocks under `n` entries from `i` on and clears these.
  abbrev pub Clears : ℕ → ℕ → (Inode → M Inode) → Type 0
  Clears n i q =
      (ip : Inode)
      → (ip' : Inode) × Cleared i (i + n) ip ip'
        × (All (Outside fs c) (roots c ip.addrs n i)
            → (m : Machine) → Apart fs c m
            → q ip m ≡ (free_all fs (roots c ip.addrs n i) >> pure ip') m)

  pub Clears-append :
      (n l i : ℕ) (q r : Inode → M Inode)
      → Clears n i q
      → Clears l (i + n) r
      → Clears (n + l) i (λ ip. q ip >>= r)
  Clears-append n l i q r p s ip =
      let (ip1, c1, e1) = p ip in
      let (ip2, c2, e2) = s ip1 in
      let plus : i + n + l ≡ i + (n + l) = omega arith in
      let xs = roots c ip.addrs n i in
      let ys = roots c ip1.addrs l (i + n) in
      let all : roots c ip.addrs (n + l) i ≡ xs ++ ys =
        roots-append c ip.addrs n l i
        ∙ ap (λ zs. xs ++ zs)
            (sym (roots-cong c ip.addrs ip1.addrs l (i + n) (λ k h. c1.same k (inr h)))) in
      (
        ip2,
        subst (λ j. Cleared i j ip ip2) plus (Cleared-trans (omega arith) (omega arith) c1 c2),
        λ out m apart.
            let (hx, hy) =
              All-parts (Outside fs c) xs ys (subst (λ zs. All (Outside fs c) zs) all out) in
            >>=-cong (q ip) (free_all fs xs >> pure ip1) r r m (e1 hx m apart) (λ _ _ _. refl)
            ∙ >>=-assoc (free_all fs xs) (λ _. pure ip1) r m
            ∙ >>=-cong (free_all fs xs) (free_all fs xs) (λ _. pure ip1 >>= r)
                (λ _. free_all fs ys >> pure ip2) m refl
                (λ u m1 e.
                  e2 hy m1
                    (λ x f. free_all-Apart fs xs m m1 (insides fs c xs hx) e x f ∙ apart x f))
            ∙ sym (>>=-assoc (free_all fs xs) (λ _. free_all fs ys) (λ _. pure ip2) m)
            ∙ >>=-cong (free_all fs xs >> free_all fs ys) (free_all fs (xs ++ ys)) (λ _. pure ip2)
                (λ _. pure ip2) m (sym (free_all-append fs xs ys m)) (λ _ _ _. refl)
            ∙ ap (λ zs. (free_all fs zs >> pure ip2) m) (sym all),
      )

  free_addr-Clears : (k : ℕ) → Clears 1 k (free_addr fs (depth k) k)
  unfolding free_addr roots
  free_addr-Clears k ip = elim (eq_cases (ip.addrs k) 0) [
    | inl z ↦
        let o = eq→== (ip.addrs k) 0 z in
        (
          ip,
          record {
            rest = refl;
            zeros = λ j h l. let e : j ≡ k = omega arith in ap ip.addrs e ∙ z;
            same = λ j h. refl;
          },
          λ out m apart. rw o refl,
        )
    | inr nz ↦
        let o = ne→== (ip.addrs k) 0 nz in
        (
          record ip { addrs = update ip.addrs k 0 },
          record {
            rest = refl;
            zeros = λ j h l.
                let e : j ≡ k = omega arith in
                ap (update ip.addrs k 0) e ∙ update_self ip.addrs k 0;
            same = λ j h.
                update_ne ip.addrs k j 0
                  (λ e. elim h [ inl x ↦ absurd (omega arith) | inr x ↦ absurd (omega arith) ]);
          },
          λ out m apart. rw o (
              >>=-cong (free_tree fs (depth k) (ip.addrs k))
                (free_all fs (tree_blocks c (depth k) (ip.addrs k) ++ [])) _ _ m
                (free_tree-Frees fs c (depth k) (ip.addrs k)
                    (subst (All (Outside fs c)) (append-nil (tree_blocks c (depth k) (ip.addrs k)))
                      (rw o at out))
                    m apart
                  ∙ ap (λ zs. free_all fs zs m)
                      (sym (append-nil (tree_blocks c (depth k) (ip.addrs k)))))
                (λ _ _ _. refl)),
        )
  ]

  free_direct-Clears : (n i : ℕ) → i + n ≤ ndirect → Clears n i (free_direct fs n i)
  unfolding free_direct
  free_direct-Clears zero i h ip = (
    ip,
    record { rest = refl; zeros = λ k x y. absurd (omega arith); same = λ k x. refl },
    λ out m apart. unfold roots in refl,
  )
  free_direct-Clears (suc n) i h ip =
      let level : depth i ≡ 0 = ground arith in
      let first : Clears 1 i (free_addr fs 0 i) =
        subst (λ d. Clears 1 i (free_addr fs d i)) level (free_addr-Clears i) in
      let plus : 1 + n ≡ suc n = omega arith in
      let all : Clears (suc n) i (free_direct fs (suc n) i) =
        subst (λ l. Clears l i (free_direct fs (suc n) i)) plus
          (Clears-append 1 n i (free_addr fs 0 i) (free_direct fs n (i + 1)) first
            (free_direct-Clears n (i + 1) (omega arith))) in
      all ip

  pub free_roots-Clears : Clears 13 0 (free_roots fs)
  free_roots-Clears =
      Clears-append 12 1 0
        (λ ip. free_direct fs 10 0 ip >>= free_addr fs 1 10 >>= free_addr fs 2 11)
        (free_addr fs 3 12)
        (Clears-append 11 1 0 (λ ip. free_direct fs 10 0 ip >>= free_addr fs 1 10)
          (free_addr fs 2 11)
          (Clears-append 10 1 0 (free_direct fs 10 0) (free_addr fs 1 10)
            (free_direct-Clears 10 0 (omega arith)) (free_addr-Clears 10))
          (free_addr-Clears 11))
        (free_addr-Clears 12)

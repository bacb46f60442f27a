-- ===== src/Fs/Truncate/Blocks.antt =====
-- The blocks of a file, read off its tables in the order in which `itrunc` frees them.
use hyu_2020_operating_syste.Base.{
  ℕ, zero, suc, ◌+◌, ◌-◌, ◌^◌, List, [], ◌∷◌, ◌++◌, ◌==◌, ltb, if◌then◌else◌,
}
use hyu_2020_operating_syste.Block.{Block, Disk, get_word}
use hyu_2020_operating_syste.Fs.Bmap.{Inode, ndirect}
use hyu_2020_operating_syste.Fs.Dinode.{naddrs}

-- the entries of a table, from word `i` on for `n` words, and what `under` gives for each
unfoldable pub entries : (ℕ → List ℕ) → Block → ℕ → ℕ → List ℕ
entries under a zero i = []
entries under a (suc n) i =
    (if get_word a i == 0 then [] else under (get_word a i)) ++ entries under a n (i + 1)

-- block `b` and what is under it, where it is a table of `d` levels
unfoldable pub tree_blocks : Disk → ℕ → ℕ → List ℕ
tree_blocks c zero b = b ∷ []
tree_blocks c (suc d) b = entries (tree_blocks c d) (c b) (2 ^ 7) 0 ++ (b ∷ [])

-- the levels of tables under `addrs[k]`
abbrev pub depth : ℕ → ℕ
depth k = if ltb k ndirect then 0 else k - ndirect + 1

-- the blocks under `addrs[i]` and the `n - 1` after it
unfoldable pub roots : Disk → (ℕ → ℕ) → ℕ → ℕ → List ℕ
roots c addrs zero i = []
roots c addrs (suc n) i =
    (if addrs i == 0 then [] else tree_blocks c (depth i) (addrs i)) ++ roots c addrs n (i + 1)

abbrev pub file_blocks : Disk → Inode → List ℕ
file_blocks c ip = roots c ip.addrs naddrs 0

-- ===== src/Files/Tests.antt =====
-- A table in which one file is opened, duplicated and closed.
use hyu_2020_operating_syste.Base.{
  ℕ, ◌<◌, ◌≡◌, ◌⊎◌, refl, false, none, some, [], ◌∷◌, arith, update,
}
use hyu_2020_operating_syste.Files.{Kind, File, find_unused, filealloc, filedup, fileclose}
use hyu_2020_operating_syste.Files.Counted.{
  Sys, Reach, here, next, allocs, dups, Counted, Reach-Counted, fileclose_lem,
}

abbrev no_file : File
no_file = record {
  type = Kind.fd_none;
  ref = 0;
  readable = false;
  writable = false;
  pipe = 0;
  ip = 0;
  off = 0;
}

abbrev empty : Sys
empty = record { table = λ i. no_file; handles = [] }

abbrev opened : Sys
opened = record { table = update empty.table 0 (record no_file { ref = 1 }); handles = 0 ∷ [] }

abbrev doubled : Sys
doubled = record {
  table = update opened.table 0 (record no_file { ref = 2 });
  handles = 0 ∷ 0 ∷ [];
}

empty-Counted : Counted empty
empty-Counted = record { counts = λ i. refl; few = omega arith }

filealloc_runs : filealloc empty.table ≡ some (0, opened.table)
unfolding filealloc find_unused
filealloc_runs = refl

filedup_runs : filedup 0 opened.table ≡ some doubled.table
unfolding filedup
filedup_runs = refl

doubled-Reach : Reach empty doubled
doubled-Reach =
    next (next here (allocs empty 0 opened.table (omega arith) filealloc_runs))
      (dups opened 0 doubled.table (omega arith) filedup_runs)

Reach-Counted_example : Counted doubled
Reach-Counted_example = Reach-Counted empty-Counted doubled-Reach

fileclose_lem_example :
    ((0 < 1)
      × (fileclose 0 doubled.table
          ≡ some (none, update doubled.table 0 (record no_file { ref = 1 }))))
    ⊎ ((◌≡◌ {A = ℕ} 1 0)
        × (fileclose 0 doubled.table ≡ some (some no_file, update doubled.table 0 no_file)))
fileclose_lem_example = fileclose_lem 0 [] (0 ∷ []) empty-Counted doubled-Reach refl

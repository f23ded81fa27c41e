-- ===== src/Store/Retention.antt =====
-- db/repository.py: `delete_runs_older_than`.
use llopster.Base.{
  ℕ, ◌+◌, ◌≡◌, refl, List, [], ◌∷◌, true, arith, leb, ltb, length, filter, All, Has, filter-All,
  Has-filter,
}
use llopster.Store.{Run, Db, delete_runs_older_than}

count_split :
    (cutoff : ℕ) (runs : List Run)
    → length (filter (λ run. leb cutoff run.created_at) runs)
        + length (filter (λ run. ltb run.created_at cutoff) runs)
      ≡ length runs
count_split cutoff [] = refl
count_split cutoff (run ∷ runs) = ground (arith, count_split cutoff runs)

-- Pruning keeps exactly the rows that are not older than the cutoff, in their order, and the
-- number that it returns is the number of the rows that are gone.
delete_runs_older_than_lem :
    (cutoff : ℕ) (db : Db)
    → (length (delete_runs_older_than cutoff db).0.runs + (delete_runs_older_than cutoff db).1
        ≡ length db.runs)
      × All (λ run. leb cutoff run.created_at ≡ true) (delete_runs_older_than cutoff db).0.runs
      × ((run : Run)
          → Has run db.runs
          → leb cutoff run.created_at ≡ true
          → Has run (delete_runs_older_than cutoff db).0.runs)
unfolding delete_runs_older_than
delete_runs_older_than_lem cutoff db =
    (count_split cutoff db.runs, filter-All _ db.runs, λ run m h. Has-filter _ m h)

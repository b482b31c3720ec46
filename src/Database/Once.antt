-- ===== src/Database/Once.antt =====
-- Each migration is executed once over all starts of the program (src/db/database.service.ts).
use timeoff_request.Base.{ℕ, ◌≡◌, String, List, ◌∷◌, ◌++◌}
use timeoff_request.Domain.Errors.{Error, Result, ok, err}
use timeoff_request.Database.Files.{FileSystem}
use timeoff_request.Database.Migrations.{
  Schema, migrations_dir, migration_names, run_all, run_migrations,
}
use timeoff_request.Database.Applied.{
  Distinct, pending, names_of, built_all, run_all-Left, run_all-again, run_all-Recorded,
}

-- The names in the directory, `.sql` files in their order, are each there once. A run that returns
-- has executed exactly the files whose names had no row, in order, and has added their names to the
-- rows; a run that throws has done so with the files before the one that threw, whose name has no row,
-- so the next start takes it up again. After a run that returned, another one changes nothing.
pub run_migrations_lem :
    {S : Type 0} (exec : String → S → Result Unit × S) (times : ℕ → ℕ) (fs : FileSystem)
    (compiled source : String) (s : Schema S)
    → Distinct (migration_names fs (migrations_dir fs compiled source))
    → let dir = migrations_dir fs compiled source in
      let todo = pending (migration_names fs dir) s.migrations in
      let (r, s') = run_migrations exec times fs compiled source s in
      (r ≡ ok tt
        → (names_of s'.migrations ≡ names_of s.migrations ++ todo)
          × (s'.built ≡ built_all exec times (fs.read_file dir) todo s.built)
          × (run_migrations exec times fs compiled source s' ≡ (ok tt, s')))
      × ((e : Error)
          → r ≡ err e
          → (done : List String) × (n : String) × (rest : List String) × (todo ≡ done ++ n ∷ rest)
            × (names_of s'.migrations ≡ names_of s.migrations ++ done)
            × (exec (fs.read_file dir n) (built_all exec times (fs.read_file dir) done s.built)
                ≡ (err e, s'.built)))
unfolding run_migrations
run_migrations_lem exec times fs compiled source s distinct =
    let dir = migrations_dir fs compiled source in
    let names = migration_names fs dir in
    let (r, s') = run_all exec times (fs.read_file dir) names s in
    let (returned, threw) = run_all-Left exec times (fs.read_file dir) names s distinct in
    (
      λ fine.
          let (p, q) = returned fine in
          (
            p,
            q,
            run_all-Recorded exec times (fs.read_file dir) names s'
                (run_all-again exec times (fs.read_file dir) names s s' (λ i. (fine i, s'))),
          ),
      threw,
    )

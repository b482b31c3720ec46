-- ===== src/Tests/Starts.antt =====
-- Starts of the program: settings, migrations, and the reset of the tables.
use timeoff_request.Base.{
  ◌≡◌, ◌↔◌, refl, String, some, none, true, List, [], ◌∷◌, ◌++◌, ◌==◌, if◌then◌else◌,
}
use timeoff_request.Base.Int.{pos}
use timeoff_request.Base.Table.{select, order_by}
use timeoff_request.Domain.Errors.{Error, Result, ok, err, sqlite, check}
use timeoff_request.Domain.Days.{finite}
use timeoff_request.Database.Files.{FileSystem, ends_with}
use timeoff_request.Database.Migrations.{Schema, migration_names, run_migrations}
use timeoff_request.Database.Applied.{Distinct, pending, names_of, built_all}
use timeoff_request.Database.Once.{run_migrations_lem}
use timeoff_request.Database.Reset.{empty_db, reset_all_tables, reset_all_tables_lem}
use timeoff_request.Configuration.{config_service, validate, validate_lem, IsPositive}
use timeoff_request.Tests.Sample.{world}

abbrev files : FileSystem
files = record {
  exists = λ dir. true;
  readdir = λ dir. "002_log_table.sql" ∷ "notes.md" ∷ "001_init.sql" ∷ [];
  read_file = λ dir name. name;
}

-- the schema as the files that were executed; the second one is refused
abbrev exec : String → List String → Result Unit × List String
exec sql built =
    if sql == "002_log_table.sql" then (err (sqlite check), built) else (ok tt, built ++ sql ∷ [])

abbrev fresh : Schema (List String)
fresh = record { built = []; migrations = []; time_reads = 0 }

names_in_order : migration_names files "dist" ≡ "001_init.sql" ∷ "002_log_table.sql" ∷ []
unfolding migration_names ends_with select order_by
names_in_order = refl

distinct : Distinct (migration_names files "dist")
distinct = rw names_in_order ((refl, tt), (tt, tt))

run_migrations_lem_example :
    let todo = pending (migration_names files "dist") [] in
    let (r, s') = run_migrations exec (λ n. n) files "dist" "src" fresh in
    (r ≡ ok tt
      → (names_of s'.migrations ≡ [] ++ todo)
        × (s'.built ≡ built_all exec (λ n. n) (λ name. name) todo [])
        × (run_migrations exec (λ n. n) files "dist" "src" s' ≡ (ok tt, s')))
    × ((e : Error)
        → r ≡ err e
        → (done : List String) × (n : String) × (rest : List String) × (todo ≡ done ++ n ∷ rest)
          × (names_of s'.migrations ≡ [] ++ done)
          × (exec n (built_all exec (λ n. n) (λ name. name) done []) ≡ (err e, s'.built)))
run_migrations_lem_example = run_migrations_lem exec (λ n. n) files "dist" "src" fresh distinct

validate_lem_example :
    ((validate (config_service none) ≡ none) ↔ (
      IsPositive (finite (pos 5000))
      × IsPositive (finite (pos 5))
      × IsPositive (finite (pos 86400))))
    × (validate (config_service (some "data.db")) ≡ none)
validate_lem_example = validate_lem (config_service none) (some "data.db")

reset_all_tables_lem_example : reset_all_tables world ≡ (ok tt, record world { db = empty_db })
reset_all_tables_lem_example = reset_all_tables_lem world

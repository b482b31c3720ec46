-- ===== src/Database/Migrations.antt =====
-- `runMigrations` of src/db/database.service.ts. The file system and the effect of a SQL text on the
-- schema are parameters.
use timeoff_request.Base.{
  ℕ, ◌+◌, String, Bool, true, false, ◌==◌, List, [], ◌∷◌, ◌++◌, if◌then◌else◌, is_some,
}
use timeoff_request.Base.Order.{not_after}
use timeoff_request.Base.Table.{find, select, order_by}
use timeoff_request.Domain.Errors.{Result, ok, err}
use timeoff_request.Database.Files.{FileSystem, ends_with}

-- a row of `schema_migrations`
pub record Migration : Type 0 where
  pub name : String
  pub applied_at : ℕ

-- the schema that the SQL texts have built, the rows, and how often the clock was read
pub record Schema (S : Type 0) : Type 0 where
  pub built : S
  pub migrations : List Migration
  pub time_reads : ℕ

abbrev pub is_migration : String → Migration → Bool
is_migration name m = m.name == name

abbrev pub is_applied : String → List Migration → Bool
is_applied name rows = is_some (find (is_migration name) rows)

-- `existsSync(compiledDir) ? compiledDir : sourceDir`
abbrev pub migrations_dir : FileSystem → String → String → String
migrations_dir fs compiled source = if fs.exists compiled then compiled else source

-- `readdirSync(dir).filter((fileName) => fileName.endsWith('.sql')).sort()`
unfoldable pub migration_names : FileSystem → String → List String
migration_names fs dir =
    order_by not_after (select (λ name. ends_with name ".sql") (fs.readdir dir))

module _ {S : Type 0} (exec : String → S → Result Unit × S) (times : ℕ → ℕ) where
  abbrev pub recorded : String → Schema S → Schema S
  recorded name s = record s {
    migrations = s.migrations ++ record { name = name; applied_at = times s.time_reads } ∷ [];
    time_reads = s.time_reads + 1;
  }

  -- `db.exec` of a file; if it throws, what it had done until then stays, and no row is inserted
  unfoldable pub apply : String → String → Schema S → Result Unit × Schema S
  apply name sql s =
      let (r, built) = exec sql s.built in
      elim r [
        | ok _ ↦ (ok tt, recorded name (record s { built = built }))
        | err e ↦ (err e, record s { built = built })
      ]

  abbrev pub apply_new : Bool → String → String → Schema S → Result Unit × Schema S
  apply_new true name sql s = (ok tt, s)
  apply_new false name sql s = apply name sql s

  module _ (read : String → String) where
    -- `for (const migrationName of migrationNames)`
    unfoldable pub run_all : List String → Schema S → Result Unit × Schema S
    unfolding apply
    run_all [] s = (ok tt, s)
    run_all (name ∷ names) s =
        let (r, s') = apply_new (is_applied name s.migrations) name (read name) s in
        elim r [ ok _ ↦ run_all names s' | err e ↦ (err e, s') ]

  unfoldable pub run_migrations : FileSystem → String → String → Schema S → Result Unit × Schema S
  unfolding run_all migration_names
  run_migrations fs compiled source s =
      let dir = migrations_dir fs compiled source in
      run_all (fs.read_file dir) (migration_names fs dir) s

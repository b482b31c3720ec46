-- ===== src/Database.antt =====
-- src/db/database.service.ts: the migration runner, and the statements of `resetAllTables`.
-- `withTransaction` is in Store/World.
pub mod Reset
pub mod Files
pub mod Migrations
pub mod Applied
pub mod Once

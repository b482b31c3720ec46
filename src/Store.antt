-- ===== src/Store.antt =====
-- The state that the services share: the rows of the SQLite schema (src/db/migrations) and the
-- world in which a call runs.
pub mod Rows
pub mod World
pub mod Keeps
pub mod Run

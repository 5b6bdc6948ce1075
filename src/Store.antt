-- ===== src/Store.antt =====
-- internal/store: the database.
pub mod Errors
pub mod Table
pub mod Active
pub mod Collapse
pub mod Supersede
pub mod Args
pub mod Batch
pub mod Lifetime
pub mod Reading
pub mod Schema
pub mod Migrate
pub mod Reports
pub mod States
pub mod Examples

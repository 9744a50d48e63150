-- ===== src/Ent.antt =====
-- The database schema of ent/schema and the operations of its generated client.
pub mod Status
pub mod Schema
pub mod Store
pub mod Tables

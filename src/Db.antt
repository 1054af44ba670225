-- ===== src/Db.antt =====
-- db/database.go: the connection pool, the tables and the rows that the program saves.
pub mod Tables
pub mod Pools
pub mod Merge
pub mod Rows
pub mod Method
pub mod Global
pub mod Same
pub mod Paths
pub mod Atomic
pub mod Schema
pub mod Setup

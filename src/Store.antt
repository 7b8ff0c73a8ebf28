-- ===== src/Store.antt =====
-- src/store.ts: the tables that it keeps in D1, its statements, and the functions built of them.
pub mod Schema
pub mod Tables
pub mod Sql
pub mod Writes
pub mod Prune
pub mod Sync
pub mod Reads
pub mod Listing
pub mod Caches
pub mod RateLimit
pub mod Publishing

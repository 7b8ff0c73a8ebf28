-- ===== src/Tests.antt =====
-- Runs of the model at concrete inputs, and each theorem at an input that meets its hypotheses.
mod Fixtures
mod Sync
mod Client
mod Geo
mod Html
mod Table
mod Histories
mod Jobs
mod Tokens
mod Caches
mod Queries
mod Pages
mod Sections
mod Flush
mod Addresses
mod Wire
mod Gates
mod Publishing
mod Ranges
mod Ingest
mod Pruning
mod Refresh

-- ===== src/Api.antt =====
-- functions/: the endpoints, as functions of the database, the clock and the request.
pub mod Changes
pub mod Pool
pub mod History
pub mod Query
pub mod Home
pub mod Ingest
pub mod Probe

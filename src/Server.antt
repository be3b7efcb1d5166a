-- ===== src/Server.antt =====
-- The server, internal/server: the queries, the tables, the sessions of the administrator and the
-- requests that it answers.
pub mod Query
pub mod Store
pub mod Ingest
pub mod Sessions
pub mod Devices
pub mod Rules
pub mod Keys
pub mod QueryApi
pub mod Site
mod Examples

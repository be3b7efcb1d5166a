-- ===== src/Agent.antt =====
-- The agent, internal/agent: what turns observations of a PC into heartbeats and brings them to the
-- server.
pub mod Tick
pub mod Heartbeat
pub mod Buffer
pub mod Shipper
pub mod Categorize
pub mod Observe
pub mod Config
pub mod Samples
pub mod Pipe
pub mod Spawner
pub mod Run
pub mod Watcher
pub mod Examples

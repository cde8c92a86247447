-- ===== src/Session.antt =====
-- nexau/archs/session: the services that keep their state in database tables.
pub mod TaskLock
pub mod AgentLock
mod Samples

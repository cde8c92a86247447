-- ===== src/Team.antt =====
-- nexau/archs/main_sub/team: what the agents of a team share.
pub mod Slug
pub mod MessageBus
pub mod TaskBoard
pub mod Watchdog
mod Samples

-- ===== src/History.antt =====
-- nexau/archs/main_sub/history_list.py and nexau/archs/session/agent_run_action_service.py: an agent's
-- messages, and the log of actions that they are rebuilt from.
pub mod Messages
pub mod Pairing
pub mod Log
pub mod Load
pub mod HistoryList
mod Codec
mod Samples

-- ===== src/Tests.antt =====
-- Runs of the models on concrete data.
pub mod Log
pub mod Stream
pub mod Contract
pub mod Paired
pub mod Entry
pub mod Chat
pub mod Turns
pub mod Agents
pub mod Files

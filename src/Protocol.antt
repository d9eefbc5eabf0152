-- ===== src/Protocol.antt =====
-- packages/hcp-protocol: JSON values, events and snapshots, and the session reducer.
pub mod Json
pub mod Event
pub mod Command
pub mod DeepEqual
pub mod Reducer

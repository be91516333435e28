-- ===== src/Debug.antt =====
-- The debug page: `src/debug_state.py`.
pub mod Events
pub mod EventSearch
pub mod EventLaws
pub mod Ports
pub mod PortLaws
pub mod State
pub mod Updates
pub mod DeleteLaws
pub mod ChannelLaws
pub mod UpdateLaws
pub mod UpdateErrors
pub mod Reachable
pub mod Topology
pub mod TopologyLaws

-- ===== src/MuxState.antt =====
-- `src/mux_state.py`: the persisted port claims of one mux, in one reconciliation pass. `Defs` has
-- the data and the methods, the other children what is proved of them.
pub mod Defs
pub mod Lifecycle
pub mod Used
pub mod Free
pub mod Found
pub mod Allocate
pub mod Distinct
pub mod Restart
pub mod Stored
pub mod Reload
pub mod Survive

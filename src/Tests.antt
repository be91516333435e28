-- ===== src/Tests.antt =====
-- The model and the theorems at concrete inputs.
pub mod Fixtures
pub mod Text
pub mod State
pub mod Publish
pub mod Handlers
pub mod Store
pub mod Pass
pub mod Iteration
pub mod Debug
pub mod Events
pub mod Muxdebug
pub mod Web
pub mod Restart
pub mod Total

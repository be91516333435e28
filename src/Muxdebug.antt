-- ===== src/Muxdebug.antt =====
-- The command-line debugger: `tools/muxdebug`.
pub mod Client
pub mod Parse
pub mod Routes
pub mod Find
pub mod PodLaws
pub mod RouteLaws
pub mod BuildLaws
pub mod SearchLaws
pub mod FindLaws
pub mod PortLaws
pub mod Diagnose
pub mod CommandLaws
pub mod Checks
pub mod DiagnoseLaws

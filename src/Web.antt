-- ===== src/Web.antt =====
-- The web server of the debug page: `src/debug_auth.py`, `src/debug_security.py` and
-- `src/debug_routes.py`.
pub mod Guard
pub mod GuardLaws
pub mod TestTcp

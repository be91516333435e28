-- ===== src/Reconcile.antt =====
-- `src/reconcile.py`: the pure steps of reconciling a mux.
pub mod ExternalPorts
pub mod ResolveLaws
pub mod Limits
pub mod Owners
pub mod Conflicts
pub mod Previous
pub mod ConflictLaws
pub mod Endpoints
pub mod ExternalDns
pub mod ExternalDnsLaws
pub mod EndpointLaws

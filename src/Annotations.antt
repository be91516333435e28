-- ===== src/Annotations.antt =====
-- `src/annotations.py`: the port mapping annotation of a channel Service and its reader.
pub mod Mappings
pub mod RoundTrip
pub mod Items
pub mod Topology

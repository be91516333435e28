-- ===== src/PortAllocations.antt =====
-- Port ranges, of `src/port_allocations.py`.
pub mod Ranges
pub mod RangeLaws
pub mod Allocator
pub mod Store
pub mod StoreLaws
pub mod AllocatorLaws

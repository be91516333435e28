-- ===== src/Events.antt =====
-- Events of the Kubernetes API: `src/events.py`. The cache keeps the events written last.
pub mod CacheDict
pub mod CacheLaws
pub mod Record
pub mod RecordLaws

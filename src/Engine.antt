-- ===== src/Engine.antt =====
-- The reference engine (turboserve/engine): the paged key/value cache and its policy layers.
pub mod BlockAllocator
pub mod PrefixHash
pub mod PrefixCache
pub mod Sequence
pub mod BlockManager
pub mod WaitQueue
pub mod AttnMetadata
pub mod SchedulerOutput
pub mod Scheduler

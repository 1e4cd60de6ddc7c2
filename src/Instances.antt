-- ===== src/Instances.antt =====
-- src/mlio/instance_readers: the readers that deliver data instances, and how they are stacked.
pub mod Yields
pub mod Peek
pub mod Ranged
pub mod Sharded
pub mod Sampled
pub mod Shuffled
pub mod Reader
pub mod Pipeline
pub mod Batches
pub mod Core

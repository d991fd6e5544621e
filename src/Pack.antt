-- ===== src/Pack.antt =====
-- src/core/pack.c: the packing channel, its sensors, its injections and the container.
pub mod Channel
pub mod Entries
pub mod Put
pub mod Flush
pub mod Inject
pub mod Array
pub mod Container
pub mod Channels
mod Tests

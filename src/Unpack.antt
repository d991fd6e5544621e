-- ===== src/Unpack.antt =====
-- src/core/unpack.c: the reader of blocks, and the container of its channels.
pub mod Channel
pub mod Read
pub mod Array
pub mod Block
pub mod Container
pub mod Parse
pub mod Generate
pub mod Kept
pub mod Channels
mod Tests

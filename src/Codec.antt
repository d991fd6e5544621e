-- ===== src/Codec.antt =====
-- Packing and unpacking together.
pub mod Reads
pub mod Sizes
pub mod Records
pub mod Table
pub mod Units
pub mod Matches
pub mod Insert
pub mod Sync
pub mod Puts
pub mod Deliver
pub mod Following
pub mod Times
pub mod Inject
pub mod Injections
pub mod File
pub mod Holds
pub mod Session
pub mod Begin
pub mod Close
pub mod RoundTrip
pub mod Accept
pub mod Generate
pub mod Arrays
pub mod Headers
pub mod Tests
mod Examples
mod Reading

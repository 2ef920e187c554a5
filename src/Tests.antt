-- ===== src/Tests.antt =====
-- The services that the examples run with, and one example for each theorem.
pub mod Encoding
pub mod Services
pub mod SignIn
pub mod Failure
pub mod Tokens
pub mod Caches
pub mod Sockets
pub mod Limits
pub mod Configuration
pub mod Frames
pub mod Content
pub mod Reads
pub mod Stores
pub mod Streams

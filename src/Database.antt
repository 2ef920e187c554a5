-- ===== src/Database.antt =====
-- internal/database: one module for each table, and the invariants of the whole.
pub mod Users
pub mod Tokens
pub mod Sessions
pub mod States
pub mod Sound
pub mod Cache
pub mod Reads
pub mod Cascade
pub mod Stores
pub mod Guilds
pub mod Channels
pub mod Messages
pub mod WebsocketSessions
pub mod Content

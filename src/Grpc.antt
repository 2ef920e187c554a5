-- ===== src/Grpc.antt =====
-- internal/grpc: the services that clients call.
pub mod AuthServer
pub mod CacheManager
pub mod Proto
pub mod Session
pub mod Access
pub mod Denied
pub mod ChannelServer
pub mod MessageServer

-- ===== src/Auth.antt =====
-- internal/auth: the Discord client, the state manager and the OAuth callback.
pub mod Services
pub mod Cipher
pub mod Discord
pub mod StateManager
pub mod Callback
pub mod Quiet
pub mod Sound
pub mod Api
pub mod Content

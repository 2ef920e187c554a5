-- ===== src/Websocket.antt =====
-- internal/websocket: subscriptions, event channels, the Gateway connection and message events.
pub mod Channels
pub mod Gateway
pub mod Manager
pub mod Events

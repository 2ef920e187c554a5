-- ===== src/Models/Schema.antt =====
-- internal/database/migrations: the tables that the server writes. A `next_` field is the
-- sequence of a BIGSERIAL column, which an INSERT draws from even when it then meets a conflict.
use discord_lite_server.Base.{ℕ, List, []}
use discord_lite_server.Models.Auth.{User, OauthToken, OauthState, AuthSession}
use discord_lite_server.Models.Cache.{CacheMetadata}
use discord_lite_server.Models.Content.{Guild, UserGuild, Channel, Message, MessageAttachment}
use discord_lite_server.Models.Websocket.{WebSocketSession}

pub record Tables : Type 0 where
  pub users : List User
  pub oauth_tokens : List OauthToken
  pub oauth_states : List OauthState
  pub auth_sessions : List AuthSession
  pub cache_metadata : List CacheMetadata
  pub guilds : List Guild
  pub user_guilds : List UserGuild
  pub channels : List Channel
  pub messages : List Message
  pub message_attachments : List MessageAttachment
  pub websocket_sessions : List WebSocketSession
  pub next_user : ℕ
  pub next_token : ℕ
  pub next_cache : ℕ
  pub next_guild : ℕ
  pub next_user_guild : ℕ
  pub next_channel : ℕ
  pub next_message : ℕ
  pub next_attachment : ℕ
  pub next_websocket : ℕ

-- The tables that the migrations leave.
abbrev pub migrated : Tables
migrated = record {
  users = [];
  oauth_tokens = [];
  oauth_states = [];
  auth_sessions = [];
  cache_metadata = [];
  guilds = [];
  user_guilds = [];
  channels = [];
  messages = [];
  message_attachments = [];
  websocket_sessions = [];
  next_user = 1;
  next_token = 1;
  next_cache = 1;
  next_guild = 1;
  next_user_guild = 1;
  next_channel = 1;
  next_message = 1;
  next_attachment = 1;
  next_websocket = 1;
}
